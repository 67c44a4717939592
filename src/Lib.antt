-- ===== src/Lib.antt =====
-- LightDM, a display manager: a verification library for the logic of its daemon and of the library
-- of its greeters.
--
-- The daemon (src/lightdm.c) runs seats; a seat runs display servers (X servers and compositors)
-- and sessions. Two parties from outside talk to it. Remote X servers ask for logins with XDMCP
-- datagrams: src/xdmcp-server.c decodes each with src/xdmcp-protocol.c, keeps a table of the
-- sessions it accepted (src/xdmcp-session.c), answers, and asks the display manager for a seat once
-- a session is managed. Greeters, the login screens, talk to the daemon through a pair of pipes:
-- src/greeter.c reads their messages, authenticates users with a session of src/session.c, whose
-- child process runs PAM, and asks the seat to start the user's session. A greeter uses liblightdm-
-- gobject/greeter.c for its end of the pipes.
--
-- What each module models:
--
-- Base and its children: Boolean tests, lists, texts and optional results on native numbers.
--
-- Session: the part of src/session.c that takes part in authentication. A session is the record of
-- the fields concerned; what it does to the outside is a list of outputs, the values written to its
-- child among them.
--
-- Greeter: src/greeter.c. State has the record of a greeter (`GreeterPrivate`), its outputs, and
-- the record `World` of what the rest of the daemon and the system answer during one event. A
-- handler is an `Act`: a function from a greeter to a greeter and the outputs, in order. Writer and
-- Reader have the functions on message buffers, Handlers one function for each handler, Dispatch
-- `read_cb` and the events that reach a greeter. Frame and Messages describe the messages apart
-- from the code; Framing, Delivery and Fuel show how messages are put together from pieces; Locked,
-- LockedHandlers, Safety, Revocation and Login are about who may start a session.
--
-- Xdmcp: src/xdmcp-protocol.c and src/xdmcp-protocol.h. Packet has the packets, one constructor for
-- each opcode (`XDMCPPacket`). Reader has `PacketReader` and its operations, Decode has
-- `xdmcp_packet_decode`; Writer has `PacketWriter`, its operations and `xdmcp_packet_encode`. A
-- reader passes the octets that are left and the overflow flag on as a state; a writer passes the
-- octets written, the room and the flag. Wire is an independent description of the octets of a
-- packet; Emits, Encode, Parses, Fields, Request and Body relate the code to it; RoundTrip and
-- Accepted have the results.
--
-- XdmcpServer: src/xdmcp-server.c and src/xdmcp-session.c. State has the records of the server and
-- of a session, and the table of sessions: a list of sessions, each under its id, for the
-- GHashTable. Address has the choice of the connection address, Auth the key and the authentication
-- checks, Handlers and Dispatch one function for each packet handler and `read_cb`. A handler
-- returns the new state and the packets sent, in order. Sessions and Invariant have the table
-- invariant, Run sequences of datagrams and timeouts, each with the socket it comes to and the
-- answers that it meets, Answers the answers, Lifecycle and Managed what happens to a session, Keys
-- the server key.
--
-- XAuthorityFile: `x_authority_write` of src/x-authority.c, with which the daemon and its session
-- children keep the cookies of X displays. Records has the readers and writers of a record, Write
-- the update and the file behind it, RoundTrip, Effects and Termination what a file holds
-- afterwards. The record `XAuthority` stands in XdmcpServer.State.
--
-- DisplayManager: src/display-manager.c. Manager has its state and operations and the events that
-- reach it, Stopping is about the signal STOPPED. A seat is a number; whether it starts, and
-- whether it stops while it is told to, comes with the event.
--
-- SessionChild: src/session-child.c, with the part of src/session.c that talks to it. Pipe has the
-- octets that each side writes, Reader those that it reads, Child the command and what the child
-- opens and closes around it, Dialogue the conversations of PAM over the pipes and the login that
-- they make up. A call of PAM that talks is a tree of questions and results (`Pam`), and the calls
-- that a login makes are a record of them (`PamService`), and whoever answers is a function
-- (`Reply`). Fields and RoundTrip are about single values and whole messages, Refinement and Login
-- about the dialogue, Stopping about sessions that are stopped and about what is open while a
-- command runs.
--
-- Seat: src/seat.c, with what it uses of src/session.c, src/greeter-session.c and
-- src/display-server.c. State has the records of a seat (`SeatPrivate`), of a session and of a
-- display server; sessions and display servers are objects in a store, known by numbers, so that
-- the many pointers to them are shared. A function is an `Act`: a function from a seat to an
-- outcome, which is a seat with a result, a crash where the code uses a NULL pointer, or
-- `too_deep`. A signal that is emitted inside a call runs its handler there and then: the functions
-- take `call` for the handlers, and Run ties the knot with a depth of nesting. What the system and
-- the kind of seat answer is an `Environment`: the n-th question of a run gets its n-th answer.
-- Objects and Properties have the operations on objects and configuration, Find the searches,
-- Configure, Create, Switch and Stop what they say, Callbacks the handlers of signals, Requests the
-- requests to a seat, Run the events that reach a seat and their sequences. Keeps has the logic of
-- invariants for acts; Stopping and the modules named after it, Halting, Telling and Shutdown are
-- about the stop of a seat, Switching about what counts as true in the configuration.
--
-- GreeterLibrary: liblightdm-gobject/greeter.c, the end of the protocol that a greeter uses. State
-- has its record (`LightDMGreeterPrivate`) and outputs, Requests the calls that send messages to
-- the daemon, Receiving the handlers of the messages that the daemon sends. Calls lists the calls
-- and what each means to the daemon; Sending and Sent are about what is written, Meaning and
-- Exchange about how the daemon reads it, Understanding and Login about how the library reads what
-- the daemon writes, History what a greeter knows after any messages.
--
-- Machine integers are natural numbers with their wrap-around written out: a card8 is cut to 8
-- bits, a card16 and a guint16 to 16, a guint32 to 32. Octets are natural numbers below 256, which
-- the theorems that need it say. Strings are lists of octets without their terminator.
--
-- Fuel and bounds: every loop over a list is structural recursion. The loop over the records of an
-- authority file takes the length of the file as fuel, since each record has octets of its own.
-- `read_cb` of the greeter calls itself at most once, behind a complete header, so a fuel of two is
-- enough; it takes the results of its reads as a list. `decimal` prints at most ten digits, which
-- is enough for 32 bits. The loop that picks a session id runs along the list of the random numbers
-- that it will be given; a handler whose list runs out before an id is free has no result, where
-- the code would go on drawing. The nesting of calls in a seat is bounded by the depth given to
-- `perform`: a run that is cut has the outcome `too_deep`, and is not taken for one that returned.
-- The loops of the greeter library that read pairs up to the end of a message take the length of
-- the rest as fuel: a pair has eight octets, and where fewer than four are left the code does not
-- advance and never ends, which is the outcome `none`.
--
-- Parameters: GIO addresses, libXdmcp, the order in which GLib sorts, random numbers, the results
-- of reads from a channel, of pipes and of forks, the accounts that exist and the key files of
-- remote sessions, which are not under src/; and, at the border of the parts that are modelled, the
-- answer of the display manager to a new XDMCP session, the answers of the seat to a greeter's
-- signals, and what a kind of seat or of display server does. A channel to the daemon that exists
-- is taken for one that writes what it is given. In the session child, what PAM asks and answers
-- and how the system calls end. A read of the pipe gives all that it asks for.
--
-- Not modelled: the kinds of seats and of display servers, the other files of the greeter
-- libraries, the set-up and the reading loop of the channel of a greeter library and its
-- synchronous calls, sockets, memory management, log texts, the D-Bus interfaces, what PAM itself
-- does, and the GObject type registration.
--
pub mod Base
pub mod Session
pub mod XAuthorityFile
pub mod Greeter
pub mod DisplayManager
pub mod Seat
pub mod GreeterLibrary
pub mod SessionChild
pub mod Xdmcp
pub mod XdmcpServer
