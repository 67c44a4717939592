-- ===== src/XdmcpServer/Tests.antt =====
-- Runs of the XDMCP server (src/xdmcp-server.c), with simple stand-ins for GIO and libXdmcp.
use lightdm.Base.{
  ℕ, ◌+◌, ◌≤◌, ◌<◌, ◌≡◌, ◌⊎◌, refl, Bool, true, false, List, [], ◌∷◌, Option, some, none, length,
  arith, codes, str_eq, All, ◌==◌, if◌then◌else◌, is_some,
}
use lightdm.Xdmcp.Packet.{Str, XdmcpData, XdmcpConnection, willing, accept, decline}
use lightdm.XdmcpServer.State.{
  InetAddresses, XdmAuth, XAuthority, XdmcpSession, XdmcpServer, ipv4, find, pick_id,
  session_timeout_cb, mit_magic_cookie, xdm_authentication,
}
use lightdm.XdmcpServer.Address.{Sign, AddrSortItem, connection_to_address}
use lightdm.XdmcpServer.Auth.{check_authentication, decode_key, atox, has_string}
use lightdm.XdmcpServer.Handlers.{
  handle_query, handle_request, add_session, authorize, authority_for,
}
use lightdm.XdmcpServer.Dispatch.{SocketAddress, read_cb}
use lightdm.XdmcpServer.Sessions.{IsTable}
use lightdm.XdmcpServer.Run.{Event, received, timed_out, step, run, run-IsTable}
use lightdm.XdmcpServer.Keys.{decode_key_weak, low_digits}
use lightdm.XdmcpServer.Answers.{handle_query_lem, Presents, request_authenticated}
use lightdm.XdmcpServer.Lifecycle.{timeout-request}

abbrev inet : InetAddresses
inet = record {
  InetAddress = List ℕ;
  new_from_bytes = λ bytes family. bytes;
  get_family = λ a. if length a == 4 then 2 else 10;
  is_link_local = λ a. false;
  is_loopback = λ a. false;
  equal = str_eq;
}

abbrev xdm : XdmAuth
xdm = record {
  wrap = λ input key. input;
  unwrap = λ input key. input;
  increment_key = λ rho. rho;
  decrement_key = λ rho. rho;
}

abbrev open_server : XdmcpServer (List ℕ)
open_server = record { hostname = codes "host"; status = []; key = none; sessions = [] }

abbrev local : XdmcpConnection
local = record { type = 0; address = 192 ∷ 168 ∷ 0 ∷ 1 ∷ [] }

abbrev cookie_numbers : List ℕ
cookie_numbers = 1 ∷ 2 ∷ 3 ∷ 4 ∷ 5 ∷ 6 ∷ 7 ∷ 8 ∷ 9 ∷ 10 ∷ 11 ∷ 12 ∷ 13 ∷ 14 ∷ 15 ∷ 256 ∷ 65537 ∷ []

abbrev cookie : List ℕ
cookie = 1 ∷ 2 ∷ 3 ∷ 4 ∷ 5 ∷ 6 ∷ 7 ∷ 8 ∷ 9 ∷ 10 ∷ 11 ∷ 12 ∷ 13 ∷ 14 ∷ 15 ∷ 0 ∷ []

abbrev waiting : XdmcpSession (List ℕ)
waiting = record {
  id = 1;
  address = local.address;
  authority = record {
    family = 0;
    address = local.address;
    number = codes "0";
    authorization_name = mit_magic_cookie;
    authorization_data = cookie;
  };
  display_number = 0;
  display_class = [];
  started = false;
  timer = true;
}

abbrev busy_server : XdmcpServer (List ℕ)
busy_server = record open_server { sessions = waiting ∷ [] }

accepted_run :
    handle_request inet xdm [] open_server
      (some local)
      0
      []
      []
      (mit_magic_cookie ∷ [])
      cookie_numbers
    ≡ some (busy_server, accept 1 [] [] mit_magic_cookie cookie)
unfolding handle_request check_authentication str_eq has_string authorize add_session pick_id find
    connection_to_address authority_for lightdm.Base.decimal
accepted_run = refl

handle_query_lem_example : handle_query open_server [] ≡ willing [] (codes "host") []
handle_query_lem_example = handle_query_lem open_server []

request_authenticated_example :
    ((busy_server ≡ open_server)
      × (status sent : Str) × (sent_data : XdmcpData) × (accept 1 [] [] mit_magic_cookie cookie
          ≡ decline status sent sent_data))
    ⊎ (Presents none [] [] (mit_magic_cookie ∷ [])
        × (id : ℕ) × (id < 65536)
        × (find id (open_server.sessions) ≡ none)
        × (sent authorization : Str) × (sent_data authorization_data : XdmcpData) × (accept 1 [] []
              mit_magic_cookie cookie
            ≡ accept id sent sent_data authorization authorization_data))
request_authenticated_example =
    request_authenticated inet xdm [] open_server busy_server (some local) 0 [] []
      (mit_magic_cookie ∷ []) cookie_numbers (accept 1 [] [] mit_magic_cookie cookie) accepted_run

timeout-request_example : session_timeout_cb busy_server 1 ≡ open_server
timeout-request_example =
    timeout-request inet xdm [] open_server busy_server (some local) 0 [] [] (mit_magic_cookie ∷ [])
      cookie_numbers 1 [] [] mit_magic_cookie cookie accepted_run

decode_key_weak_example :
    (decode_key (codes "0x1b2c") ≡ 0 ∷ 11 ∷ 12 ∷ 0 ∷ 0 ∷ 0 ∷ 0 ∷ 0 ∷ [])
    × All (λ b. b < 16) (decode_key (codes "0x1b2c"))
unfolding low_digits atox
decode_key_weak_example = decode_key_weak (codes "1b2c")

abbrev unsorted :
    (AddrSortItem inet → AddrSortItem inet → Sign)
    → List (AddrSortItem inet)
    → List (AddrSortItem inet)
unsorted compare items = items

abbrev client : SocketAddress inet
client = record { host = 10 ∷ 0 ∷ 0 ∷ 7 ∷ []; port = 1024 }

-- A datagram too short to be a packet, and the timeout of the session that waits.
abbrev history : List (Event inet xdm [] unsorted)
history = received (λ s. true) ipv4 [] client (1 ∷ 2 ∷ []) ∷ timed_out 1 ∷ []

history-run : run inet xdm [] unsorted busy_server history ≡ some open_server
unfolding run step read_cb session_timeout_cb find lightdm.XdmcpServer.State.remove
    lightdm.Xdmcp.Decode.xdmcp_packet_decode lightdm.Xdmcp.Reader.read_card16
    lightdm.Xdmcp.Reader.read_card8
history-run = refl

run-IsTable_example : IsTable (open_server.sessions)
unfolding find
run-IsTable_example =
    run-IsTable inet xdm [] unsorted history busy_server open_server
      ((omega arith, λ e. cc), refl, tt) history-run

-- The session is managed with a wrong number, and its old timer fires.
abbrev running : XdmcpServer (List ℕ)
running = record open_server {
  sessions = record waiting { display_class = codes "MIT"; started = true; timer = false } ∷ [];
}
