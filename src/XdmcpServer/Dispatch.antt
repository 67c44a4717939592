-- ===== src/XdmcpServer/Dispatch.antt =====
-- Manage, KeepAlive, ForwardQuery, and the reading of a datagram (src/xdmcp-server.c).
use lightdm.Base.{
  is_some, ℕ, Bool, true, false, List, [], ◌∷◌, ◌++◌, Option, none, some, ◌==◌, length,
  if◌then◌else◌, codes, decimal,
}
use lightdm.Xdmcp.Packet.{
  Str, XdmcpData, XdmcpPacket, broadcast_query, query, indirect_query, forward_query, request,
  manage, refuse, failed, keep_alive, alive,
}
use lightdm.Xdmcp.Writer.{xdmcp_packet_encode}
use lightdm.Xdmcp.Decode.{xdmcp_packet_decode}
use lightdm.XdmcpServer.State.{
  ipv4, ipv6, InetAddresses, XdmAuth, XdmcpSession, XdmcpServer, get_session, replace,
}
use lightdm.XdmcpServer.Address.{Sign, AddrSortItem, choose_connection}
use lightdm.XdmcpServer.Handlers.{port_of, handle_query, handle_request}

abbrev pub cannot_connect : ℕ → Str
cannot_connect number = codes "Failed to connect to display :" ++ decimal number

-- The end of `handle_manage`: `accepts` is the result of the signal NEW_SESSION. Giving up the
-- source of the timer and starting go together.
unfoldable pub start_managed :
    {I : Type 0}
    → (XdmcpSession I → Bool)
    → XdmcpServer I
    → XdmcpSession I
    → ℕ
    → ℕ
    → XdmcpServer I × List XdmcpPacket
start_managed accepts server session session_id number =
    if accepts session
    then (
      record server {
        sessions = replace (record session { started = true; timer = false }) server.sessions;
      },
      [],
    )
    else (
      record server { sessions = replace session server.sessions },
      failed session_id (cannot_connect number) ∷ [],
    )

-- Where the display number differs, the code sends Refuse and goes on.
unfoldable pub handle_manage :
    {I : Type 0}
    → (XdmcpSession I → Bool)
    → XdmcpServer I
    → ℕ
    → ℕ
    → Str
    → XdmcpServer I × List XdmcpPacket
handle_manage accepts server session_id number class = elim (get_session server session_id) [
  | none ↦ (server, refuse session_id ∷ [])
  | some session ↦
      let (server', sent) =
        start_managed accepts server (record session { display_class = class }) session_id number in
      let refused = if session.display_number == number then [] else refuse session_id ∷ [] in
      if session.started then (server, []) else (server', refused ++ sent)
]

unfoldable pub handle_keep_alive : {I : Type 0} → XdmcpServer I → ℕ → XdmcpPacket
handle_keep_alive server session_id =
    let found = is_some (get_session server session_id) in
    alive found (if found then session_id else 0)

-- The size that a client address has in the family of the socket; `none` for another family.
abbrev pub client_length : ℕ → Option ℕ
client_length family = if family == ipv4 then some 4 else if family == ipv6 then some 16 else none

module _ (inet : InetAddresses) where
  open inet use {InetAddress, new_from_bytes}

  -- `GInetSocketAddress`.
  pub record SocketAddress : Type 0 where
    pub host : InetAddress
    pub port : ℕ

  -- `family` is that of the socket. Nothing is sent if the client address has another length.
  unfoldable pub handle_forward_query :
      XdmcpServer InetAddress
      → ℕ
      → XdmcpData
      → XdmcpData
      → List Str
      → List (SocketAddress × XdmcpPacket)
  handle_forward_query server family client_address client_port names =
      elim (client_length family) [
        | none ↦ []
        | some n ↦
            if length client_address == n
            then (
              record { host = new_from_bytes client_address family; port = port_of 0 client_port },
              handle_query server names,
            )
              ∷ []
            else []
      ]

  abbrev pub to : SocketAddress → List XdmcpPacket → List (SocketAddress × XdmcpPacket)
  to address [] = []
  to address (p ∷ ps) = (address, p) ∷ to address ps

  -- What a packet of the client does: the new state and the packets sent. `none` if the random
  -- numbers run out.
  unfoldable pub handle_packet :
      XdmAuth
      → Str
      → ((AddrSortItem inet → AddrSortItem inet → Sign)
          → List (AddrSortItem inet)
          → List (AddrSortItem inet))
      → (XdmcpSession InetAddress → Bool)
      → ℕ
      → List ℕ
      → XdmcpServer InetAddress
      → SocketAddress
      → XdmcpPacket
      → Option (XdmcpServer InetAddress × List (SocketAddress × XdmcpPacket))
  handle_packet xdm hostname sort accepts family random server address (broadcast_query names) =
      some (server, (address, handle_query server names) ∷ [])
  handle_packet xdm hostname sort accepts family random server address (query names) =
      some (server, (address, handle_query server names) ∷ [])
  handle_packet xdm hostname sort accepts family random server address (indirect_query names) =
      some (server, (address, handle_query server names) ∷ [])
  handle_packet xdm hostname sort accepts family random server address
        (forward_query client port names) =
      some (server, handle_forward_query server family client port names)
  handle_packet xdm hostname sort accepts family random server address
        (request number connections name auth names id) =
      elim (handle_request inet xdm hostname server
        (choose_connection inet sort connections address.host) number name auth names random) [
          | none ↦ none
          | some (server', p) ↦ some (server', (address, p) ∷ [])
        ]
  handle_packet xdm hostname sort accepts family random server address (manage id number class) =
      let (server', ps) = handle_manage accepts server id number class in
      some (server', to address ps)
  handle_packet xdm hostname sort accepts family random server address (keep_alive number id) =
      some (server, (address, handle_keep_alive server id) ∷ [])
  handle_packet _ _ _ _ _ _ server _ _ = some (server, [])

  -- A packet that cannot be encoded is not sent.
  unfoldable pub send_packets : List (SocketAddress × XdmcpPacket) → List (SocketAddress × List ℕ)
  send_packets [] = []
  send_packets ((address, p) ∷ ps) = elim (xdmcp_packet_encode p 1024) [
    | none ↦ send_packets ps
    | some octets ↦ (address, octets) ∷ send_packets ps
  ]

  -- A datagram as it was received, of at most 1024 octets.
  unfoldable pub read_cb :
      XdmAuth
      → Str
      → ((AddrSortItem inet → AddrSortItem inet → Sign)
          → List (AddrSortItem inet)
          → List (AddrSortItem inet))
      → (XdmcpSession InetAddress → Bool)
      → ℕ
      → List ℕ
      → XdmcpServer InetAddress
      → SocketAddress
      → List ℕ
      → Option (XdmcpServer InetAddress × List (SocketAddress × List ℕ))
  read_cb xdm hostname sort accepts family random server address octets =
      elim (xdmcp_packet_decode octets) [
        | none ↦ some (server, [])
        | some p ↦ elim (handle_packet xdm hostname sort accepts family random server address p) [
          | none ↦ none
          | some (server', ps) ↦ some (server', send_packets ps)
        ]
      ]
