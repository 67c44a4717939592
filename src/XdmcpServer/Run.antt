-- ===== src/XdmcpServer/Run.antt =====
-- The session table under any history of datagrams and timeouts (src/xdmcp-server.c).
use lightdm.Base.{
  ℕ, ◌≡◌, subst, sym, inl, inr, Bool, List, [], ◌∷◌, Option, none, some, Option-cases, ◌>>=◌,
  >>=-eq-some,
}
use lightdm.Xdmcp.Packet.{Str, XdmcpData, XdmcpConnection, XdmcpPacket, request, manage}
use lightdm.Xdmcp.Decode.{xdmcp_packet_decode}
use lightdm.XdmcpServer.State.{
  InetAddresses, XdmAuth, XdmcpSession, XdmcpServer, session_timeout_cb,
}
use lightdm.XdmcpServer.Address.{Sign, AddrSortItem, choose_connection}
use lightdm.XdmcpServer.Auth.{check_authentication}
use lightdm.XdmcpServer.Handlers.{Authorization, handle_request}
use lightdm.XdmcpServer.Dispatch.{SocketAddress, handle_manage, handle_packet, read_cb}
use lightdm.XdmcpServer.Sessions.{IsTable, timeout-IsTable}
use lightdm.XdmcpServer.Invariant.{
  handle_manage-IsTable, handle_request-Answered, Added, Added-IsTable, Answered,
}

module _ (inet : InetAddresses) (xdm : XdmAuth) (own_hostname : Str)
    (sort : (AddrSortItem inet → AddrSortItem inet → Sign)
      → List (AddrSortItem inet)
      → List (AddrSortItem inet)) where
  open inet use {InetAddress}

  abbrev pub Server : Type 0
  Server = XdmcpServer InetAddress

  abbrev pub Accepts : Type 0
  Accepts = XdmcpSession InetAddress → Bool

  -- What the main loop gives to the server: a datagram on a socket of a family, with what the display
  -- manager answers to a new session then, or the end of a timer.
  pub data Event : Type 0 where
    received :
        (accepts : Accepts) (family : ℕ) (random : List ℕ) (address : SocketAddress inet)
        (octets : List ℕ)
        → Event
    timed_out : (id : ℕ) → Event

  unfoldable pub step : Server → Event → Option Server
  step server (received accepts family random address octets) =
      elim (read_cb inet xdm own_hostname sort accepts family random server address octets) [
        | none ↦ none
        | some (server', sent) ↦ some server'
      ]
  step server (timed_out id) = some (session_timeout_cb server id)

  unfoldable pub run : Server → List Event → Option Server
  run server [] = some server
  run server (e ∷ es) = step server e >>= λ s. run s es

  -- What every operation on the table keeps, every history keeps.
  module _ (P : List (XdmcpSession InetAddress) → Type 0)
      (manages : (accepts : Accepts) (server : Server) (id number : ℕ) (class : Str)
        → P server.sessions
        → P (handle_manage accepts server id number class).0.sessions)
      (answers : (server server' : Server) (c : XdmcpConnection) (number : ℕ) (a : Authorization)
          (id : ℕ)
        → P server.sessions
        → Added inet xdm own_hostname server server' c number a id
        → P server'.sessions)
      (times_out : (server : Server) (id : ℕ)
        → P server.sessions
        → P (session_timeout_cb server id).sessions) where
    Answered_keeps :
        (server server' : Server) (packet : XdmcpPacket) (connection : Option XdmcpConnection)
        (number : ℕ) (name : Str) (auth : XdmcpData) (names : List Str)
        → P server.sessions
        → Answered inet xdm own_hostname server server' packet connection number
            (check_authentication xdm server.key name auth names)
        → P server'.sessions
    Answered_keeps server server' packet connection number name auth names t (inl (e, _, _, _)) =
        subst (λ (s : Server). P s.sessions) (sym e) t
    Answered_keeps server server' packet connection number name auth names t
          (inr (c, a, id, _, _, added, _)) =
        answers server server' c number a id t added

    same_server :
        {B : Type 0} (server server' : Server) (b b' : B)
        → ◌≡◌ {A = Option (Server × B)} (some (server, b)) (some (server', b'))
        → P server.sessions
        → P server'.sessions
    same_server server server' b b' h t =
        let e : server ≡ server' = cc in subst (λ (s : Server). P s.sessions) e t

    handle_packet_keeps :
        (accepts : Accepts) (family : ℕ) (random : List ℕ) (server server' : Server)
        (address : SocketAddress inet) (p : XdmcpPacket)
        (sent : List (SocketAddress inet × XdmcpPacket))
        → P server.sessions
        → handle_packet inet xdm own_hostname sort accepts family random server address p
          ≡ some (server', sent)
        → P server'.sessions
    unfolding handle_packet
    handle_packet_keeps accepts family random server server' address
          (request number connections name auth names id) sent t h =
        let chosen = choose_connection inet sort connections address.host in
        elim (Option-cases
          (handle_request inet xdm own_hostname server chosen number name auth names random)) [
            | inl e ↦ let bad = rw (e, handle_packet) at h in cc
            | inr ((s1, p1), e) ↦
                let h1 = rw (e, handle_packet) at h in
                same_server s1 server' _ sent h1 (
                  Answered_keeps server s1 p1 chosen number name auth names t (
                    handle_request-Answered inet xdm own_hostname server s1 chosen number name auth
                      names random p1 e))
          ]
    handle_packet_keeps accepts family random server server' address (manage id number class) sent t
          h =
        same_server _ server' _ sent h (manages accepts server id number class t)
    handle_packet_keeps accepts family random server server' address _ sent t h =
        same_server server server' _ sent h t

    read_cb_keeps :
        (accepts : Accepts) (family : ℕ) (random : List ℕ) (server server' : Server)
        (address : SocketAddress inet) (octets : List ℕ) (sent : List (SocketAddress inet × List ℕ))
        → P server.sessions
        → read_cb inet xdm own_hostname sort accepts family random server address octets
          ≡ some (server', sent)
        → P server'.sessions
    unfolding read_cb
    read_cb_keeps accepts family random server server' address octets sent t h =
        elim (Option-cases (xdmcp_packet_decode octets)) [
          | inl e ↦ let h1 = rw (e, read_cb) at h in same_server server server' _ sent h1 t
          | inr (p, e) ↦
              let h1 = rw (e, read_cb) at h in
              elim (Option-cases
                (handle_packet inet xdm own_hostname sort accepts family random server address p)) [
                  | inl e1 ↦ let bad = rw e1 at h1 in cc
                  | inr ((s1, ps), e1) ↦
                      let h2 = rw e1 at h1 in
                      same_server s1 server' _ sent h2
                        (handle_packet_keeps accepts family random server s1 address p ps t e1)
                ]
        ]

    step_keeps :
        (e : Event) (server server' : Server)
        → P server.sessions
        → step server e ≡ some server'
        → P server'.sessions
    unfolding step
    step_keeps (received accepts family random address octets) server server' t h =
        elim (Option-cases
          (read_cb inet xdm own_hostname sort accepts family random server address octets)) [
            | inl e ↦ let bad = rw (e, step) at h in cc
            | inr ((s1, sent), e) ↦
                let h1 = rw (e, step) at h in
                let same : s1 ≡ server' = cc in
                subst (λ (s : Server). P s.sessions) same
                  (read_cb_keeps accepts family random server s1 address octets sent t e)
          ]
    step_keeps (timed_out id) server server' t h =
        let same : session_timeout_cb server id ≡ server' = cc in
        subst (λ (s : Server). P s.sessions) same (times_out server id t)

    pub run_keeps :
        (es : List Event) (server server' : Server)
        → P server.sessions
        → run server es ≡ some server'
        → P server'.sessions
    unfolding run
    run_keeps [] server server' t h =
        let same : server ≡ server' = cc in subst (λ (s : Server). P s.sessions) same t
    run_keeps (e ∷ es) server server' t h =
        let (s1, one, rest) = >>=-eq-some (step server e) (λ s. run s es) h in
        run_keeps es s1 server' (step_keeps e server s1 t one) rest

  -- Whatever datagrams arrive, whichever timers fire and whatever the display manager answers, in any
  -- order: if the ids in the table are distinct 16-bit numbers and no started session has a timer,
  -- then that is still so.
  pub run-IsTable :
      (es : List Event) (server server' : Server)
      → IsTable server.sessions
      → run server es ≡ some server'
      → IsTable server'.sessions
  run-IsTable =
      run_keeps IsTable (λ accepts server. handle_manage-IsTable accepts server)
        (Added-IsTable inet xdm own_hostname) timeout-IsTable
