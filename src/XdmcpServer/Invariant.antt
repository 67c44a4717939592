-- ===== src/XdmcpServer/Invariant.antt =====
-- The session table stays well-formed under every packet and every timeout (src/xdmcp-server.c).
use lightdm.Base.{
  >>=-eq-some, if-either, ℕ, ◌%◌, ◌<◌, ◌≡◌, refl, subst, ◌⊎◌, inl, inr, Bool, true, false, List,
  ◌∷◌, Option, none, some, Bool-cases, Option-cases,
}
use lightdm.Xdmcp.Packet.{Str, XdmcpData, XdmcpConnection, XdmcpPacket, accept, decline}
use lightdm.XdmcpServer.State.{
  InetAddresses, XdmAuth, XdmcpSession, XdmcpServer, find, get_session, pick_id,
}
use lightdm.XdmcpServer.Address.{connection_to_address}
use lightdm.XdmcpServer.Auth.{Checked, check_authentication}
use lightdm.XdmcpServer.Handlers.{
  Authorization, authorize, add_session, handle_request, new_session, authority_for, text_or_empty,
  final_status,
}
use lightdm.XdmcpServer.Dispatch.{start_managed, handle_manage}
use lightdm.XdmcpServer.Sessions.{
  IsSession, IsTable, find-IsSession, replace-IsTable, pick_id-fresh,
}

module _ {I : Type 0} (accepts : XdmcpSession I → Bool) (server : XdmcpServer I) where
  start_managed-IsTable :
      (s : XdmcpSession I) (id number : ℕ)
      → IsSession s
      → IsTable server.sessions
      → IsTable (start_managed accepts server s id number).0.sessions
  unfolding start_managed
  start_managed-IsTable s id number v t = elim (Bool-cases (accepts s)) [
    | inl yes' ↦ rw yes' (
        replace-IsTable (record s { started = true; timer = false }) server.sessions
          (v.0, λ _. refl) t)
    | inr no' ↦ rw no' (replace-IsTable s server.sessions v t)
  ]

  pub handle_manage-IsTable :
      (id number : ℕ) (class : Str)
      → IsTable server.sessions
      → IsTable (handle_manage accepts server id number class).0.sessions
  unfolding handle_manage get_session
  handle_manage-IsTable id number class t =
      elim (Option-cases (find (id % 65536) server.sessions)) [
        | inl e ↦ rw (e, handle_manage) t
        | inr (s, e) ↦
            rw (e, handle_manage)
              (if-either {A = XdmcpServer I × List XdmcpPacket}
                (λ (r : XdmcpServer I × List XdmcpPacket). IsTable r.0.sessions) s.started t
                (start_managed-IsTable (record s { display_class = class }) id number
                  (find-IsSession (id % 65536) server.sessions s t e) t))
      ]

module _ (inet : InetAddresses) (xdm : XdmAuth) (own_hostname : Str) where
  open inet use {InetAddress}

  -- What `add_session` does when it returns.
  abbrev pub Added :
      XdmcpServer InetAddress
      → XdmcpServer InetAddress
      → XdmcpConnection
      → ℕ
      → Authorization
      → ℕ
      → Type 0
  Added server server' c number a id =
      (address : InetAddress) × (connection_to_address inet c ≡ some address)
      × (id < 65536)
      × (find id server.sessions ≡ none)
      × (server' ≡ record server {
        sessions =
            new_session id address (authority_for inet xdm own_hostname address c number a) number
            ∷ server.sessions;
      })

  pub add_session-Added :
      (server server' : XdmcpServer InetAddress) (c : XdmcpConnection) (number : ℕ)
      (a : Authorization) (random : List ℕ) (id : ℕ)
      → add_session inet xdm own_hostname server c number a random ≡ some (server', id)
      → Added server server' c number a id
  unfolding add_session
  add_session-Added server server' c number a random id h =
      let (i, picked, h1) = >>=-eq-some (pick_id random server.sessions) _ h in
      let (address, good, h2) = >>=-eq-some (connection_to_address inet c) _ h1 in
      let (small, fresh) = pick_id-fresh random server.sessions i picked in
      let same : i ≡ id = cc in (address, good, rw (← same) small, rw (← same) fresh, cc)

  pub Added-IsTable :
      (server server' : XdmcpServer InetAddress) (c : XdmcpConnection) (number : ℕ)
      (a : Authorization) (id : ℕ)
      → IsTable server.sessions
      → Added server server' c number a id
      → IsTable server'.sessions
  Added-IsTable server server' c number a id t (address, good, small, fresh, e) =
      rw e ((small, λ bad. cc), fresh, t)

  -- An answer to a Request is either a Decline that leaves the server as it was, or an Accept of a
  -- session that was added, for a connection and an authentication that passed the checks.
  abbrev pub Answered :
      XdmcpServer InetAddress
      → XdmcpServer InetAddress
      → XdmcpPacket
      → Option XdmcpConnection
      → ℕ
      → Checked
      → Type 0
  Answered server server' packet connection number checked =
      ((server' ≡ server)
        × (status : Str) × (final_status checked.decline_status connection ≡ some status)
        × (packet
            ≡ decline status (text_or_empty checked.authentication_name)
                checked.authentication_data))
      ⊎ ((c : XdmcpConnection) × (a : Authorization) × (id : ℕ) × (connection ≡ some c)
          × (checked.decline_status ≡ none)
          × Added server server' c number a id
          × (packet
              ≡ accept id (text_or_empty checked.authentication_name) checked.authentication_data
                  a.name a.sent))

  no_status :
      (status : Option Str) (connection : Option XdmcpConnection)
      → final_status status connection ≡ none
      → status ≡ none
  no_status none connection h = refl
  no_status (some status) connection h = cc

  pub handle_request-Answered :
      (server server' : XdmcpServer InetAddress) (connection : Option XdmcpConnection) (number : ℕ)
      (name : Str) (auth : XdmcpData) (names : List Str) (random : List ℕ) (packet : XdmcpPacket)
      → handle_request inet xdm own_hostname server connection number name auth names random
        ≡ some (server', packet)
      → Answered server server' packet connection number
          (check_authentication xdm server.key name auth names)
  unfolding handle_request
  handle_request-Answered server server' connection number name auth names random packet h =
      let checked = check_authentication xdm server.key name auth names in
      elim (Option-cases (final_status checked.decline_status connection)) [
        | inl e ↦
            let h1 = rw (e, handle_request) at h in
            let (c, chosen, h2) = >>=-eq-some connection _ h1 in
            let ((a, rest), given, h3) =
              >>=-eq-some (authorize xdm server.key checked.rho random) _ h2 in
            let ((server1, id), added, h4) =
              >>=-eq-some (add_session inet xdm own_hostname server c number a rest) _ h3 in
            let same : server1 ≡ server' = cc in
            inr (
              c,
              a,
              id,
              chosen,
              no_status checked.decline_status connection e,
              subst (λ z. Added server z c number a id) same
                  (add_session-Added server server1 c number a rest id added),
              cc,
            )
        | inr (status, e) ↦ let h1 = rw (e, handle_request) at h in inl ((cc), status, e, (cc))
      ]
