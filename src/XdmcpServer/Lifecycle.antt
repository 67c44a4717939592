-- ===== src/XdmcpServer/Lifecycle.antt =====
-- The life of a session of src/xdmcp-server.c, from its Request on.
use lightdm.Base.{
  append-nil, ◌==◌, if◌then◌else◌, if-true, if-false, ◌∙◌, ℕ, ◌%◌, ◌<◌, ◌≡◌, refl, ap, subst, sym,
  inl, inr, Bool, true, false, List, [], ◌∷◌, Option, some, ==_refl, arith,
}
use lightdm.Xdmcp.Packet.{Str, XdmcpData, XdmcpConnection, accept, refuse}
use lightdm.XdmcpServer.State.{
  InetAddresses, XdmAuth, XdmcpSession, XdmcpServer, find, remove, replace, get_session,
  session_timeout_cb,
}
use lightdm.XdmcpServer.Handlers.{handle_request, new_session, authority_for}
use lightdm.XdmcpServer.Dispatch.{start_managed, handle_manage}
use lightdm.XdmcpServer.Invariant.{handle_request-Answered}

module _ {I : Type 0} (ss : List (XdmcpSession I)) (s : XdmcpSession I) where
  pub find-cons_self : find s.id (s ∷ ss) ≡ some s
  unfolding find
  find-cons_self = rw (==_refl s.id)

  remove-cons_self : remove s.id (s ∷ ss) ≡ ss
  unfolding remove
  remove-cons_self = rw (==_refl s.id)

  replace-cons_self : (t : XdmcpSession I) → t.id ≡ s.id → replace t (s ∷ ss) ≡ t ∷ ss
  unfolding replace
  replace-cons_self t e = rw (e, ==_refl s.id)

module _ {I : Type 0} (server : XdmcpServer I) (s : XdmcpSession I) where
  abbrev pub added : XdmcpServer I
  added = record server { sessions = s ∷ server.sessions }

  timeout_new : s.timer ≡ true → session_timeout_cb added s.id ≡ server
  unfolding session_timeout_cb
  timeout_new on =
      rw (find-cons_self server.sessions s, session_timeout_cb)
        (if-true s.timer _ _ on
          ∙ ap (λ ss. record server { sessions = ss }) (remove-cons_self server.sessions s))

  abbrev pub managed_session : Str → XdmcpSession I
  managed_session class = record s { display_class = class; started = true; timer = false }

  abbrev pub with_managed : Str → XdmcpServer I
  with_managed class = record server { sessions = managed_session class ∷ server.sessions }

  get-added : s.id < 65536 → get_session added s.id ≡ some s
  unfolding get_session
  get-added small = rw (low s.id small) (find-cons_self server.sessions s)
    where
      low : (k : ℕ) → k < 65536 → k % 65536 ≡ k
      low k lt = omega arith

  pub manage_new :
      (accepts : XdmcpSession I → Bool) (number : ℕ) (class : Str)
      → s.id < 65536
      → s.started ≡ false
      → ((t : XdmcpSession I) → accepts t ≡ true)
      → handle_manage accepts added s.id number class
        ≡ (with_managed class, if s.display_number == number then [] else refuse s.id ∷ [])
  unfolding handle_manage start_managed
  manage_new accepts number class small off takes =
      rw
        (
          get-added small,
          handle_manage,
          takes (record s { display_class = class }),
          replace-cons_self server.sessions s (managed_session class) refl,
        )
        (if-false s.started _ _ off ∙ ap (λ ps. (with_managed class, ps)) (append-nil _))

module _ (inet : InetAddresses) (xdm : XdmAuth) (own_hostname : Str) where
  open inet use {InetAddress}

  -- The session of an Accept is in the server's table, under the id of the Accept, waiting to be
  -- managed on the display that was asked for.
  pub accepted :
      (server server' : XdmcpServer InetAddress) (connection : Option XdmcpConnection) (number : ℕ)
      (name : Str) (auth : XdmcpData) (names : List Str) (random : List ℕ) (id : ℕ) (n : Str)
      (d : XdmcpData) (z : Str) (zd : XdmcpData)
      → handle_request inet xdm own_hostname server connection number name auth names random
        ≡ some (server', accept id n d z zd)
      → (s : XdmcpSession InetAddress) × (server'
          ≡ record server { sessions = s ∷ server.sessions })
        × (s.id ≡ id)
        × (id < 65536)
        × (s.display_number ≡ number)
        × (s.started ≡ false)
        × (s.timer ≡ true)
  accepted server server' connection number name auth names random id n d z zd h =
      elim (handle_request-Answered inet xdm own_hostname server server' connection number name auth
        names random (accept id n d z zd) h) [
          | inl (_, _, _, e) ↦ absurd (cc)
          | inr (c, a, i, chosen, passed, (address, good, small, fresh, new), e) ↦
              let same : i ≡ id = cc in
              (
                new_session i address (authority_for inet xdm own_hostname address c number a)
                    number,
                new,
                same,
                rw (← same) small,
                refl,
                refl,
                refl,
              )
        ]

  -- A session that nobody manages in time leaves no trace: once its timer has run out, the server is
  -- as it was before the Request.
  pub timeout-request :
      (server server' : XdmcpServer InetAddress) (connection : Option XdmcpConnection) (number : ℕ)
      (name : Str) (auth : XdmcpData) (names : List Str) (random : List ℕ) (id : ℕ) (n : Str)
      (d : XdmcpData) (z : Str) (zd : XdmcpData)
      → handle_request inet xdm own_hostname server connection number name auth names random
        ≡ some (server', accept id n d z zd)
      → session_timeout_cb server' id ≡ server
  timeout-request server server' connection number name auth names random id n d z zd h =
      let (s, new, same, small, display, off, on) =
        accepted server server' connection number name auth names random id n d z zd h in
      subst (λ i. session_timeout_cb server' i ≡ server) same
        (subst (λ t. session_timeout_cb t s.id ≡ server) (sym new) (timeout_new server s on))
