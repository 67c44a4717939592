-- ===== src/XdmcpServer/Sessions.antt =====
-- The session table of src/xdmcp-server.c: what a well-formed one is, and how each change of it
-- keeps that.
use lightdm.Base.{
  subst, ℕ, ◌<◌, ◌≡◌, refl, inl, inr, true, false, List, [], ◌∷◌, none, some, ◌==◌, ==_iff, arith,
  Bool-cases, Option-cases,
}
use lightdm.XdmcpServer.State.{
  XdmcpSession, XdmcpServer, find, remove, replace, pick_id, session_timeout_cb,
}

module _ {I : Type 0} where
  -- A session's id is a guint16, and a started session has no timer.
  abbrev pub IsSession : XdmcpSession I → Type 0
  IsSession s = (s.id < 65536) × (s.started ≡ true → s.timer ≡ false)

  -- The ids are distinct.
  abbrev pub IsTable : List (XdmcpSession I) → Type 0
  IsTable [] = Unit
  IsTable (s ∷ ss) = IsSession s × (find s.id ss ≡ none) × IsTable ss

  pub find_id :
      (k : ℕ) (ss : List (XdmcpSession I)) (s : XdmcpSession I) → find k ss ≡ some s → s.id ≡ k
  unfolding find
  find_id k [] s h = cc
  find_id k (x ∷ ss) s h = ground (arith, find_id k ss s)

  pub find-IsSession :
      (k : ℕ) (ss : List (XdmcpSession I)) (s : XdmcpSession I)
      → IsTable ss
      → find k ss ≡ some s
      → IsSession s
  unfolding find
  find-IsSession k [] s t h = cc
  find-IsSession k (x ∷ ss) s t h = elim (Bool-cases (x.id == k)) [
    | inl hit ↦
        let found : some x ≡ some s = rw hit at h in
        let same : x ≡ s = cc in subst IsSession same t.0
    | inr miss ↦ find-IsSession k ss s t.2 (rw miss at h)
  ]

  pub find-replace-none :
      (k : ℕ) (t : XdmcpSession I) (ss : List (XdmcpSession I))
      → find k ss ≡ none
      → find k (replace t ss) ≡ none
  unfolding find replace
  find-replace-none k t [] h = refl
  find-replace-none k t (s ∷ ss) h = ground (arith, find-replace-none k t ss)

  pub replace-IsTable :
      (t : XdmcpSession I) (ss : List (XdmcpSession I))
      → IsSession t
      → IsTable ss
      → IsTable (replace t ss)
  unfolding replace
  replace-IsTable t [] v h = tt
  replace-IsTable t (s ∷ ss) v h = elim (Bool-cases (s.id == t.id)) [
    | inl hit ↦ rw hit (v, (rw ((==_iff s.id t.id).0 hit) at h.1), h.2)
    | inr miss ↦ rw miss (h.0, find-replace-none s.id t ss h.1, replace-IsTable t ss v h.2)
  ]

  pub find-remove-none :
      (k j : ℕ) (ss : List (XdmcpSession I)) → find k ss ≡ none → find k (remove j ss) ≡ none
  unfolding find remove
  find-remove-none k j [] h = refl
  find-remove-none k j (s ∷ ss) h = ground (arith, find-remove-none k j ss)

  pub remove-IsTable : (k : ℕ) (ss : List (XdmcpSession I)) → IsTable ss → IsTable (remove k ss)
  unfolding remove
  remove-IsTable k [] h = tt
  remove-IsTable k (s ∷ ss) h = elim (Bool-cases (s.id == k)) [
    | inl hit ↦ rw hit h.2
    | inr miss ↦ rw miss (h.0, find-remove-none s.id k ss h.1, remove-IsTable k ss h.2)
  ]

  pub pick_id-fresh :
      (random : List ℕ) (ss : List (XdmcpSession I)) (id : ℕ)
      → pick_id random ss ≡ some id
      → (id < 65536) × (find id ss ≡ none)
  unfolding pick_id
  pick_id-fresh [] ss id h = cc
  pick_id-fresh (n ∷ random) ss id h = ground (arith, pick_id-fresh random ss id)

  pub timeout-IsTable :
      (server : XdmcpServer I) (id : ℕ)
      → IsTable server.sessions
      → IsTable (session_timeout_cb server id).sessions
  unfolding session_timeout_cb
  timeout-IsTable server id h = elim (Option-cases (find id server.sessions)) [
    | inl e ↦ rw (e, session_timeout_cb) h
    | inr (s, e) ↦ elim (Bool-cases s.timer) [
      | inl on ↦ rw (e, session_timeout_cb, on) (remove-IsTable id server.sessions h)
      | inr off ↦ rw (e, session_timeout_cb, off) h
    ]
  ]

  -- A started session is never timed out.
  pub timeout_started :
      (server : XdmcpServer I) (id : ℕ) (s : XdmcpSession I)
      → IsTable server.sessions
      → find id server.sessions ≡ some s
      → s.started ≡ true
      → session_timeout_cb server id ≡ server
  unfolding session_timeout_cb
  timeout_started server id s t h on =
      rw (h, session_timeout_cb, (find-IsSession id server.sessions s t h).1 on) refl
