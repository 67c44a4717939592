-- ===== src/Seat/Shutdown.antt =====
-- A seat that is told to stop returns, and has told everything to stop (src/seat.c).
use lightdm.Base.{
  ℕ, suc, Bool, true, false, List, [], ◌∷◌, not, ◌&&◌, ◌||◌, ◌==◌, if◌then◌else◌, ◌≡◌, refl, subst,
  if-known, ==_refl, All, Bool-cases, inl, inr, ==_iff,
}
use lightdm.Seat.State.{Seat, Environment, Call, seat_stopped, Act, ◌>>=◌, pure, gets, when}
use lightdm.Seat.Objects.{modify}
use lightdm.Seat.Stop.{
  is_done, is_empty, stop_all, check_stopped, stop_servers, stop_sessions, seat_real_stop,
  seat_stop,
}
use lightdm.Seat.Create.{has}
use lightdm.Seat.Callbacks.{handle}
use lightdm.Seat.Run.{perform}
use lightdm.Seat.Halting.{
  HaltsIn, Done, Done-continue, Done-map, HaltsIn-both, HaltsIn-map, Halts-pure, told_session,
  told_server,
}
use lightdm.Seat.Telling.{
  CallsHalt, or_true, or_right, Stays-session, Stays-server, Tells-tell_session, Tells-tell_server,
  Halts-session_stopped, Halts-server_stopped,
}

-- A stopping seat all of whose sessions and display servers have been told to stop.
pub record IsTold (seat : Seat) : Type 0 where
  pub flag : seat.stopping ≡ true
  pub sessions : All (λ n. told_session seat n ≡ true) seat.sessions
  pub servers : All (λ d. told_server seat d ≡ true) seat.display_servers

-- What holds of whatever is in a list holds of all of it.
all_in : (P : ℕ → Type 0) (ns : List ℕ) → ((n : ℕ) → has n ns ≡ true → P n) → All P ns
unfolding has
all_in P [] h = tt
all_in P (n ∷ ns) h = (h n (or_true _ _ (==_refl n)), all_in P ns λ m e. h m (or_right _ _ e))

-- Whatever is in a list has been told.
abbrev pub AllTold : (Seat → ℕ → Bool) → List ℕ → Seat → Type 0
AllTold told ns seat = (n : ℕ) → has n ns ≡ true → told seat n ≡ true

told_cons :
    (told : ℕ → Bool) (m : ℕ) (ns : List ℕ)
    → told m ≡ true
    → ((n : ℕ) → has n ns ≡ true → told n ≡ true)
    → (n : ℕ) → has n (m ∷ ns) ≡ true
    → told n ≡ true
unfolding has
told_cons told m ns h rest n e = elim (Bool-cases (m == n)) [
  | inl same ↦ subst (λ k. told k ≡ true) ((==_iff m n).0 same) h
  | inr other ↦ rest n (subst (λ b. (b || has n ns) ≡ true) other e)
]

over_lem :
    (stopping stopped servers sessions : Bool)
    → (stopping && (not stopped && (servers && sessions))) ≡ true
    → (servers ≡ true) × (sessions ≡ true)
over_lem true false true true h = (refl, refl)
over_lem true false true false h = cc
over_lem true false false sessions h = cc
over_lem true true servers sessions h = cc
over_lem false stopped servers sessions h = cc

nothing_in : (n : ℕ) (ns : List ℕ) → is_empty ns ≡ true → has n ns ≡ true → ⊥
unfolding is_empty has
nothing_in n [] e h = cc
nothing_in n (m ∷ ms) e h = cc

not_both : (b : Bool) → not b ≡ false → b ≡ false → ⊥
not_both true h k = cc
not_both false h k = cc

module _ (env : Environment) (call : Call → Act Unit) (calls : CallsHalt call) where
  Tells-servers : (ds : List ℕ) → HaltsIn (AllTold told_server ds) (stop_servers env call ds)
  unfolding stop_servers has pure
  Tells-servers [] = record { halts_in = λ seat e. ((Halts-pure tt).halts seat e, λ n h. cc) }
  Tells-servers (d ∷ ds) =
      HaltsIn-map
        (HaltsIn-both _ _ (Stays-server d) (Tells-tell_server env call calls d)
          (λ _. Tells-servers ds))
        (λ seat (h, rest). told_cons (told_server seat) d ds h rest)

  Tells-sessions : (ns : List ℕ) → HaltsIn (AllTold told_session ns) (stop_sessions env call ns)
  unfolding stop_sessions has pure
  Tells-sessions [] = record { halts_in = λ seat e. ((Halts-pure tt).halts seat e, λ n h. cc) }
  Tells-sessions (n ∷ ns) =
      HaltsIn-map
        (HaltsIn-both _ _ (Stays-session n) (Tells-tell_session env call calls n)
          (λ _. Tells-sessions ns))
        (λ seat (h, rest). told_cons (told_session seat) n ns h rest)

  IsTold-all : (seat : Seat) → seat.stopping ≡ true → Done IsTold (stop_all env call seat)
  unfolding stop_all ◌>>=◌ gets
  IsTold-all seat e =
      Done-continue IsTold (stop_servers env call seat.display_servers seat) _
        ((Tells-servers seat.display_servers).halts_in seat e)
        λ _ middle (before, servers).
          Done-map (stop_sessions env call middle.sessions middle)
            ((Tells-sessions middle.sessions).halts_in middle (before.flag e))
            λ later (after, sessions). record {
              flag = after.flag (before.flag e);
              sessions = all_in _ later.sessions λ n h. sessions n (after.sessions n h);
              servers =
                  all_in _ later.display_servers
                    λ d h. after.server_told d (servers d (before.servers d (after.servers d h)));
            }

  -- The check finds nothing left, or everything is told.
  IsTold-after :
      (seat : Seat) (b : Bool)
      → is_done seat ≡ b
      → seat.stopping ≡ true
      → seat.stopped ≡ false
      → let next =
          if b then record seat { stopped = true; done = seat_stopped ∷ seat.done } else seat in
        Done IsTold (when (not next.stopped) (stop_all env call) next)
  unfolding pure is_done
  IsTold-after seat true e flag stopped = record {
    flag = flag;
    sessions =
        all_in _ seat.sessions λ n h. absurd (nothing_in n seat.sessions (over_lem _ _ _ _ e).1 h);
    servers =
        all_in _ seat.display_servers
          λ d h. absurd (nothing_in d seat.display_servers (over_lem _ _ _ _ e).0 h);
  }
  IsTold-after seat false e flag stopped =
      if-known (λ (act : Act Unit). Done IsTold (act seat)) (not seat.stopped)
        (λ going. IsTold-all seat flag) (λ k. absurd (not_both seat.stopped k stopped))

  IsTold-real :
      (seat : Seat)
      → seat.stopping ≡ true
      → seat.stopped ≡ false
      → Done IsTold (seat_real_stop env call seat)
  unfolding seat_real_stop check_stopped modify ◌>>=◌ gets
  IsTold-real seat flag stopped = IsTold-after seat (is_done seat) refl flag stopped

  IsTold-stop :
      (seat : Seat)
      → seat.stopping ≡ false
      → seat.stopped ≡ false
      → Done IsTold (seat_stop env call seat)
  unfolding seat_stop modify ◌>>=◌ gets
  IsTold-stop seat flag stopped =
      if-known (λ (act : Act Unit). Done IsTold (act seat)) (not seat.stopping)
        (λ going. IsTold-real (record seat { stopping = true }) refl stopped)
        (λ k. absurd (not_both seat.stopping k flag))

Calls-halt : (env : Environment) (depth : ℕ) → CallsHalt (perform env (suc depth))
unfolding perform handle
Calls-halt env depth = record {
  sessions = λ n. record { halts = (Halts-session_stopped env (perform env depth) n).halts };
  servers = λ d. record { halts = (Halts-server_stopped env (perform env depth) d).halts };
}

-- A seat that is told to stop for the first time returns, whatever the environment answers, with
-- calls nested at most one deep; it is stopping then, and so is every session and every display
-- server that it still has.
pub seat_stop_ends :
    (env : Environment) (depth : ℕ) (seat : Seat)
    → seat.stopping ≡ false
    → seat.stopped ≡ false
    → Done IsTold (seat_stop env (perform env (suc depth)) seat)
seat_stop_ends env depth seat flag stopped =
    IsTold-stop env (perform env (suc depth)) (Calls-halt env depth) seat flag stopped
