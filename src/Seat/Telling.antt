-- ===== src/Seat/Telling.antt =====
-- What a stopping seat tells to stop (src/seat.c): the calls return, and what was told is stopping.
use lightdm.Base.{
  ℕ, Bool, true, false, List, [], ◌∷◌, Option, none, some, not, ◌&&◌, ◌||◌, ◌==◌, if◌then◌else◌,
  ◌≡◌, refl, sym, ap, ◌∙◌, subst, if-known, ==_refl, if-true, if-either, arith,
}
use lightdm.Session.Authentication
use lightdm.Session.Authentication.{Str, Session, SessionOutput, session_get_is_authenticated}
use lightdm.Greeter.State.{Greeter, greeter_stop}
use lightdm.Seat.State.{
  Seat, Environment, SeatSession, DisplayServer, Call, session_stopped, server_stopped, Pointer,
  Act, ◌>>=◌, pure, gets, if_null,
}
use lightdm.Seat.Objects.{modify, set, update_session, update_server, session_at, server_at}
use lightdm.Seat.Stop.{
  check_stopped, emit_session_stopped, emit_server_stopped, session_stop, display_server_stop,
  tell_server, tell_session, stop_greeter, calls_class,
}
use lightdm.Seat.Create.{has, run_script}
use lightdm.Seat.Switch.{run_optional_script}
use lightdm.Seat.Callbacks.{
  remove, forget_session, forget_server, session_stopped_cb, display_server_stopped_cb,
  go_on_without, go_on_without_server,
}
use lightdm.Seat.Halting.{
  Below, Below-refl, Halts, HaltsIn, Stays, Done, told_session, told_server, Halts->>=, Halts-gets,
  Halts-session_at, HaltsIn-first, HaltsIn-second, Halts-update_session, Halts-update_server,
  Halts-check, halts_rules,
}

has-remove : (n m : ℕ) (ns : List ℕ) → has n (remove m ns) ≡ true → has n ns ≡ true
unfolding has remove
has-remove n m [] h = h
has-remove n m (k ∷ ks) h = ground (arith, has-remove n m ks)

forget_session_lem : (n : ℕ) → Halts (modify (forget_session n))
unfolding modify
forget_session_lem n = record {
  halts = λ seat e. record {
    flag = λ h. h;
    sessions = λ m h. has-remove m n seat.sessions h;
    servers = λ d h. h;
    session_told = λ m h. h;
    server_told = λ d h. h;
  };
}

forget_server_lem : (d : ℕ) → Halts (modify (forget_server d))
unfolding modify
forget_server_lem d = record {
  halts = λ seat e. record {
    flag = λ h. h;
    sessions = λ n h. h;
    servers = λ c h. has-remove c d seat.display_servers h;
    session_told = λ n h. h;
    server_told = λ c h. h;
  };
}

Halts-script :
    (env : Environment) (p : Pointer) (name : Option Str) → Halts (run_optional_script env p name)
unfolding run_optional_script run_script
Halts-script env p none = search halts_rules
Halts-script env p (some name) = search halts_rules depth 12

Halts-read :
    {A : Type 0} (f : Seat → Act A)
    → ((seat : Seat) → seat.stopping ≡ true → Done (Below seat) (f seat seat))
    → Halts (gets (λ seat. seat) >>= f)
unfolding ◌>>=◌ gets
Halts-read f h = record { halts = h }

Halts-then : (b : Bool) (go_on : Act Unit) → b ≡ true → Halts (if b then check_stopped else go_on)
Halts-then b go_on e = subst Halts (sym (if-true b check_stopped go_on e)) Halts-check

pub or_right : (a b : Bool) → b ≡ true → (a || b) ≡ true
or_right true b e = refl
or_right false b e = e

pub or_true : (a b : Bool) → a ≡ true → (a || b) ≡ true
or_true true b e = refl
or_true false b e = cc

module _ (env : Environment) (call : Call → Act Unit) where
  -- While the seat is stopping its handlers call nothing.
  pub Halts-session_stopped : (n : ℕ) → Halts (session_stopped_cb env call n)
  unfolding session_stopped_cb
  Halts-session_stopped n = Halts->>= _ _ (Halts-update_session n _ (λ s h. h)) λ _.
      Halts->>= _ _ (forget_session_lem n) λ _. Halts-read _ λ seat e.
        (Halts->>= _ _ (Halts-script env _ _)
            (λ _. Halts-then seat.stopping (go_on_without env call n) e)).halts
          seat e

  pub Halts-server_stopped : (d : ℕ) → Halts (display_server_stopped_cb env call d)
  unfolding display_server_stopped_cb
  Halts-server_stopped d = Halts->>= _ _ (Halts-gets _) λ script.
      Halts->>= _ _ (Halts-script env none script) λ _.
        Halts->>= _ _ (Halts-update_server d _ (λ s h. h)) λ _.
          Halts->>= _ _ (forget_server_lem d) λ _. Halts-read _ λ seat e.
            (Halts-then (seat.stopping || not seat.started) (go_on_without_server env call d)
                (or_true _ _ e)).halts
              seat e

session_stop-stopping :
    (session : Session) → (Authentication.session_stop session).0.stopping ≡ true
unfolding Authentication.session_stop
session_stop-stopping session =
    if-known (λ (p : Session × List SessionOutput). p.0.stopping ≡ true) session.stopping (λ e. e)
      λ _.
        if-either (λ (p : Session × List SessionOutput). p.0.stopping ≡ true)
          (session_get_is_authenticated session && not session.command_run) refl refl

with_greeter :
    (o : Option Greeter) (s : SeatSession)
    → (if_null o s (λ greeter. record s { greeter = some (greeter_stop greeter) })).session
      ≡ s.session
with_greeter none s = refl
with_greeter (some greeter) s = refl

stop_greeter-session :
    (outputs : List SessionOutput) (s : SeatSession) → (stop_greeter outputs s).session ≡ s.session
stop_greeter-session outputs s =
    if-either (λ (s' : SeatSession). s'.session ≡ s.session) (calls_class outputs)
      (with_greeter s.greeter s) refl

stops_lem :
    (session : Session) (s : SeatSession)
    → (let (session', outputs) = Authentication.session_stop session in
        stop_greeter outputs (record s { session = session' })).session.stopping
      ≡ true
stops_lem session s =
    let (session', outputs) = Authentication.session_stop session in
    ap (λ (x : Session). x.stopping)
      (stop_greeter-session outputs (record s { session = session' }))
    ∙ session_stop-stopping session

negated : (b : Bool) → not b ≡ false → b ≡ true
negated true e = refl
negated false e = cc

set_here :
    {A : Type 0} (P : A → Bool) (n : ℕ) (f : A → A) (objects : ℕ → A)
    → P (f (objects n)) ≡ true
    → P (set n f objects n) ≡ true
set_here P n f objects h = rw (if-true (n == n) (f (objects n)) (objects n) (==_refl n)) h

pub Stays-session : (n : ℕ) → Stays (λ seat. told_session seat n ≡ true)
Stays-session n = record { stays = λ seat later b h. b.session_told n h }

pub Stays-server : (d : ℕ) → Stays (λ seat. told_server seat d ≡ true)
Stays-server d = record { stays = λ seat later b h. b.server_told d h }

Tells-update_session :
    (n : ℕ) (f : SeatSession → SeatSession)
    → ((s : SeatSession) → (f s).session.stopping ≡ true)
    → HaltsIn (λ seat. told_session seat n ≡ true) (update_session n f)
unfolding update_session modify
Tells-update_session n f h = record {
  halts_in = λ seat e. (
    (Halts-update_session n f (λ s _. h s)).halts seat e,
    set_here (λ (s : SeatSession). s.session.stopping) n f seat.session_of (h _),
  );
}

Tells-update_server :
    (d : ℕ) (f : DisplayServer → DisplayServer)
    → ((s : DisplayServer) → (f s).stopping ≡ true)
    → HaltsIn (λ seat. told_server seat d ≡ true) (update_server d f)
unfolding update_server modify
Tells-update_server d f h = record {
  halts_in = λ seat e. (
    (Halts-update_server d f (λ s _. h s)).halts seat e,
    set_here (λ (s : DisplayServer). s.stopping) d f seat.server_of (h _),
  );
}

-- The calls from inside what is told to stop return.
pub record CallsHalt (call : Call → Act Unit) : Type 0 where
  pub sessions : (n : ℕ) → Halts (call (session_stopped n))
  pub servers : (d : ℕ) → Halts (call (server_stopped d))

module _ (env : Environment) (call : Call → Act Unit) (calls : CallsHalt call) where
  Halts-emit_session : (n : ℕ) → Halts (emit_session_stopped env call n)
  unfolding emit_session_stopped
  Halts-emit_session n = search (halts_rules, calls.sessions) depth 12

  Halts-emit_server : (d : ℕ) → Halts (emit_server_stopped env call d)
  unfolding emit_server_stopped
  Halts-emit_server d = search (halts_rules, calls.servers) depth 12

  Tells-session : (n : ℕ) → HaltsIn (λ seat. told_session seat n ≡ true) (session_stop env call n)
  unfolding session_stop
  Tells-session n = HaltsIn-second _ _ (Halts-session_at n) λ s.
      HaltsIn-first _ _ (Stays-session n) (Tells-update_session n _ (stops_lem s.session))
        (λ _. search (halts_rules, Halts-emit_session) depth 12)

  Tells-server_stop :
      (d : ℕ) → HaltsIn (λ seat. told_server seat d ≡ true) (display_server_stop env call (some d))
  unfolding display_server_stop ◌>>=◌ server_at pure
  Tells-server_stop d = record {
    halts_in = λ seat e.
        if-known
          (λ (act : Act Unit).
            Done (λ later. Below seat later × (told_server later d ≡ true)) (act seat))
          (seat.server_of d).stopping (λ stops. (Below-refl seat, stops))
          (λ going.
            (HaltsIn-first _ _ (Stays-server d) (Tells-update_server d _ (λ s. refl))
                (λ _. search (halts_rules, Halts-emit_server) depth 12)).halts_in
              seat e);
  }

  pub Tells-tell_session :
      (n : ℕ) → HaltsIn (λ seat. told_session seat n ≡ true) (tell_session env call n)
  unfolding tell_session ◌>>=◌ session_at gets pure
  Tells-tell_session n = record {
    halts_in = λ seat e.
        if-known
          (λ (act : Act Unit).
            Done (λ later. Below seat later × (told_session later n ≡ true)) (act seat))
          (not (seat.session_of n).session.stopping) (λ going. (Tells-session n).halts_in seat e)
          (λ stops. (Below-refl seat, negated _ stops));
  }

  pub Tells-tell_server :
      (d : ℕ) → HaltsIn (λ seat. told_server seat d ≡ true) (tell_server env call d)
  unfolding tell_server ◌>>=◌ server_at gets pure
  Tells-tell_server d = record {
    halts_in = λ seat e.
        if-known
          (λ (act : Act Unit).
            Done (λ later. Below seat later × (told_server later d ≡ true)) (act seat))
          (not (seat.server_of d).stopping) (λ going. (Tells-server_stop d).halts_in seat e)
          (λ stops. (Below-refl seat, negated _ stops));
  }
