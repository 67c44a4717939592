-- ===== src/Seat/StoppingCallbacks.antt =====
-- The handlers of src/seat.c keep a seat in time to say that it has stopped, where the calls from
-- inside the objects do.
use lightdm.Base.{
  ℕ, Bool, true, false, List, [], ◌∷◌, Option, none, some, not, ◌||◌, ◌&&◌, if◌then◌else◌, ◌≡◌,
  refl,
}
use lightdm.Session.Authentication.{Str}
use lightdm.Seat.State.{
  Seat, SeatAction, Answers, Environment, SeatSession, Call, session_stopped, server_stopped,
  server_ready, starts_session, Pointer, Act, ◌>>=◌, gets,
}
use lightdm.Seat.Objects.{modify, put_out, ask}
use lightdm.Seat.Create.{run_script}
use lightdm.Seat.Stop.{is_done, check_stopped}
use lightdm.Seat.Switch.{run_optional_script}
use lightdm.Seat.Callbacks.{
  forget_session, forget_server, greeter_or_stop, session_authentication_complete_cb,
  switch_to_existing, show_on_new_server, show_greeter_on_new_server, ask_greeter,
  switch_authentication_complete_cb, after_session, stop_unused_server, go_on_without,
  session_stopped_cb, stop_session_of, stop_sessions_of, replace_active, go_on_without_server,
  display_server_stopped_cb, display_server_ready_cb, handle,
}
use lightdm.Seat.Keeps.{
  Leads, Keeps, Ends, keeps_rules, Keeps-modify, Keeps-Leads, Leads-Keeps, Leads->>=, Keeps->>=,
  Keeps-gets, Keeps-if, Keeps-pure,
}
use lightdm.Seat.Stopping.{
  times_stopped, InTime, Late, in_time_rules, Leads-check, Keeps-update_session,
  Keeps-update_server,
}
use lightdm.Seat.StoppingObjects.{Keeps-unlock, Keeps-optional_script}
use lightdm.Seat.StoppingSwitch.{
  object_rules, Keeps-session_stop, Keeps-server_stop, Keeps-seat_stop, Keeps-set_active,
  Keeps-start_server, Keeps-reset, Keeps-failed, Keeps-start_session, Keeps-run_session,
  Keeps-run_or_start, Keeps-to_greeter,
}

-- A seat that is late, where `b` tells whether the check comes next: if it does not, the seat is not
-- stopping.
record LateAt (b : Bool) (seat : Seat) : Type 0 where
  late : Late seat
  flag : (b || not seat.stopping) ≡ true

-- Once the first action has returned, the second goes on from what it has read.
pub Leads-read :
    {A : Type 0} {P R : Seat → Type 0} (f : Seat → Act A)
    → ((seat : Seat) → P seat → Ends R (f seat seat))
    → Leads P R (gets (λ seat. seat) >>= f)
unfolding ◌>>=◌ gets
Leads-read f h = record { leads = h }

late_put : (b : Bool) (action : SeatAction) → Keeps (LateAt b) (put_out action)
unfolding put_out modify times_stopped
late_put b action = record {
  keeps = λ seat h. record {
    late = record { count = h.late.count; sound = h.late.sound };
    flag = h.flag;
  };
}

late_ask :
    {A : Type 0} (b : Bool) (env : Environment) (f : Answers → A) → Keeps (LateAt b) (ask env f)
unfolding ask
late_ask b env f = record {
  keeps = λ seat h. record {
    late = record { count = h.late.count; sound = h.late.sound };
    flag = h.flag;
  };
}

late_run :
    (env : Environment) (b : Bool) (p : Pointer) (name : Str)
    → Keeps (LateAt b) (run_script env p name)
unfolding run_script
late_run env b p name = search (keeps_rules, late_put, late_ask) depth 12

late_script :
    (env : Environment) (b : Bool) (p : Pointer) (name : Option Str)
    → Keeps (LateAt b) (run_optional_script env p name)
unfolding run_optional_script
late_script env b p none = search keeps_rules
late_script env b p (some name) = late_run env b p name

late_or_not : (stopping rest : Bool) → (false || not stopping) ≡ true → (stopping && rest) ≡ false
late_or_not true rest h = cc
late_or_not false rest h = refl

-- A seat that is not stopping is in time.
Leads-time : (seat : Seat) → LateAt false seat → InTime seat
unfolding is_done
Leads-time seat h = record { late = h.late; exact = late_or_not seat.stopping _ h.flag }

-- The check, or what follows where the seat goes on.
Leads-branch :
    (b : Bool) (go_on : Act Unit)
    → Keeps InTime go_on
    → Leads (LateAt b) InTime (if b then check_stopped else go_on)
Leads-branch true go_on k = record { leads = λ seat h. Leads-check.leads seat h.late }
Leads-branch false go_on k = record { leads = λ seat h. k.keeps seat (Leads-time seat h) }

stopping_flag : (stopping : Bool) → (stopping || not stopping) ≡ true
stopping_flag true = refl
stopping_flag false = refl

stopping_or : (stopping other : Bool) → ((stopping || other) || not stopping) ≡ true
stopping_or true other = refl
stopping_or false true = refl
stopping_or false false = refl

forget_session_lem : (n : ℕ) → Leads InTime Late (modify (forget_session n))
unfolding modify
forget_session_lem n = record {
  leads = λ seat h. record { count = h.late.count; sound = h.late.sound };
}

forget_server_lem : (d : ℕ) → Leads InTime Late (modify (forget_server d))
unfolding modify
forget_server_lem d = record {
  leads = λ seat h. record { count = h.late.count; sound = h.late.sound };
}

no_replacement_lem :
    (seat : Seat) → InTime seat → InTime (record seat { replacement_greeter = none })
unfolding is_done
no_replacement_lem seat h = record {
  late = record { count = h.late.count; sound = h.late.sound };
  exact = h.exact;
}

module _ (env : Environment) (call : Call → Act Unit)
    (calls : (c : Call) → Keeps InTime (call c)) where
  Keeps-greeter_or_stop : Keeps InTime (greeter_or_stop env call)
  unfolding greeter_or_stop
  Keeps-greeter_or_stop =
      Keeps->>= _ _ (Keeps-to_greeter env call calls)
        λ switched. Keeps-if _ _ _ (Keeps-seat_stop env call calls) (Keeps-pure tt)

  pub Keeps-complete : (n : ℕ) → Keeps InTime (session_authentication_complete_cb env call n)
  unfolding session_authentication_complete_cb
  Keeps-complete n =
      search
        (
          in_time_rules,
          Keeps-run_session env call calls,
          Keeps-set_active env call calls,
          Keeps-session_stop env call calls,
          Keeps-failed env call calls,
        )
        depth 16

  Keeps-existing : (n other : ℕ) → Keeps InTime (switch_to_existing env call n other)
  unfolding switch_to_existing
  Keeps-existing n other =
      search
        (
          in_time_rules,
          Keeps-unlock,
          Keeps-set_active env call calls,
          Keeps-session_stop env call calls,
        )
        depth 16

  Keeps-new_server : (n : ℕ) → Keeps InTime (show_on_new_server env call n)
  unfolding show_on_new_server
  Keeps-new_server n = search (object_rules, Keeps-start_server env call calls) depth 20

  Keeps-greeter_server : (p : Pointer) → Keeps InTime (show_greeter_on_new_server env call p)
  unfolding show_greeter_on_new_server
  Keeps-greeter_server p = search (object_rules, Keeps-start_server env call calls) depth 20

  Keeps-ask_greeter : (n : ℕ) → Keeps InTime (ask_greeter env call n)
  unfolding ask_greeter
  Keeps-ask_greeter n =
      search
        (
          object_rules,
          Keeps-session_stop env call calls,
          Keeps-greeter_server,
          Keeps-reset env call calls,
        )
        depth 24

  pub Keeps-switch_complete : (n : ℕ) → Keeps InTime (switch_authentication_complete_cb env call n)
  unfolding switch_authentication_complete_cb
  Keeps-switch_complete n =
      search (in_time_rules, Keeps-new_server, Keeps-existing, Keeps-ask_greeter) depth 16

  Keeps-after :
      (n : ℕ) (s : SeatSession) (p : Pointer) → Keeps InTime (after_session env call n s p)
  unfolding after_session
  Keeps-after n s p =
      search
        (
          object_rules,
          Keeps-run_or_start env call calls,
          Keeps-seat_stop,
          Keeps-greeter_or_stop,
          Keeps-modify,
          no_replacement_lem,
        )
        depth 24

  Keeps-stop_unused : (p : Pointer) → Keeps InTime (stop_unused_server env call p)
  unfolding stop_unused_server
  Keeps-stop_unused p = search (in_time_rules, Keeps-server_stop env call calls) depth 16

  Keeps-go_on : (n : ℕ) → Keeps InTime (go_on_without env call n)
  unfolding go_on_without
  Keeps-go_on n = search (in_time_rules, Keeps-after, Keeps-stop_unused) depth 16

  Keeps-session_stopped : (n : ℕ) → Keeps InTime (session_stopped_cb env call n)
  unfolding session_stopped_cb
  Keeps-session_stopped n = Keeps-Leads (
      Leads->>= _ _ (Leads-Keeps (Keeps-update_session n _)) λ _.
        Leads->>= _ _ (forget_session_lem n) λ _. Leads-read _ λ seat h.
          (Leads->>= _ _ (Leads-Keeps (late_script env seat.stopping _ _))
              (λ _. Leads-branch seat.stopping _ (Keeps-go_on n))).leads
            seat (record { late = h; flag = stopping_flag seat.stopping }))

  Keeps-stop_session_of : (d n : ℕ) → Keeps InTime (stop_session_of env call d n)
  unfolding stop_session_of
  Keeps-stop_session_of d n =
      search (in_time_rules, Keeps-session_stop env call calls, Keeps-seat_stop) depth 20

  Keeps-stop_sessions_of : (d : ℕ) (ns : List ℕ) → Keeps InTime (stop_sessions_of env call d ns)
  unfolding stop_sessions_of
  Keeps-stop_sessions_of d [] = search in_time_rules
  Keeps-stop_sessions_of d (n ∷ ns) =
      Keeps->>= _ _ (Keeps-stop_session_of d n) (λ _. Keeps-stop_sessions_of d ns)

  Keeps-replace : (d : ℕ) → Keeps InTime (replace_active env call d)
  unfolding replace_active
  Keeps-replace d = search (in_time_rules, Keeps-greeter_or_stop) depth 16

  Keeps-go_on_server : (d : ℕ) → Keeps InTime (go_on_without_server env call d)
  unfolding go_on_without_server
  Keeps-go_on_server d = search (in_time_rules, Keeps-stop_sessions_of, Keeps-replace) depth 16

  Keeps-server_stopped : (d : ℕ) → Keeps InTime (display_server_stopped_cb env call d)
  unfolding display_server_stopped_cb
  Keeps-server_stopped d = Keeps->>= _ _ (Keeps-gets _) λ script.
      Keeps->>= _ _ (Keeps-optional_script env none script) λ _.
        Keeps->>= _ _ (Keeps-update_server d _) λ _. Keeps-Leads (
          Leads->>= _ _ (forget_server_lem d) λ _. Leads-read _ λ seat h.
            (Leads-branch (seat.stopping || not seat.started) _ (Keeps-go_on_server d)).leads seat
              (record { late = h; flag = stopping_or seat.stopping _ }))

  Keeps-server_ready : (d : ℕ) → Keeps InTime (display_server_ready_cb env call d)
  unfolding display_server_ready_cb
  Keeps-server_ready d =
      search (object_rules, Keeps-server_stop env call calls, Keeps-run_or_start env call calls)
        depth 24

  pub Keeps-handle : (c : Call) → Keeps InTime (handle env call c)
  unfolding handle
  Keeps-handle (session_stopped n) = Keeps-session_stopped n
  Keeps-handle (server_stopped d) = Keeps-server_stopped d
  Keeps-handle (server_ready d) = Keeps-server_ready d
  Keeps-handle (starts_session p) = Keeps-start_session env call calls p
