-- ===== src/Seat/StoppingSwitch.antt =====
-- Stopping and switching in src/seat.c keep a seat in time to say that it has stopped, where the
-- calls from inside the objects do.
use lightdm.Base.{ℕ, Bool, true, false, List, [], ◌∷◌, Option, none, some, not, ◌||◌, ◌≡◌, refl}
use lightdm.Session.Authentication.{Str}
use lightdm.Seat.State.{
  Seat, Environment, Call, Pointer, ServerStart, start_fails, start_stops, start_waits, start_ready,
  Act,
}
use lightdm.Seat.Objects.{modify}
use lightdm.Seat.Stop.{
  is_done, emit_session_stopped, emit_server_stopped, emit_server_ready, session_stop,
  display_server_stop, tell_server, tell_session, stop_servers, stop_sessions, stop_all,
  seat_real_stop, seat_stop, react, display_server_start,
}
use lightdm.Seat.Switch.{
  set_session_to_activate, can_share_display_server, seat_set_externally_activated_session,
  emit_upstart_signal, leave_session, leave_others, seat_set_active_session, start_display_server,
  select_user, take_greeter, reset_and_switch, start_greeter_instead,
  switch_to_greeter_from_failed_session, start_session, activate_after_run, run_session_now,
  run_session, run_or_start, show_new_greeter, seat_switch_to_greeter,
  greeter_active_username_changed_cb,
}
use lightdm.Seat.Keeps.{
  Leads, Keeps, Keeps-modify, Keeps-Leads, Leads-Keeps, Leads->>=, Keeps->>=, Keeps-gets, Keeps-if,
  Keeps-pure,
}
use lightdm.Seat.Stopping.{
  InTime, Late, in_time_rules, Leads-check, Keeps-session_at, Keeps-server_at,
}
use lightdm.Seat.StoppingObjects.{
  Keeps-read_session, Keeps-set_display_server, Keeps-lock, Keeps-activate, Keeps-session_start,
  Keeps-session_run, Keeps-optional_script, Keeps-create_greeter, Keeps-create_server,
}

pub Keeps-to_activate : (p : Pointer) → Keeps InTime (set_session_to_activate p)
unfolding set_session_to_activate is_done
Keeps-to_activate p = Keeps-modify _ λ seat h. record {
  late = record { count = h.late.count; sound = h.late.sound };
  exact = h.exact;
}

set_active_lem :
    (n : ℕ) (seat : Seat) → InTime seat → InTime (record seat { active_session = some n })
unfolding is_done
set_active_lem n seat h = record {
  late = record { count = h.late.count; sound = h.late.sound };
  exact = h.exact;
}

set_next_lem : (p : Pointer) (seat : Seat) → InTime seat → InTime (record seat { next_session = p })
unfolding is_done
set_next_lem p seat h = record {
  late = record { count = h.late.count; sound = h.late.sound };
  exact = h.exact;
}

pub Keeps-externally : (n : ℕ) → Keeps InTime (seat_set_externally_activated_session n)
unfolding seat_set_externally_activated_session
Keeps-externally n = Keeps-modify _ (set_active_lem n)

pub Keeps-username_changed :
    (name : Option Str) → Keeps InTime (greeter_active_username_changed_cb name)
unfolding greeter_active_username_changed_cb
Keeps-username_changed name = search (in_time_rules, Keeps-modify, set_next_lem) depth 12

pub Keeps-can_share : (p : Pointer) → Keeps InTime (can_share_display_server p)
unfolding can_share_display_server
Keeps-can_share p = search in_time_rules depth 12

pub Keeps-upstart : (env : Environment) (name : Str) → Keeps InTime (emit_upstart_signal env name)
unfolding emit_upstart_signal
Keeps-upstart env name = search in_time_rules depth 12

pub Keeps-select_user : (p q : Pointer) → Keeps InTime (select_user p q)
unfolding select_user
Keeps-select_user p q = search (in_time_rules, Keeps-read_session) depth 12

pub Keeps-take_greeter : (env : Environment) (p : Pointer) → Keeps InTime (take_greeter env p)
unfolding take_greeter
Keeps-take_greeter env none = Keeps-create_greeter env
Keeps-take_greeter env (some g) = search in_time_rules depth 12

pub ruleset object_rules = (
  in_time_rules, Keeps-read_session, Keeps-set_display_server, Keeps-lock, Keeps-activate,
  Keeps-session_start, Keeps-session_run, Keeps-optional_script, Keeps-create_greeter,
  Keeps-create_server, Keeps-to_activate, Keeps-can_share, Keeps-upstart, Keeps-select_user,
  Keeps-take_greeter,
)

begin_lem : (stopped : Bool) → (not stopped || true) ≡ true
begin_lem true = refl
begin_lem false = refl

module _ (env : Environment) (call : Call → Act Unit)
    (calls : (c : Call) → Keeps InTime (call c)) where
  pub Keeps-emit_session_stopped : (n : ℕ) → Keeps InTime (emit_session_stopped env call n)
  unfolding emit_session_stopped
  Keeps-emit_session_stopped n = search (in_time_rules, calls) depth 12

  pub Keeps-emit_server_stopped : (d : ℕ) → Keeps InTime (emit_server_stopped env call d)
  unfolding emit_server_stopped
  Keeps-emit_server_stopped d = search (in_time_rules, calls) depth 12

  pub Keeps-emit_server_ready : (d : ℕ) → Keeps InTime (emit_server_ready env call d)
  unfolding emit_server_ready
  Keeps-emit_server_ready d = search (in_time_rules, calls) depth 12

  pub Keeps-session_stop : (n : ℕ) → Keeps InTime (session_stop env call n)
  unfolding session_stop
  Keeps-session_stop n = search (in_time_rules, Keeps-emit_session_stopped) depth 16

  pub Keeps-server_stop : (p : Pointer) → Keeps InTime (display_server_stop env call p)
  unfolding display_server_stop
  Keeps-server_stop p = search (in_time_rules, Keeps-emit_server_stopped) depth 16

  Keeps-tell_server : (d : ℕ) → Keeps InTime (tell_server env call d)
  unfolding tell_server
  Keeps-tell_server d = search (in_time_rules, Keeps-server_stop) depth 12

  Keeps-tell_session : (n : ℕ) → Keeps InTime (tell_session env call n)
  unfolding tell_session
  Keeps-tell_session n = search (in_time_rules, Keeps-session_stop) depth 12

  Keeps-stop_servers : (ds : List ℕ) → Keeps InTime (stop_servers env call ds)
  unfolding stop_servers
  Keeps-stop_servers [] = Keeps-pure tt
  Keeps-stop_servers (d ∷ ds) = Keeps->>= _ _ (Keeps-tell_server d) (λ _. Keeps-stop_servers ds)

  Keeps-stop_sessions : (ns : List ℕ) → Keeps InTime (stop_sessions env call ns)
  unfolding stop_sessions
  Keeps-stop_sessions [] = Keeps-pure tt
  Keeps-stop_sessions (n ∷ ns) = Keeps->>= _ _ (Keeps-tell_session n) (λ _. Keeps-stop_sessions ns)

  Keeps-stop_all : Keeps InTime (stop_all env call)
  unfolding stop_all
  Keeps-stop_all = search (in_time_rules, Keeps-stop_servers, Keeps-stop_sessions) depth 16

  Leads-real_stop : Leads Late InTime (seat_real_stop env call)
  unfolding seat_real_stop
  Leads-real_stop =
      Leads->>= _ _ Leads-check (λ _. Leads-Keeps (search (in_time_rules, Keeps-stop_all) depth 12))

  -- Once the flag is set the seat need not be in time: `seat_real_stop` checks at once.
  Leads-begin_stop : Leads InTime Late (modify (λ seat. record seat { stopping = true }))
  unfolding modify
  Leads-begin_stop = record {
    leads = λ seat h. record { count = h.late.count; sound = begin_lem seat.stopped };
  }

  pub Keeps-seat_stop : Keeps InTime (seat_stop env call)
  unfolding seat_stop
  Keeps-seat_stop = Keeps->>= _ _ (Keeps-gets _) λ stopping.
      Keeps-if _ _ _ (Keeps-Leads (Leads->>= _ _ Leads-begin_stop (λ _. Leads-real_stop)))
        (Keeps-pure tt)

  Keeps-react : (d : ℕ) (start : ServerStart) → Keeps InTime (react env call d start)
  Keeps-react d start_fails = search in_time_rules
  Keeps-react d start_stops = search (in_time_rules, Keeps-emit_server_stopped) depth 12
  Keeps-react d start_waits = search in_time_rules
  Keeps-react d start_ready = search (in_time_rules, Keeps-emit_server_ready) depth 12

  pub Keeps-server_start : (p : Pointer) → Keeps InTime (display_server_start env call p)
  unfolding display_server_start
  Keeps-server_start p = search (in_time_rules, Keeps-react) depth 12

  Keeps-leave : (n : ℕ) → Keeps InTime (leave_session env call n)
  unfolding leave_session
  Keeps-leave n = search (in_time_rules, Keeps-session_stop) depth 16

  Keeps-leave_others : (n : ℕ) (ns : List ℕ) → Keeps InTime (leave_others env call n ns)
  unfolding leave_others
  Keeps-leave_others n [] = search in_time_rules
  Keeps-leave_others n (m ∷ ms) = Keeps->>= _ _ (Keeps-session_at m) λ s.
      Keeps->>= _ _ (Keeps-if _ _ _ (Keeps-leave m) (Keeps-pure tt)) (λ _. Keeps-leave_others n ms)

  pub Keeps-set_active : (n : ℕ) → Keeps InTime (seat_set_active_session env call n)
  unfolding seat_set_active_session
  Keeps-set_active n =
      search (object_rules, Keeps-leave_others, Keeps-modify, set_active_lem) depth 24

  pub Keeps-start_server : (p : Pointer) → Keeps InTime (start_display_server env call p)
  unfolding start_display_server
  Keeps-start_server p = search (in_time_rules, Keeps-server_start, calls) depth 16

  pub Keeps-reset : (g : ℕ) → Keeps InTime (reset_and_switch env call g)
  unfolding reset_and_switch
  Keeps-reset g = search (in_time_rules, Keeps-set_active) depth 12

  Keeps-greeter_instead :
      (session greeter : Pointer) → Keeps InTime (start_greeter_instead env call session greeter)
  unfolding start_greeter_instead
  Keeps-greeter_instead session greeter =
      search (object_rules, Keeps-start_server, Keeps-seat_stop, calls) depth 24

  pub Keeps-failed : (p : Pointer) → Keeps InTime (switch_to_greeter_from_failed_session env call p)
  unfolding switch_to_greeter_from_failed_session
  Keeps-failed p =
      search (object_rules, Keeps-greeter_instead, Keeps-reset, Keeps-session_stop) depth 24

  pub Keeps-start_session : (p : Pointer) → Keeps InTime (start_session env call p)
  unfolding start_session
  Keeps-start_session p = search (object_rules, Keeps-server_stop, Keeps-failed) depth 20

  Keeps-after_run : (n : ℕ) → Keeps InTime (activate_after_run env call n)
  unfolding activate_after_run
  Keeps-after_run n = search (object_rules, Keeps-set_active) depth 20

  Keeps-run_now : (n : ℕ) → Keeps InTime (run_session_now env call n)
  unfolding run_session_now
  Keeps-run_now n = search (object_rules, Keeps-after_run) depth 20

  pub Keeps-run_session : (n : ℕ) → Keeps InTime (run_session env call n)
  unfolding run_session
  Keeps-run_session n = search (object_rules, Keeps-run_now, Keeps-failed) depth 20

  pub Keeps-run_or_start : (n : ℕ) → Keeps InTime (run_or_start env call n)
  unfolding run_or_start
  Keeps-run_or_start n = search (in_time_rules, Keeps-run_session, Keeps-start_session) depth 20

  Keeps-new_greeter : (g : ℕ) → Keeps InTime (show_new_greeter env call g)
  unfolding show_new_greeter
  Keeps-new_greeter g = search (object_rules, Keeps-start_server) depth 20

  pub Keeps-to_greeter : Keeps InTime (seat_switch_to_greeter env call)
  unfolding seat_switch_to_greeter
  Keeps-to_greeter = search (object_rules, Keeps-new_greeter, Keeps-set_active) depth 20
