-- ===== src/Seat/StoppingRun.antt =====
-- After any history a seat has said at the right time that it has stopped (src/seat.c).
use lightdm.Base.{
  ℕ, zero, suc, Bool, true, false, List, [], ◌∷◌, Option, none, some, not, ◌&&◌, ◌||◌,
  if◌then◌else◌, ◌≡◌, refl, subst,
}
use lightdm.Session.Authentication.{Str}
use lightdm.Greeter.State.{Greeter, SessionType}
use lightdm.Seat.State.{
  Seat, Environment, DisplayServer, Handler, no_handler, autostart, switch, Call, Pointer, returned,
  Act,
}
use lightdm.Seat.Stop.{is_done, is_empty}
use lightdm.Seat.Requests.{
  start_on_new_server, take_over, start_chosen, configure_chosen, greeter_start_session_cb,
  seat_switch_to_user, seat_switch_to_guest, lock_with, lock_with_new_greeter, seat_lock,
  start_first, create_autologin_session, start_background, end_start, start_or_greeter,
  seat_real_start, seat_start,
}
use lightdm.Seat.Run.{
  perform, Event, starts, greeter_changes, has_result, child_exits, gets_ready, server_exits,
  greeter_creates, greeter_starts_session, names_user, to_greeter, to_user, to_guest, locks,
  activates, stops, ignore, complete, emit_complete, exit_child, step, run, new_seat,
}
use lightdm.Seat.Keeps.{Ends, Keeps, Keeps-modify, Keeps->>=, Keeps-pure}
use lightdm.Seat.Stopping.{
  times_stopped, InTime, in_time_rules, Keeps-update_session, Keeps-update_server,
}
use lightdm.Seat.StoppingObjects.{
  Keeps-unlock, Keeps-create_user, Keeps-create_guest, Keeps-create_greeter, Keeps-session_start,
  Keeps-greeter_creates,
}
use lightdm.Seat.StoppingSwitch.{
  object_rules, Keeps-emit_session_stopped, Keeps-emit_server_stopped, Keeps-emit_server_ready,
  Keeps-session_stop, Keeps-server_stop, Keeps-seat_stop, Keeps-set_active, Keeps-start_server,
  Keeps-reset, Keeps-to_greeter, Keeps-externally, Keeps-username_changed,
}
use lightdm.Seat.StoppingCallbacks.{Keeps-complete, Keeps-switch_complete, Keeps-handle}

replace_lem :
    (p : Pointer) (seat : Seat) → InTime seat → InTime (record seat { replacement_greeter = p })
unfolding is_done
replace_lem p seat h = record {
  late = record { count = h.late.count; sound = h.late.sound };
  exact = h.exact;
}

started_lem : (b : Bool) (seat : Seat) → InTime seat → InTime (record seat { started = b })
unfolding is_done
started_lem b seat h = record {
  late = record { count = h.late.count; sound = h.late.sound };
  exact = h.exact;
}

module _ (env : Environment) (call : Call → Act Unit)
    (calls : (c : Call) → Keeps InTime (call c)) where
  Keeps-on_new : (n : ℕ) → Keeps InTime (start_on_new_server env call n)
  unfolding start_on_new_server
  Keeps-on_new n = search (object_rules, Keeps-start_server env call calls) depth 16

  Keeps-take_over : (greeter : Greeter) (n g : ℕ) → Keeps InTime (take_over env call greeter n g)
  unfolding take_over
  Keeps-take_over greeter n g =
      search (object_rules, Keeps-on_new, Keeps-session_stop env call calls) depth 24

  Keeps-chosen : (greeter : Greeter) (n : ℕ) → Keeps InTime (start_chosen env call greeter n)
  unfolding start_chosen
  Keeps-chosen greeter n =
      search
        (
          object_rules,
          Keeps-on_new,
          Keeps-take_over,
          Keeps-unlock,
          Keeps-session_stop env call calls,
          Keeps-set_active env call calls,
        )
        depth 24

  Keeps-configure :
      (type : SessionType) (name : Option Str) (n : ℕ)
      → Keeps InTime (configure_chosen env call type name n)
  unfolding configure_chosen
  Keeps-configure type name n = search in_time_rules depth 24

  Keeps-start_cb :
      (greeter : Greeter) (type : SessionType) (name : Option Str) (taken : ℕ)
      → Keeps InTime (greeter_start_session_cb env call greeter type name taken)
  unfolding greeter_start_session_cb
  Keeps-start_cb greeter type name taken =
      search (in_time_rules, Keeps-create_guest, Keeps-chosen, Keeps-configure) depth 24

  Keeps-to_user : (name : Str) → Keeps InTime (seat_switch_to_user env call name)
  unfolding seat_switch_to_user
  Keeps-to_user name = search (in_time_rules, Keeps-create_user, Keeps-session_start) depth 24

  Keeps-to_guest : (name : Option Str) → Keeps InTime (seat_switch_to_guest env call name)
  unfolding seat_switch_to_guest
  Keeps-to_guest name =
      search
        (
          object_rules,
          Keeps-create_guest,
          Keeps-start_server env call calls,
          Keeps-set_active env call calls,
        )
        depth 24

  Keeps-lock_with :
      (name : Option Str) (old : Pointer) (g : ℕ) → Keeps InTime (lock_with env call name old g)
  unfolding lock_with
  Keeps-lock_with name none g = search (object_rules, Keeps-start_server env call calls) depth 24
  Keeps-lock_with name (some old) g = search (object_rules, Keeps-modify, replace_lem) depth 24

  Keeps-lock_new : (name : Option Str) → Keeps InTime (lock_with_new_greeter env call name)
  unfolding lock_with_new_greeter
  Keeps-lock_new name =
      search (object_rules, Keeps-lock_with, Keeps-session_stop env call calls) depth 24

  Keeps-lock_seat : (name : Option Str) → Keeps InTime (seat_lock env call name)
  unfolding seat_lock
  Keeps-lock_seat name = search (in_time_rules, Keeps-lock_new, Keeps-reset env call calls) depth 24

  Keeps-first : (n : ℕ) → Keeps InTime (start_first env call n)
  unfolding start_first
  Keeps-first n =
      search
        (
          object_rules,
          Keeps-start_server env call calls,
          Keeps-session_stop env call calls,
          Keeps-server_stop env call calls,
        )
        depth 24

  Keeps-autologin : Keeps InTime (create_autologin_session env call)
  unfolding create_autologin_session
  Keeps-autologin = search (in_time_rules, Keeps-create_guest, Keeps-create_user) depth 24

  Keeps-background : (p : Pointer) → Keeps InTime (start_background env call p)
  unfolding start_background
  Keeps-background none = search in_time_rules
  Keeps-background (some n) = search (in_time_rules, Keeps-on_new) depth 12

  Keeps-end : (background shown : Pointer) → Keeps InTime (end_start env call background shown)
  unfolding end_start
  Keeps-end background none = search (in_time_rules, Keeps-seat_stop) depth 12
  Keeps-end background (some n) = search (in_time_rules, Keeps-background) depth 12

  Keeps-or_greeter :
      (background shown : Pointer) → Keeps InTime (start_or_greeter env call background shown)
  unfolding start_or_greeter
  Keeps-or_greeter background none =
      search (in_time_rules, Keeps-create_greeter, Keeps-first, Keeps-end) depth 20
  Keeps-or_greeter background (some n) = Keeps-end background (some n)

  Keeps-real_start_seat : Keeps InTime (seat_real_start env call)
  unfolding seat_real_start
  Keeps-real_start_seat =
      search (in_time_rules, Keeps-autologin, Keeps-first, Keeps-or_greeter) depth 24

  Keeps-seat_start : Keeps InTime (seat_start env call)
  unfolding seat_start
  Keeps-seat_start =
      search (in_time_rules, Keeps-real_start_seat, Keeps-modify, started_lem) depth 20

  Keeps-handler : (handler : Handler) (n : ℕ) → Keeps InTime (complete env call handler n)
  Keeps-handler no_handler n = search in_time_rules
  Keeps-handler autostart n = Keeps-complete env call calls n
  Keeps-handler switch n = Keeps-switch_complete env call calls n

Keeps-perform : (env : Environment) (depth : ℕ) (c : Call) → Keeps InTime (perform env depth c)
unfolding perform
Keeps-perform env zero c = record { keeps = λ seat h. tt }
Keeps-perform env (suc depth) c = record {
  keeps = (Keeps-handle env (perform env depth) (Keeps-perform env depth) c).keeps;
}

module _ (env : Environment) (depth : ℕ) where
  Keeps-emit_complete : (n : ℕ) → Keeps InTime (emit_complete env depth n)
  unfolding emit_complete
  Keeps-emit_complete n =
      search (in_time_rules, Keeps-handler env (perform env depth) (Keeps-perform env depth)) depth
        12

  Keeps-exit_child : (n : ℕ) → Keeps InTime (exit_child env depth n)
  unfolding exit_child
  Keeps-exit_child n =
      search
        (
          in_time_rules,
          Keeps-emit_complete,
          Keeps-emit_session_stopped env (perform env depth) (Keeps-perform env depth),
        )
        depth 20

  ignore_lem : {A : Type 0} (act : Act A) → Keeps InTime act → Keeps InTime (ignore act)
  ignore_lem act h = Keeps->>= act _ h (λ _. Keeps-pure tt)

  calls : (c : Call) → Keeps InTime (perform env depth c)
  calls = Keeps-perform env depth

  Keeps-step : (event : Event) → Keeps InTime (step env depth event)
  unfolding step
  Keeps-step starts = ignore_lem _ (Keeps-seat_start env _ calls)
  Keeps-step (greeter_changes n greeter) = Keeps-update_session n _
  Keeps-step (has_result n name result) =
      Keeps->>= _ _ (Keeps-update_session n _) (λ _. Keeps-emit_complete n)
  Keeps-step (child_exits n) = Keeps-exit_child n
  Keeps-step (gets_ready d) =
      Keeps->>= _ _ (Keeps-update_server d _) (λ _. Keeps-emit_server_ready env _ calls d)
  Keeps-step (server_exits d) = Keeps-emit_server_stopped env _ calls d
  Keeps-step greeter_creates = ignore_lem _ (Keeps-greeter_creates env)
  Keeps-step (greeter_starts_session greeter type name n) =
      ignore_lem _ (Keeps-start_cb env _ calls greeter type name n)
  Keeps-step (names_user name) = Keeps-username_changed name
  Keeps-step to_greeter = ignore_lem _ (Keeps-to_greeter env _ calls)
  Keeps-step (to_user name) = ignore_lem _ (Keeps-to_user env _ calls name)
  Keeps-step (to_guest name) = ignore_lem _ (Keeps-to_guest env _ calls name)
  Keeps-step (locks name) = ignore_lem _ (Keeps-lock_seat env _ calls name)
  Keeps-step (activates n) = Keeps-externally n
  Keeps-step stops = Keeps-seat_stop env _ calls

  Keeps-run : (events : List Event) → Keeps InTime (run env depth events)
  unfolding run
  Keeps-run [] = Keeps-pure tt
  Keeps-run (event ∷ events) = Keeps->>= _ _ (Keeps-step event) (λ _. Keeps-run events)

said_lem :
    (stopping stopped rest : Bool)
    → (stopping && (not stopped && rest)) ≡ false
    → (not (stopping && rest) || stopped) ≡ true
said_lem true true true e = refl
said_lem true true false e = refl
said_lem true false true e = cc
said_lem true false false e = refl
said_lem false true rest e = refl
said_lem false false rest e = refl

-- After any history of a new seat that returns, however deep its calls are nested: the signal
-- STOPPED has been emitted once if the seat has stopped and else never; it has stopped only if it
-- was told to; and it has stopped if it was told to and has neither display servers nor sessions
-- left.
pub seat_stopped_once :
    (env : Environment) (depth : ℕ) (events : List Event) (name : Str)
    (properties : List (Str × Str)) (multi_session : Bool) (server : DisplayServer) (seat : Seat)
    → run env depth events (new_seat name properties multi_session server) ≡ returned tt seat
    → (times_stopped seat.done ≡ (if seat.stopped then 1 else 0))
      × ((not seat.stopped || seat.stopping) ≡ true)
      × ((not (seat.stopping && (is_empty seat.display_servers && is_empty seat.sessions))
            || seat.stopped)
          ≡ true)
unfolding is_done times_stopped
seat_stopped_once env depth events name properties multi_session server seat e =
    let h : InTime seat = subst (Ends InTime) e (
      (Keeps-run env depth events).keeps (new_seat name properties multi_session server)
        (record { late = record { count = refl; sound = refl }; exact = refl })) in
    (
      h.late.count,
      h.late.sound,
      said_lem seat.stopping seat.stopped (is_empty seat.display_servers && is_empty seat.sessions)
          h.exact,
    )
