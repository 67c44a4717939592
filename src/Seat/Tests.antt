-- ===== src/Seat/Tests.antt =====
-- Runs of src/seat.c.
use lightdm.Base.{
  ℕ, ◌+◌, suc, Bool, true, false, List, [], ◌∷◌, ◌++◌, Option, none, some, ◌&&◌, ◌||◌, not, ◌==◌,
  if◌then◌else◌, ◌≡◌, refl, codes, ◌≤◌, str_eq, length, take, drop, All, ◌↔◌,
}
use lightdm.Session.Authentication.{Str, StartResults}
use lightdm.Seat.State.{
  Seat, Environment, DisplayServer, SessionConfig, Account, Answers, no_server, kept_server,
  new_server, ServerStart, start_fails, start_waits, start_ready, Outcome, returned, Pointer,
}
use lightdm.Session.Authentication
use lightdm.Seat.Run.{
  Event, starts, stops, server_exits, to_greeter, gets_ready, child_exits, has_result, locks, run,
  new_seat, perform,
}
use lightdm.Seat.Stopping.{times_stopped}
use lightdm.Seat.StoppingRun.{seat_stopped_once}
use lightdm.Seat.Shutdown.{IsTold, seat_stop_ends}
use lightdm.Seat.Halting.{Done}
use lightdm.Seat.Stop.{is_empty, seat_stop}
use lightdm.Seat.Properties.{is_true, seat_get_can_switch}
use lightdm.Seat.Requests.{seat_switch_to_user, seat_switch_to_guest, seat_lock}
use lightdm.Seat.Switch.{seat_switch_to_greeter}
use lightdm.Seat.Switching.{IsSpace, is_true_iff}

abbrev server : DisplayServer
server = record {
  session_type = codes "x";
  parent = none;
  can_share = true;
  is_ready = false;
  stopping = false;
  connected = false;
}

abbrev config : SessionConfig
config = record { session_type = codes "x"; command = codes "greet"; desktop_names = none }

-- Every display server starts later and stops at once, every fork succeeds.
abbrev answers : Answers
answers = record {
  script_succeeds = true;
  greeter_pipes = some (codes "3", codes "4");
  start_results = record { pipes = true; guest_account = none; child = some 100 };
  login1_session_id = some (codes "c1");
  server = new_server server;
  server_start = start_waits;
  stops_at_once = true;
  active = none;
}

abbrev env : Environment
env = record {
  is_root = true;
  getenv = λ name. none;
  find_program = λ name. none;
  parse_argv = λ command. some (command ∷ []);
  build_filename = λ dir file. dir ++ (codes "/" ++ file);
  config_string = λ key. some key;
  wayland_sessions_dir = codes "wayland";
  read_config = λ path type. some config;
  get_user = λ name. none;
  current_user = codes "root";
  guest_installed = false;
  answers = λ time. answers;
}

abbrev seat : Seat
seat = new_seat (codes "seat0") ((codes "greeter-session", codes "g") ∷ []) true server

-- A greeter starts and is shown; the seat is told to stop, its display server does at once, the
-- greeter when its child exits.
abbrev history : List Event
history = starts ∷ gets_ready 1 ∷ has_result 0 none 0 ∷ stops ∷ child_exits 0 ∷ []

abbrev seat_of : Outcome Unit → Seat
seat_of (returned a seat') = seat'
seat_of other = seat

abbrev final : Seat
final = seat_of (run env 3 history seat)

final_lem : run env 3 history seat ≡ returned tt final
unfolding lightdm.Seat.Objects.put_out lightdm.Seat.Objects.update_session
    lightdm.Seat.Objects.update_server lightdm.Seat.Objects.ask lightdm.Seat.Objects.session_at
    lightdm.Seat.Objects.server_at lightdm.Seat.Objects.session_set_env
    lightdm.Seat.Objects.session_set_display_server lightdm.Seat.Objects.session_activate
    lightdm.Seat.Objects.session_real_start lightdm.Seat.Objects.greeter_session_start
    lightdm.Seat.Objects.session_start lightdm.Seat.Objects.session_run
    lightdm.Seat.Properties.seat_get_string_property lightdm.Seat.Properties.g_strsplit
    lightdm.Seat.Properties.seat_get_boolean_property
    lightdm.Seat.Properties.seat_get_integer_property lightdm.Seat.Find.find_user_session
    lightdm.Seat.Find.find_session_for_display_server lightdm.Seat.Configure.set_session_env
    lightdm.Seat.Configure.get_session_argv lightdm.Seat.Configure.search_config
    lightdm.Seat.Configure.find_session_config lightdm.Seat.Stop.check_stopped
    lightdm.Seat.Stop.emit_session_stopped lightdm.Seat.Stop.emit_server_stopped
    lightdm.Seat.Stop.emit_server_ready lightdm.Seat.Stop.session_stop
    lightdm.Seat.Stop.display_server_stop lightdm.Seat.Stop.tell_server
    lightdm.Seat.Stop.tell_session lightdm.Seat.Stop.stop_servers lightdm.Seat.Stop.stop_sessions
    lightdm.Seat.Stop.stop_all lightdm.Seat.Stop.seat_real_stop lightdm.Seat.Stop.seat_stop
    lightdm.Seat.Stop.display_server_start lightdm.Seat.Create.append_session
    lightdm.Seat.Create.take_server lightdm.Seat.Create.create_greeter_session
    lightdm.Seat.Create.create_display_server lightdm.Seat.Switch.set_session_to_activate
    lightdm.Seat.Switch.emit_upstart_signal lightdm.Seat.Switch.run_optional_script
    lightdm.Seat.Switch.leave_others lightdm.Seat.Switch.seat_set_active_session
    lightdm.Seat.Switch.start_display_server lightdm.Seat.Switch.start_session
    lightdm.Seat.Switch.activate_after_run lightdm.Seat.Switch.run_session_now
    lightdm.Seat.Switch.run_session lightdm.Seat.Switch.run_or_start lightdm.Seat.Callbacks.remove
    lightdm.Seat.Callbacks.session_authentication_complete_cb
    lightdm.Seat.Callbacks.session_stopped_cb lightdm.Seat.Callbacks.display_server_stopped_cb
    lightdm.Seat.Callbacks.display_server_ready_cb lightdm.Seat.Callbacks.handle
    lightdm.Seat.Requests.start_first lightdm.Seat.Requests.create_autologin_session
    lightdm.Seat.Requests.start_background lightdm.Seat.Requests.end_start
    lightdm.Seat.Requests.start_or_greeter lightdm.Seat.Requests.seat_real_start
    lightdm.Seat.Requests.seat_start lightdm.Seat.Run.perform lightdm.Seat.Run.emit_complete
    lightdm.Seat.Run.exit_child lightdm.Seat.Run.step lightdm.Seat.Run.run lightdm.Seat.State.◌>>=◌
    lightdm.Seat.State.pure lightdm.Session.Authentication.session_start
    lightdm.Session.Authentication.session_stop lightdm.Session.Authentication.start_child
    lightdm.Session.Authentication.session_get_is_authenticated
    lightdm.Session.Authentication.session_real_stop lightdm.Session.Authentication.got_result
    lightdm.Session.Authentication.child_exited lightdm.Greeter.State.lookup lightdm.Base.str_eq
final_lem = refl

seat_stopped_once_example :
    (times_stopped final.done ≡ (if final.stopped then 1 else 0))
    × ((not final.stopped || final.stopping) ≡ true)
    × ((not (final.stopping && (is_empty final.display_servers && is_empty final.sessions))
          || final.stopped)
        ≡ true)
seat_stopped_once_example =
    seat_stopped_once env 3 history (codes "seat0") ((codes "greeter-session", codes "g") ∷ []) true
      server final final_lem

seat_stop_ends_example : Done IsTold (seat_stop env (perform env 1) seat)
seat_stop_ends_example = seat_stop_ends env 0 seat refl refl

is_true_iff_example :
    (is_true (codes "true ") ≡ true)
    ↔ ((rest : Str) × (codes "true " ≡ codes "true" ++ rest) × All IsSpace rest)
is_true_iff_example = is_true_iff (codes "true ")
