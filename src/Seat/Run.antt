-- ===== src/Seat/Run.antt =====
-- What happens to a seat, as a sequence of events (src/seat.c).
use lightdm.Base.{ℕ, zero, suc, Bool, true, false, List, [], ◌∷◌, Option, none}
use lightdm.Session.Authentication.{Str, got_result, child_exited}
use lightdm.Greeter.State.{Greeter, SessionType}
use lightdm.Seat.State.{
  DisplayServer, Handler, no_handler, autostart, switch, Seat, Environment, too_deep, Call, Act,
  ◌>>=◌, ◌>>◌, nothing, when,
}
use lightdm.Seat.Objects.{update_session, update_server, session_at}
use lightdm.Seat.Stop.{emit_session_stopped, emit_server_stopped, emit_server_ready, seat_stop}
use lightdm.Seat.Create.{new_seat_session, with_session, on_greeter, greeter_create_session_cb}
use lightdm.Seat.Switch.{
  seat_set_externally_activated_session, seat_switch_to_greeter, greeter_active_username_changed_cb,
}
use lightdm.Seat.Callbacks.{
  session_authentication_complete_cb, switch_authentication_complete_cb, handle,
}
use lightdm.Seat.Requests.{
  greeter_start_session_cb, seat_switch_to_user, seat_switch_to_guest, seat_lock, seat_start,
}

-- Calls from inside the objects, nested at most `depth` deep.
unfoldable pub perform : Environment → ℕ → Call → Act Unit
perform env zero c seat = too_deep
perform env (suc depth) c seat = handle env (perform env depth) c seat

-- The seat starts; the state of a greeter changes by what its process says; PAM has a result; a
-- child exits; a display server is ready, or stops; a greeter wants a session to authenticate with,
-- or a session started, or names the user; D-Bus asks for a switch or a lock; another session is
-- activated; the seat is told to stop.
pub data Event : Type 0 where
  starts : Event
  greeter_changes : ℕ → Greeter → Event
  has_result : ℕ → Option Str → ℕ → Event
  child_exits : ℕ → Event
  gets_ready : ℕ → Event
  server_exits : ℕ → Event
  greeter_creates : Event
  greeter_starts_session : Greeter → SessionType → Option Str → ℕ → Event
  names_user : Option Str → Event
  to_greeter : Event
  to_user : Str → Event
  to_guest : Option Str → Event
  locks : Option Str → Event
  activates : ℕ → Event
  stops : Event

abbrev pub ignore : {A : Type 0} → Act A → Act Unit
ignore act = do result ← act; nothing

abbrev pub complete : Environment → (Call → Act Unit) → Handler → ℕ → Act Unit
complete env call no_handler n = nothing
complete env call autostart n = session_authentication_complete_cb env call n
complete env call switch n = switch_authentication_complete_cb env call n

module _ (env : Environment) (depth : ℕ) where
  abbrev pub call : Call → Act Unit
  call = perform env depth

  -- The signal AUTHENTICATION_COMPLETE, to the handler that the seat has connected.
  unfoldable pub emit_complete : ℕ → Act Unit
  emit_complete n = do s ← session_at n; complete env call s.handler n

  unfoldable pub exit_child : ℕ → Act Unit
  exit_child n = do
    s ← session_at n
    let (session, completes) = child_exited s.session
    update_session n (with_session (λ _. session))
    when completes (emit_complete n)
    emit_session_stopped env call n

  unfoldable pub step : Event → Act Unit
  step starts = ignore (seat_start env call)
  step (greeter_changes n greeter) = update_session n (on_greeter (λ _. greeter))
  step (has_result n username result) = do
    update_session n (with_session (got_result username result))
    emit_complete n
  step (child_exits n) = exit_child n
  step (gets_ready d) = do
    update_server d (λ server. record server { is_ready = true })
    emit_server_ready env call d
  step (server_exits d) = emit_server_stopped env call d
  step greeter_creates = ignore (greeter_create_session_cb env)
  step (greeter_starts_session greeter type name taken) =
      ignore (greeter_start_session_cb env call greeter type name taken)
  step (names_user username) = greeter_active_username_changed_cb username
  step to_greeter = ignore (seat_switch_to_greeter env call)
  step (to_user username) = ignore (seat_switch_to_user env call username)
  step (to_guest name) = ignore (seat_switch_to_guest env call name)
  step (locks username) = ignore (seat_lock env call username)
  step (activates n) = seat_set_externally_activated_session n
  step stops = seat_stop env call

  unfoldable pub run : List Event → Act Unit
  run [] = nothing
  run (event ∷ events) = do step event; run events

-- `seat_init`, with the name and the properties that are set next.
abbrev pub new_seat : Str → List (Str × Str) → Bool → DisplayServer → Seat
new_seat name properties multi_session server = record {
  name = name;
  properties = properties;
  supports_multi_session = multi_session;
  share_display_server = true;
  display_servers = [];
  sessions = [];
  active_session = none;
  next_session = none;
  session_to_activate = none;
  started = false;
  stopping = false;
  stopped = false;
  replacement_greeter = none;
  session_of = λ _. new_seat_session none no_handler;
  server_of = λ _. server;
  created = 0;
  time = 0;
  done = [];
}
