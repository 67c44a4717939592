-- ===== src/Seat/Callbacks.antt =====
-- The handlers that a seat connects to the signals of its sessions and display servers
-- (src/seat.c).
use lightdm.Base.{
  ℕ, Bool, false, List, [], ◌∷◌, none, some, ◌&&◌, ◌||◌, not, ◌==◌, if◌then◌else◌, codes,
}
use lightdm.Session.Authentication.{session_get_is_authenticated}
use lightdm.Seat.State.{
  Pointer, SeatSession, no_handler, session_removed, Seat, Environment, Call, session_stopped,
  server_stopped, server_ready, starts_session, Act, ◌>>=◌, ◌>>◌, gets, nothing, when, if_null,
}
use lightdm.Seat.Objects.{
  modify, put_out, update_session, update_server, ask, session_at, is_greeter, same,
  session_set_display_server, session_unlock,
}
use lightdm.Seat.Properties.{seat_get_string_property}
use lightdm.Seat.Find.{
  find_resettable_greeter, find_user_session, find_session_for_display_server,
  seat_real_display_server_is_used,
}
use lightdm.Seat.Stop.{session_stop, display_server_stop, seat_stop, check_stopped, is_empty}
use lightdm.Seat.Create.{create_display_server}
use lightdm.Seat.Switch.{
  set_session_to_activate, can_share_display_server, emit_upstart_signal, seat_set_active_session,
  start_display_server, select_user, take_greeter, reset_and_switch,
  switch_to_greeter_from_failed_session, start_session, run_session, run_optional_script,
  run_or_start, seat_switch_to_greeter,
}

-- `g_list_remove`.
unfoldable pub remove : ℕ → List ℕ → List ℕ
remove n [] = []
remove n (m ∷ ms) = let rest = remove n ms in if m == n then ms else m ∷ rest

abbrev pub forget : Pointer → Pointer → Pointer
forget gone p = if same p gone then none else p

-- The start of `session_stopped_cb`: the handlers are disconnected and the pointers cleared.
abbrev pub forget_session : ℕ → Seat → Seat
forget_session n seat = record seat {
  sessions = remove n seat.sessions;
  active_session = forget (some n) seat.active_session;
  next_session = forget (some n) seat.next_session;
  session_to_activate = forget (some n) seat.session_to_activate;
}

abbrev pub forget_server : ℕ → Seat → Seat
forget_server d seat = record seat { display_servers = remove d seat.display_servers }

-- The session that takes over the display server of a greeter.
unfoldable pub next_on_server : Seat → ℕ → Pointer → List ℕ → Pointer
next_on_server seat gone display_server [] = none
next_on_server seat gone display_server (n ∷ ns) =
    let rest = next_on_server seat gone display_server ns in
    let s = seat.session_of n in
    if n == gone || not (same s.display_server display_server) || s.session.stopping
    then rest
    else some n

abbrev pub greeter_starts : SeatSession → Bool
greeter_starts s = if_null s.greeter false (λ greeter. greeter.start_session)

-- `g_list_length (list) == 1 && g_list_nth_data (list, 0) == display_server`.
abbrev pub is_only : List ℕ → Pointer → Bool
is_only [] p = false
is_only (d ∷ []) p = same (some d) p
is_only (d ∷ (d' ∷ ds)) p = false

module _ (env : Environment) (call : Call → Act Unit) where
  -- A greeter, or the end of the seat.
  unfoldable pub greeter_or_stop : Act Unit
  greeter_or_stop = do
    switched ← seat_switch_to_greeter env call
    when (not switched) (seat_stop env call)

  unfoldable pub session_authentication_complete_cb : ℕ → Act Unit
  session_authentication_complete_cb n = do
    seat ← gets (λ seat. seat)
    let s = seat.session_of n
    if session_get_is_authenticated s.session
        then if_null (find_user_session seat s.session.username (some n)) (run_session env call n)
            (λ other. do seat_set_active_session env call other; session_stop env call n)
        else if not (is_greeter s)
        then switch_to_greeter_from_failed_session env call (some n)
        else session_stop env call n

  unfoldable pub switch_to_existing : ℕ → ℕ → Act Unit
  switch_to_existing n other = do
    session_unlock env other
    seat_set_active_session env call other
    session_stop env call n

  unfoldable pub show_on_new_server : ℕ → Act Unit
  show_on_new_server n = do
    set_session_to_activate (some n)
    display_server ← create_display_server env (some n)
    session_set_display_server (some n) display_server
    started ← start_display_server env call display_server
    nothing

  unfoldable pub show_greeter_on_new_server : Pointer → Act Unit
  show_greeter_on_new_server greeter_session = do
    set_session_to_activate greeter_session
    display_server ← create_display_server env greeter_session
    session_set_display_server greeter_session display_server
    started ← start_display_server env call display_server
    nothing

  unfoldable pub ask_greeter : ℕ → Act Unit
  ask_greeter n = do
    session_stop env call n
    seat ← gets (λ seat. seat)
    let existing = find_resettable_greeter seat
    greeter_session ← take_greeter env existing
    select_user (some n) greeter_session
    if_null existing (show_greeter_on_new_server greeter_session) (reset_and_switch env call)

  unfoldable pub switch_authentication_complete_cb : ℕ → Act Unit
  switch_authentication_complete_cb n = do
    seat ← gets (λ seat. seat)
    let s = seat.session_of n
    if session_get_is_authenticated s.session
        then if_null (find_user_session seat s.session.username (some n)) (show_on_new_server n)
            (switch_to_existing n)
        else ask_greeter n

  -- What follows where the seat goes on: the branches of `session_stopped_cb`.
  unfoldable pub after_session : ℕ → SeatSession → Pointer → Act Unit
  after_session n s display_server = do
    seat ← gets (λ seat. seat)
    shared ← can_share_display_server display_server
    if_null (if is_greeter s then seat.replacement_greeter else none)
        (if is_greeter s && shared && greeter_starts s
          then if_null (next_on_server seat n display_server seat.sessions) nothing
              (run_or_start env call)
          else if is_greeter s
              && not (greeter_starts s)
              && is_only seat.display_servers display_server
          then seat_stop env call
          else if not (is_greeter s)
          then (do active ← ask env (λ a. a.active); when (same active (some n)) greeter_or_stop)
          else nothing)
        (λ replacement. do
          modify (λ seat'. record seat' { replacement_greeter = none })
          run_or_start env call replacement)

  unfoldable pub stop_unused_server : Pointer → Act Unit
  stop_unused_server display_server = if_null display_server nothing λ d. do
    seat ← gets (λ seat. seat)
    when (not (seat.server_of d).stopping && not (seat_real_display_server_is_used seat d))
        (display_server_stop env call (some d))

  unfoldable pub go_on_without : ℕ → Act Unit
  go_on_without n = do
    s ← session_at n
    after_session n s s.display_server
    put_out (session_removed n)
    stop_unused_server s.display_server

  unfoldable pub session_stopped_cb : ℕ → Act Unit
  session_stopped_cb n = do
    update_session n (λ s. record s { connected = false; handler = no_handler })
    modify (forget_session n)
    seat ← gets (λ seat. seat)
    let s = seat.session_of n
    cleaned ← run_optional_script env s.display_server (
        if is_greeter s
        then none
        else seat_get_string_property seat (codes "session-cleanup-script"))
    if seat.stopping then check_stopped else go_on_without n

  -- The loop over the sessions of a display server that has stopped.
  unfoldable pub stop_session_of : ℕ → ℕ → Act Unit
  stop_session_of d n = do
    s ← session_at n
    when (same s.display_server (some d) && not s.session.stopping) (do
      session_stop env call n
      seat ← gets (λ seat. seat)
      when (is_greeter s && s.session.pid == 0 && is_empty seat.display_servers)
          (seat_stop env call))

  unfoldable pub stop_sessions_of : ℕ → List ℕ → Act Unit
  stop_sessions_of d [] = nothing
  stop_sessions_of d (n ∷ ns) = do stop_session_of d n; stop_sessions_of d ns

  unfoldable pub replace_active : ℕ → Act Unit
  replace_active d = do
    active ← ask env (λ a. a.active)
    seat ← gets (λ seat. seat)
    if_null active greeter_or_stop
        λ n. when (same (seat.session_of n).display_server (some d)) greeter_or_stop

  unfoldable pub go_on_without_server : ℕ → Act Unit
  go_on_without_server d = do
    sessions ← gets (λ seat. seat.sessions)
    stop_sessions_of d sessions
    stopping ← gets (λ seat. seat.stopping)
    when (not stopping) (replace_active d)

  unfoldable pub display_server_stopped_cb : ℕ → Act Unit
  display_server_stopped_cb d = do
    properties ← gets (λ seat. seat_get_string_property seat (codes "display-stopped-script"))
    cleaned ← run_optional_script env none properties
    update_server d (λ server. record server { connected = false })
    modify (forget_server d)
    seat ← gets (λ seat. seat)
    if seat.stopping || not seat.started then check_stopped else go_on_without_server d

  unfoldable pub display_server_ready_cb : ℕ → Act Unit
  display_server_ready_cb d = do
    seat ← gets (λ seat. seat)
    succeeded ←
        run_optional_script env (some d)
          (seat_get_string_property seat (codes "display-setup-script"))
    if not succeeded then display_server_stop env call (some d) else do
      emit_upstart_signal env (codes "login-session-start")
      seat' ← gets (λ seat. seat)
      if_null (find_session_for_display_server seat' d) (display_server_stop env call (some d))
          (run_or_start env call)

  unfoldable pub handle : Call → Act Unit
  handle (session_stopped n) = session_stopped_cb n
  handle (server_stopped d) = display_server_stopped_cb d
  handle (server_ready d) = display_server_ready_cb d
  handle (starts_session n) = start_session env call n
