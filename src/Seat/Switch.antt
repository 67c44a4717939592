-- ===== src/Seat/Switch.antt =====
-- How a seat switches between its sessions and starts them (src/seat.c).
use lightdm.Base.{
  ℕ, Bool, true, false, List, [], ◌∷◌, Option, none, some, ◌&&◌, ◌||◌, not, ◌==◌, if◌then◌else◌,
  codes,
}
use lightdm.Session.Authentication.{Str, session_get_is_authenticated}
use lightdm.Greeter.State.{greeter_set_hint}
use lightdm.Seat.State.{
  Pointer, queued_idle, reset_greeter, class_set_active, class_set_next, emitted_upstart,
  running_user_session, Environment, Call, server_ready, starts_session, Act, ◌>>=◌, ◌>>◌, pure,
  gets, nothing, when, if_null,
}
use lightdm.Seat.Objects.{
  modify, put_out, update_session, session_at, server_at, read_session, is_greeter, same,
  session_set_display_server, session_lock, session_activate, session_start, session_run,
}
use lightdm.Seat.Properties.{seat_get_string_property, seat_get_can_switch}
use lightdm.Seat.Find.{
  find_greeter_session, find_resettable_greeter, find_user_session, is_resettable,
}
use lightdm.Seat.Configure.{set_greeter_hints, set_hint}
use lightdm.Seat.Stop.{session_stop, display_server_stop, display_server_start, seat_stop, is_empty}
use lightdm.Seat.Create.{on_greeter, run_script, create_greeter_session, create_display_server}

unfoldable pub set_session_to_activate : Pointer → Act Unit
unfolding modify
set_session_to_activate session = modify λ seat. record seat { session_to_activate = session }

unfoldable pub can_share_display_server : Pointer → Act Bool
can_share_display_server display_server = if_null display_server (pure false) λ d. do
  seat ← gets (λ seat. seat)
  pure (seat.share_display_server && (seat.server_of d).can_share)

unfoldable pub seat_set_externally_activated_session : ℕ → Act Unit
unfolding modify
seat_set_externally_activated_session session =
    modify λ seat. record seat { active_session = some session }

-- `emit_upstart_signal`.
unfoldable pub emit_upstart_signal : Environment → Str → Act Unit
emit_upstart_signal env signal = when env.is_root (put_out (emitted_upstart signal))

-- The hint that names the user of a session to a greeter.
unfoldable pub select_user : Pointer → Pointer → Act Unit
select_user session greeter_session = do
  guest ← read_session false (λ s. s.session.is_guest) session
  username ← read_session none (λ s. s.session.username) session
  if_null greeter_session nothing λ g. update_session g (
      on_greeter (
        if guest
        then greeter_set_hint (codes "select-guest") (codes "true")
        else set_hint (codes "select-user") username))

-- An open greeter that can be reset, with its hints set anew, or a new one.
unfoldable pub take_greeter : Environment → Pointer → Act Pointer
take_greeter env none = create_greeter_session env
take_greeter env (some g) = do
  seat ← gets (λ seat. seat)
  update_session g (on_greeter (set_greeter_hints env seat))
  pure (some g)

-- A script that is not configured succeeds.
unfoldable pub run_optional_script : Environment → Pointer → Option Str → Act Bool
run_optional_script env display_server none = pure true
run_optional_script env display_server (some script) = run_script env display_server script

unfoldable pub greeter_active_username_changed_cb : Option Str → Act Unit
greeter_active_username_changed_cb username = do
  seat ← gets (λ seat. seat)
  let session = find_user_session seat username seat.active_session
  modify (λ seat'. record seat' { next_session = session })
  put_out (class_set_next session)

module _ (env : Environment) (call : Call → Act Unit) where
  -- What `seat_set_active_session` does with another session.
  unfoldable pub leave_session : ℕ → Act Unit
  leave_session n = do
    s ← session_at n
    active ← gets (λ seat. seat.active_session)
    when (is_greeter s) (
        if is_resettable s
        then when (same active (some n)) (put_out (queued_idle n))
        else session_stop env call n)

  -- The loop over the sessions. The code follows the links of the list itself.
  unfoldable pub leave_others : ℕ → List ℕ → Act Unit
  leave_others session [] = nothing
  leave_others session (n ∷ ns) = do
    s ← session_at n
    when (not (n == session || s.session.stopping)) (leave_session n)
    leave_others session ns

  unfoldable pub seat_set_active_session : ℕ → Act Unit
  seat_set_active_session session = do
    put_out (class_set_active (some session))
    sessions ← gets (λ seat. seat.sessions)
    leave_others session sessions
    active ← gets (λ seat. seat.active_session)
    if_null active nothing λ n. do
      s ← session_at n
      when (not (n == session) && not (is_greeter s)) (session_lock env n)
    session_activate env session
    modify (λ seat. record seat { active_session = some session })

  unfoldable pub start_display_server : Pointer → Act Bool
  start_display_server display_server = if_null display_server (pure false) λ d. do
    server ← server_at d
    if server.is_ready
        then (do call (server_ready d); pure true)
        else display_server_start env call (some d)

  -- `greeter_reset` and the switch to it.
  unfoldable pub reset_and_switch : ℕ → Act Unit
  reset_and_switch g = do put_out (reset_greeter g); seat_set_active_session g

  -- A new greeter on the display server of the failed session, or on one made for that session.
  unfoldable pub start_greeter_instead : Pointer → Pointer → Act Unit
  start_greeter_instead session greeter_session = do
    set_session_to_activate greeter_session
    display_server ← read_session none (λ s. s.display_server) session
    shared ← can_share_display_server display_server
    if shared then session_set_display_server greeter_session display_server else do
      new_server ← create_display_server env session
      session_set_display_server session new_server
      started ← start_display_server new_server
      when (not started) (seat_stop env call)
    call (starts_session greeter_session)

  unfoldable pub switch_to_greeter_from_failed_session : Pointer → Act Unit
  switch_to_greeter_from_failed_session session = do
    seat ← gets (λ seat. seat)
    let existing = find_resettable_greeter seat
    greeter_session ← take_greeter env existing
    select_user session greeter_session
    if_null existing (start_greeter_instead session greeter_session) reset_and_switch
    if_null session nothing (session_stop env call)

  unfoldable pub start_session : Pointer → Act Unit
  start_session session = do
    started ← session_start env session
    greeter ← read_session false is_greeter session
    if started
        then nothing
        else if greeter
        then (do
          display_server ← read_session none (λ s. s.display_server) session
          display_server_stop env call display_server)
        else switch_to_greeter_from_failed_session session

  -- The end of `run_session`.
  unfoldable pub activate_after_run : ℕ → Act Unit
  activate_after_run n = do
    seat ← gets (λ seat. seat)
    if same (some n) seat.session_to_activate
        then (do seat_set_active_session n; set_session_to_activate none)
        else if_null seat.active_session nothing (session_activate env)

  unfoldable pub run_session_now : ℕ → Act Unit
  run_session_now n = do
    s ← session_at n
    when (not (is_greeter s)) (do
      put_out (running_user_session n)
      emit_upstart_signal env (codes "desktop-session-start"))
    session_run env n
    activate_after_run n

  unfoldable pub run_session : ℕ → Act Unit
  run_session n = do
    seat ← gets (λ seat. seat)
    let s = seat.session_of n
    let script =
        if is_greeter s
        then seat_get_string_property seat (codes "greeter-setup-script")
        else seat_get_string_property seat (codes "session-setup-script")
    succeeded ← run_optional_script env s.display_server script
    if succeeded then run_session_now n else switch_to_greeter_from_failed_session (some n)

  unfoldable pub run_or_start : ℕ → Act Unit
  run_or_start n = do
    s ← session_at n
    if session_get_is_authenticated s.session then run_session n else start_session (some n)

  unfoldable pub show_new_greeter : ℕ → Act Bool
  show_new_greeter g = do
    set_session_to_activate (some g)
    display_server ← create_display_server env (some g)
    if_null display_server (do set_session_to_activate none; pure false)
        λ d. do session_set_display_server (some g) (some d); start_display_server (some d)

  unfoldable pub seat_switch_to_greeter : Act Bool
  seat_switch_to_greeter = do
    seat ← gets (λ seat. seat)
    if not (seat_get_can_switch seat) && not (is_empty seat.sessions)
        then pure false
        else if_null (find_greeter_session seat)
            (do
              greeter_session ← create_greeter_session env
              if_null greeter_session (pure false) show_new_greeter)
            (λ g. do seat_set_active_session g; pure true)
