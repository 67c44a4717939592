-- ===== src/Seat/Requests.antt =====
-- What a seat is asked to do: by a greeter, by the D-Bus service, by the display manager
-- (src/seat.c).
use lightdm.Base.{
  ℕ, Bool, true, false, Option, none, some, ◌&&◌, ◌||◌, not, ◌==◌, if◌then◌else◌, codes, is_some,
  str_eq,
}
use lightdm.Session.Authentication.{Str}
use lightdm.Greeter.State.{
  Greeter, SessionType, session_type_local, session_type_remote, greeter_set_hint,
}
use lightdm.Seat.State.{
  Pointer, switch, set_xsession, class_setup, Seat, Environment, Account, Call, Act, ◌>>=◌, ◌>>◌,
  pure, crash, gets, nothing, if_null,
}
use lightdm.Seat.Objects.{
  modify, put_out, update_session, session_at, same, session_set_display_server, session_unlock,
  session_start,
}
use lightdm.Seat.Properties.{
  seat_get_string_property, seat_get_boolean_property, seat_get_integer_property,
  seat_get_can_switch, seat_get_allow_guest,
}
use lightdm.Seat.Find.{
  strcmp0_eq, find_greeter_session, find_resettable_greeter, find_user_session, find_guest_session,
  get_greeter_session,
}
use lightdm.Seat.Configure.{
  set_greeter_hints, get_session_argv, find_session_config, configure_session, not_empty,
}
use lightdm.Seat.Stop.{session_stop, display_server_stop, seat_stop}
use lightdm.Seat.Create.{
  first_of_names, on_greeter, set_argv, set_pam_service, create_user_session, create_guest_session,
  create_greeter_session, create_display_server,
}
use lightdm.Seat.Switch.{
  set_session_to_activate, can_share_display_server, seat_set_active_session, start_display_server,
  reset_and_switch,
}

unfoldable pub sessions_dir : SessionType → Str
sessions_dir session_type_local = codes "sessions-directory"
sessions_dir session_type_remote = codes "remote-sessions-directory"

-- The name of the session that a user starts: the one asked for, that of the automatic login, the
-- user's own, the default.
unfoldable pub choose_session_name : Seat → Option Account → Option Str → Option Str
choose_session_name seat user session_name =
    let of_user : Account → Option Str = λ account.
      first_of_names
        (first_of_names session_name (
          if strcmp0_eq (some account.user_name)
            (seat_get_string_property seat (codes "autologin-user"))
          then seat_get_string_property seat (codes "autologin-session")
          else none))
        account.xsession in
    first_of_names (if_null user session_name of_user)
      (seat_get_string_property seat (codes "user-session"))

abbrev pub lock_hints : Option Str → Greeter → Greeter
lock_hints username greeter =
    let locked = greeter_set_hint (codes "lock-screen") (codes "true") greeter in
    if_null username locked (λ name. greeter_set_hint (codes "select-user") name locked)

module _ (env : Environment) (call : Call → Act Unit) where
  unfoldable pub start_on_new_server : ℕ → Act Bool
  start_on_new_server n = do
    display_server ← create_display_server env (some n)
    session_set_display_server (some n) display_server
    start_display_server env call display_server

  -- The greeter makes room for a session on its display server.
  unfoldable pub take_over : Greeter → ℕ → ℕ → Act Bool
  take_over greeter n g = do
    seat ← gets (λ seat. seat)
    let display_server = (seat.session_of g).display_server
    shared ← can_share_display_server display_server
    if_null display_server (start_on_new_server n) λ d.
        if greeter.resettable || not shared
        then start_on_new_server n
        else if_null (seat.session_of n).config crash λ config.
          if str_eq (seat.server_of d).session_type config.session_type
          then (do session_set_display_server (some n) (some d); session_stop env call g; pure true)
          else start_on_new_server n

  -- From "Switch to this session when it is ready" on.
  unfoldable pub start_chosen : Greeter → ℕ → Act Bool
  start_chosen greeter n = do
    set_session_to_activate (some n)
    seat ← gets (λ seat. seat)
    let existing = find_user_session seat (seat.session_of n).session.username none
    if is_some existing && not (same (some n) existing)
        then if_null existing (pure false) (λ other. do
          session_stop env call n
          session_unlock env other
          seat_set_active_session env call other
          pure true)
        else if_null (get_greeter_session seat) (start_on_new_server n) (take_over greeter n)

  -- The session that a user has authenticated: its configuration.
  unfoldable pub configure_chosen : SessionType → Option Str → ℕ → Act Bool
  configure_chosen type session_name n = do
    seat ← gets (λ seat. seat)
    let user : Option Account =
        if_null (seat.session_of n).session.username none (λ name. env.get_user name)
    let name = choose_session_name seat user session_name
    if_null user nothing (λ account. put_out (set_xsession account.user_name name))
    if_null (find_session_config env (env.config_string (sessions_dir type)) name) (pure false)
        λ config. do
          update_session n
              (configure_session config name (if_null user none (λ account. account.language)))
          update_session n (
              set_argv (
                get_session_argv env config
                  (seat_get_string_property seat (codes "session-wrapper"))))
          pure true

  -- `taken` is the session that `greeter_take_authentication_session` gives.
  unfoldable pub greeter_start_session_cb : Greeter → SessionType → Option Str → ℕ → Act Bool
  greeter_start_session_cb greeter type session_name taken =
      if greeter.guest_account_authenticated
      then (do
        session ← create_guest_session env session_name
        if_null session (pure false) λ n. do
          seat ← gets (λ seat. seat)
          update_session n
              (set_pam_service (seat_get_string_property seat (codes "pam-autologin-service")))
          start_chosen greeter n)
      else do
        configured ← configure_chosen type session_name taken
        if configured then start_chosen greeter taken else pure false

  unfoldable pub seat_switch_to_user : Str → Act Bool
  seat_switch_to_user username = do
    seat ← gets (λ seat. seat)
    let session = find_user_session seat (some username) none
    if not (seat_get_can_switch seat)
        then pure false
        else if is_some session && same session seat.active_session
        then pure true
        else do
          created ← create_user_session env username false
          if_null created nothing λ n. do
            update_session n (λ s. record s { handler = switch })
            update_session n (set_pam_service (seat_get_string_property seat (codes "pam-service")))
          session_start env created

  unfoldable pub seat_switch_to_guest : Option Str → Act Bool
  seat_switch_to_guest session_name = do
    seat ← gets (λ seat. seat)
    if not (seat_get_can_switch seat) || not (seat_get_allow_guest env seat)
        then pure false
        else if_null (find_guest_session seat)
            (do
              session ← create_guest_session env session_name
              if_null session (pure false) λ n. do
                display_server ← create_display_server env (some n)
                set_session_to_activate (some n)
                update_session n (
                    set_pam_service (seat_get_string_property seat (codes "pam-autologin-service")))
                session_set_display_server (some n) display_server
                start_display_server env call display_server)
            (λ n. do seat_set_active_session env call n; pure true)

  -- `old` is a greeter that cannot be reset: it is stopped, and the new one replaces it.
  unfoldable pub lock_with : Option Str → Pointer → ℕ → Act Bool
  lock_with username none g = do
    update_session g (on_greeter (lock_hints username))
    display_server ← create_display_server env (some g)
    session_set_display_server (some g) display_server
    set_session_to_activate (some g)
    start_display_server env call display_server
  lock_with username (some old) g = do
    update_session g (on_greeter (lock_hints username))
    s ← session_at old
    session_set_display_server (some g) s.display_server
    set_session_to_activate (some g)
    modify (λ seat. record seat { replacement_greeter = some g })
    pure true

  unfoldable pub lock_with_new_greeter : Option Str → Act Bool
  lock_with_new_greeter username = do
    seat ← gets (λ seat. seat)
    let old = find_greeter_session seat
    if_null old nothing (session_stop env call)
    greeter_session ← create_greeter_session env
    if_null greeter_session (pure false) (lock_with username old)

  unfoldable pub seat_lock : Option Str → Act Bool
  seat_lock username = do
    seat ← gets (λ seat. seat)
    if not (seat_get_can_switch seat)
        then pure false
        else if_null (find_resettable_greeter seat) (lock_with_new_greeter username) λ g. do
          update_session g (on_greeter (set_greeter_hints env seat))
          update_session g (on_greeter (lock_hints username))
          reset_and_switch env call g
          pure true

  -- What `seat_real_start` does with the session of the automatic login and with the greeter: NULL
  -- if it cannot be shown.
  unfoldable pub start_first : ℕ → Act Pointer
  start_first n = do
    set_session_to_activate (some n)
    display_server ← create_display_server env (some n)
    session_set_display_server (some n) display_server
    started ← start_display_server env call display_server
    if started
        then pure (some n)
        else do session_stop env call n; display_server_stop env call display_server; pure none

  unfoldable pub create_autologin_session : Act Pointer
  create_autologin_session = do
    seat ← gets (λ seat. seat)
    let username = not_empty (seat_get_string_property seat (codes "autologin-user"))
    session ←
        if seat_get_boolean_property seat (codes "autologin-guest")
        then create_guest_session env none
        else if_null username (pure none) (λ name. create_user_session env name true)
    if_null session nothing λ n.
        update_session n
          (set_pam_service (seat_get_string_property seat (codes "pam-autologin-service")))
    pure session

  unfoldable pub start_background : Pointer → Act Unit
  start_background none = nothing
  start_background (some n) = do started ← start_on_new_server n; nothing

  -- The end of `seat_real_start`, with the session that is to be shown.
  unfoldable pub end_start : Pointer → Pointer → Act Bool
  end_start background none = do seat_stop env call; pure false
  end_start background (some n) = do start_background background; pure true

  -- The fallback to a greeter. Without a greeter session the code returns FALSE at once.
  unfoldable pub start_or_greeter : Pointer → Pointer → Act Bool
  start_or_greeter background (some n) = end_start background (some n)
  start_or_greeter background none = do
    greeter_session ← create_greeter_session env
    if_null greeter_session (pure false) λ g. do shown ← start_first g; end_start background shown

  unfoldable pub seat_real_start : Act Bool
  seat_real_start = do
    seat ← gets (λ seat. seat)
    let in_background = seat_get_boolean_property seat (codes "autologin-in-background")
    session ←
        if seat_get_integer_property seat (codes "autologin-user-timeout") == 0 || in_background
        then create_autologin_session
        else pure none
    shown ← if_null (if in_background then none else session) (pure none) start_first
    start_or_greeter (if in_background then session else none) shown

  unfoldable pub seat_start : Act Bool
  seat_start = do
    put_out class_setup
    started ← seat_real_start
    modify (λ seat. record seat { started = started })
    pure started
