-- ===== src/Seat/Create.antt =====
-- How a seat creates sessions and display servers (src/seat.c), and the scripts it runs. The
-- environment of a script and the log file of a greeter are not modelled.
use lightdm.Base.{
  ℕ, ◌+◌, Bool, true, false, List, [], ◌∷◌, ◌++◌, Option, none, some, ◌||◌, ◌==◌, if◌then◌else◌,
  codes,
}
use lightdm.Session.Authentication.{Str, Session}
use lightdm.Greeter.State.{
  Greeter, new_greeter, greeter_set_hint, greeter_set_allow_guest, greeter_set_pam_services,
}
use lightdm.Seat.State.{
  Pointer, Handler, no_handler, autostart, SeatSession, DisplayServer, ran_script, session_added,
  Seat, Environment, ServerChoice, no_server, kept_server, new_server, Act, ◌>>=◌, ◌>>◌, pure,
  crash, gets, if_null,
}
use lightdm.Seat.Objects.{
  modify, set, put_out, update_session, ask, session_set_env, read_session,
  session_set_display_server,
}
use lightdm.Seat.Properties.{
  seat_get_string_property, seat_get_boolean_property, seat_get_integer_property,
  seat_get_allow_guest, is_positive,
}
use lightdm.Seat.Find.{get_greeter_session}
use lightdm.Seat.Configure.{
  set_greeter_hints, set_hint, set_session_env, get_session_argv, find_session_config,
  configure_session, prepend_argv, not_empty,
}
use lightdm.Base.{decimal}

-- `session_init` on zeroed memory.
abbrev pub fresh_session : Session
fresh_session = record {
  pid = 0;
  username = none;
  is_guest = false;
  pam_service = none;
  do_authenticate = false;
  is_interactive = false;
  messages = [];
  authentication_started = false;
  authentication_complete = false;
  authentication_result = 0;
  login1_session_id = none;
  tty = none;
  xdisplay = none;
  remote_host_name = none;
  x_authority = none;
  command_run = false;
  stopping = false;
}

abbrev pub new_seat_session : Option Greeter → Handler → SeatSession
new_seat_session greeter handler = record {
  session = fresh_session;
  greeter = greeter;
  display_server = none;
  config = none;
  env = [];
  argv = none;
  handler = handler;
  connected = true;
}

-- A new object, appended to the sessions of the seat.
unfoldable pub append_session : SeatSession → Act ℕ
unfolding modify gets
append_session s = do
  n ← gets (λ seat. seat.created)
  modify λ seat. record seat {
    created = n + 1;
    session_of = set n (λ _. s) seat.session_of;
    sessions = seat.sessions ++ n ∷ [];
  }
  pure n

unfoldable pub has : ℕ → List ℕ → Bool
has n [] = false
has n (m ∷ ms) = m == n || has n ms

abbrev pub remember_server : ℕ → Seat → Seat
remember_server d seat = if has d seat.display_servers then seat else record seat {
  display_servers = seat.display_servers ++ d ∷ [];
  server_of = set d (λ server. record server { connected = true }) seat.server_of;
}

abbrev pub allocate_server : DisplayServer → Seat → Seat
allocate_server server seat = record seat {
  created = seat.created + 1;
  server_of = set seat.created (λ _. server) seat.server_of;
}

-- The call of the class, and what remembers its result.
unfoldable pub take_server : ServerChoice → Act Pointer
unfolding has
take_server no_server = pure none
take_server (kept_server d) = do modify (remember_server d); pure (some d)
take_server (new_server server) = do
  d ← gets (λ seat. seat.created)
  modify (allocate_server server)
  modify (remember_server d)
  pure (some d)

abbrev pub first_of_names : Option Str → Option Str → Option Str
first_of_names none other = other
first_of_names (some name) other = some name

-- Hints are set on the greeter of a session.
abbrev pub on_greeter : (Greeter → Greeter) → SeatSession → SeatSession
on_greeter f s = if_null s.greeter s (λ greeter. record s { greeter = some (f greeter) })

abbrev pub hint_if : Bool → Str → Option Str → Greeter → Greeter
hint_if b name value greeter = if b then set_hint name value greeter else greeter

-- The end of `create_greeter_session`: the hints on automatic login.
unfoldable pub set_autologin_hints : Seat → Greeter → Greeter
set_autologin_hints seat greeter =
    let username = not_empty (seat_get_string_property seat (codes "autologin-user")) in
    let session = not_empty (seat_get_string_property seat (codes "autologin-session")) in
    let timeout = seat_get_integer_property seat (codes "autologin-user-timeout") in
    let guest = seat_get_boolean_property seat (codes "autologin-guest") in
    if is_positive timeout
    then (let timed = greeter_set_hint (codes "autologin-timeout") (decimal timeout) greeter in
        let named =
          if_null username timed (λ name. greeter_set_hint (codes "autologin-user") name timed) in
        let chosen =
          if_null session named (λ name. greeter_set_hint (codes "autologin-session") name named) in
        hint_if guest (codes "autologin-guest") (some (codes "true")) chosen)
    else greeter

unfoldable pub configure_greeter : Environment → Seat → Greeter → Greeter
configure_greeter env seat greeter =
    let services =
      greeter_set_pam_services (seat_get_string_property seat (codes "pam-service"))
        (seat_get_string_property seat (codes "pam-autologin-service")) greeter in
    set_greeter_hints env seat (greeter_set_allow_guest (seat_get_allow_guest env seat) services)

abbrev pub set_argv : Option (List Str) → SeatSession → SeatSession
set_argv argv s = record s { argv = argv }

abbrev pub with_session : (Session → Session) → SeatSession → SeatSession
with_session f s = record s { session = f s.session }

abbrev pub set_pam_service : Option Str → SeatSession → SeatSession
set_pam_service service = with_session (λ session. record session { pam_service = service })

-- The vector with a wrapper in front, where one is configured.
abbrev pub wrap :
    Environment → Option (List Str) → Option Str → (Option (List Str) → Act Pointer) → Act Pointer
wrap env argv none go_on = go_on argv
wrap env argv (some wrapper) go_on =
    let path = if_null (env.find_program wrapper) wrapper (λ p. p) in
    if_null (prepend_argv argv path) crash (λ wrapped. go_on (some wrapped))

module _ (env : Environment) where
  unfoldable pub run_script : Pointer → Str → Act Bool
  run_script display_server script_name = do
    put_out (ran_script script_name display_server)
    ask env (λ a. a.script_succeeds)

  unfoldable pub create_session : Bool → Act ℕ
  create_session with_autostart = do
    n ← append_session (
        set_session_env env
          (new_seat_session none (if with_autostart then autostart else no_handler)))
    put_out (session_added n)
    pure n

  unfoldable pub create_user_session : Str → Bool → Act Pointer
  create_user_session username with_autostart = if_null (env.get_user username) (pure none) λ user.
      do
        seat ← gets (λ seat. seat)
        let override =
            if with_autostart
            then seat_get_string_property seat (codes "autologin-session")
            else none
        let session_name =
            first_of_names (first_of_names override user.xsession)
              (seat_get_string_property seat (codes "user-session"))
        if_null
            (find_session_config env (env.config_string (codes "sessions-directory")) session_name)
            (pure none)
            λ config. do
              n ← create_session with_autostart
              update_session n (configure_session config session_name user.language)
              update_session n (
                  with_session (λ session. record session {
                    username = some username;
                    do_authenticate = true;
                  }))
              update_session n (
                  set_argv (
                    get_session_argv env config
                      (seat_get_string_property seat (codes "session-wrapper"))))
              pure (some n)

  unfoldable pub create_guest_session : Option Str → Act Pointer
  create_guest_session session_name = do
    seat ← gets (λ seat. seat)
    let name = first_of_names session_name (
        first_of_names (seat_get_string_property seat (codes "guest-session"))
          (seat_get_string_property seat (codes "user-session")))
    if_null (find_session_config env (env.config_string (codes "sessions-directory")) name)
        (pure none)
        λ config. do
          n ← create_session true
          update_session n (configure_session config name none)
          update_session n
              (with_session (λ session. record session { do_authenticate = true; is_guest = true }))
          let argv =
              get_session_argv env config (seat_get_string_property seat (codes "session-wrapper"))
          wrap env argv (seat_get_string_property seat (codes "guest-wrapper"))
              λ wrapped. do update_session n (set_argv wrapped); pure (some n)

  unfoldable pub create_greeter_session : Act Pointer
  create_greeter_session = do
    seat ← gets (λ seat. seat)
    if_null
        (find_session_config env (env.config_string (codes "greeters-directory"))
          (seat_get_string_property seat (codes "greeter-session")))
        (pure none)
        λ config.
          wrap env (get_session_argv env config none)
            (seat_get_string_property seat (codes "greeter-wrapper"))
            λ argv. do
              n ← append_session (new_seat_session (some new_greeter) autostart)
              update_session n (λ s. record s { config = some config })
              update_session n (set_session_env env)
              update_session n
                  (session_set_env (codes "XDG_SESSION_CLASS") (some (codes "greeter")))
              update_session n
                  (set_pam_service (seat_get_string_property seat (codes "pam-greeter-service")))
              update_session n (
                  with_session (λ session. record session {
                    username =
                        if env.is_root
                        then env.config_string (codes "greeter-user")
                        else some env.current_user;
                  }))
              update_session n (set_argv argv)
              update_session n (on_greeter (configure_greeter env seat))
              update_session n (on_greeter (set_autologin_hints seat))
              pure (some n)

  -- `session` decides what kind of server the class creates: its answer comes from `env`.
  unfoldable pub create_display_server : Pointer → Act Pointer
  create_display_server session = do choice ← ask env (λ a. a.server); take_server choice

  unfoldable pub greeter_create_session_cb : Act ℕ
  greeter_create_session_cb = do
    seat ← gets (λ seat. seat)
    let greeter_session = get_greeter_session seat
    n ← create_session false
    config ← read_session none (λ s. s.config) greeter_session
    update_session n (λ s. record s { config = config })
    display_server ← read_session none (λ s. s.display_server) greeter_session
    session_set_display_server (some n) display_server
    pure n
