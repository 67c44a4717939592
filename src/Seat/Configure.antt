-- ===== src/Seat/Configure.antt =====
-- How a seat configures a session: its command, its environment and the hints of a greeter
-- (src/seat.c).
use lightdm.Base.{Bool, List, [], ◌∷◌, ◌++◌, Option, none, some, ◌&&◌, if◌then◌else◌, str_eq, codes}
use lightdm.Session.Authentication.{Str}
use lightdm.Greeter.State.{Greeter, greeter_set_hint, greeter_clear_hints}
use lightdm.Seat.State.{SessionConfig, SeatSession, Seat, Environment, if_null}
use lightdm.Seat.Objects.{session_set_env}
use lightdm.Seat.Properties.{
  seat_get_string_property, seat_get_boolean_property, seat_get_allow_guest, g_strsplit,
}

abbrev pub truth : Bool → Str
truth b = if b then codes "true" else codes "false"

-- A hint is set to a value. A value NULL is sent as the empty text, so it is that here.
abbrev pub set_hint : Str → Option Str → Greeter → Greeter
set_hint name value greeter = greeter_set_hint name (if_null value [] (λ v. v)) greeter

unfoldable pub set_greeter_hints : Environment → Seat → Greeter → Greeter
set_greeter_hints env seat greeter =
    let cleared = greeter_clear_hints greeter in
    let session =
      set_hint (codes "default-session") (seat_get_string_property seat (codes "user-session"))
        cleared in
    let hide =
      greeter_set_hint (codes "hide-users")
        (truth (seat_get_boolean_property seat (codes "greeter-hide-users"))) session in
    let manual =
      greeter_set_hint (codes "show-manual-login")
        (truth (seat_get_boolean_property seat (codes "greeter-show-manual-login"))) hide in
    let remote =
      greeter_set_hint (codes "show-remote-login")
        (truth (seat_get_boolean_property seat (codes "greeter-show-remote-login"))) manual in
    greeter_set_hint (codes "has-guest-account")
      (truth (
        seat_get_allow_guest env seat
        && seat_get_boolean_property seat (codes "greeter-allow-guest")))
      remote

abbrev pass_on : Environment → Str → SeatSession → SeatSession
pass_on env name s = if_null (env.getenv name) s (λ value. session_set_env name (some value) s)

abbrev copy_on : Environment → Str → SeatSession → SeatSession
copy_on env name s = session_set_env name (env.getenv name) s

unfoldable pub set_session_env : Environment → SeatSession → SeatSession
set_session_env env s =
    let bus =
      if env.is_root
      then s
      else session_set_env (codes "LDM_BUS") (some (codes "SESSION"))
          (pass_on env (codes "DBUS_SESSION_BUS_ADDRESS") s) in
    let test = if_null (env.getenv (codes "LIGHTDM_TEST_ROOT")) bus λ root.
      copy_on env (codes "GI_TYPELIB_PATH") (
        copy_on env (codes "DBUS_SESSION_BUS_ADDRESS") (
          copy_on env (codes "DBUS_SYSTEM_BUS_ADDRESS")
            (session_set_env (codes "LIGHTDM_TEST_ROOT") (some root) bus))) in
    pass_on env (codes "LD_LIBRARY_PATH") (pass_on env (codes "LD_PRELOAD") test)

abbrev in_path : Environment → Str → Str
in_path env program = if_null (env.find_program program) program (λ path. path)

abbrev absolute : Environment → List Str → List Str
absolute env [] = []
absolute env (program ∷ arguments) = in_path env program ∷ arguments

unfoldable pub get_session_argv : Environment → SessionConfig → Option Str → Option (List Str)
get_session_argv env config session_wrapper =
    if_null session_wrapper
      (if_null (env.parse_argv config.command) none (λ argv. some (absolute env argv)))
      (λ wrapper. some (in_path env wrapper ∷ config.command ∷ []))

-- The loop over the directories of sessions.
unfoldable pub search_config : Environment → Str → List Str → Option SessionConfig
search_config env session_name [] = none
search_config env session_name (dir ∷ dirs) =
    let rest = search_config env session_name dirs in
    let type = if str_eq dir env.wayland_sessions_dir then codes "wayland" else codes "x" in
    let path = env.build_filename dir (session_name ++ codes ".desktop") in
    if_null (env.read_config path type) rest some

unfoldable pub find_session_config : Environment → Option Str → Option Str → Option SessionConfig
find_session_config env sessions_dir session_name =
    if_null sessions_dir none
      λ dirs. if_null session_name none λ name. search_config env name (g_strsplit b':' dirs)

-- `g_strjoinv`.
abbrev join : Str → List Str → Str
join separator [] = []
join separator (text ∷ []) = text
join separator (text ∷ (text' ∷ texts)) = text ++ (separator ++ join separator (text' ∷ texts))

-- `NULL` and the empty text alike are no value.
abbrev pub not_empty : Option Str → Option Str
not_empty none = none
not_empty (some text) = if str_eq text (codes "") then none else some text

unfoldable pub configure_session :
    SessionConfig → Option Str → Option Str → SeatSession → SeatSession
configure_session config session_name language s =
    let configured = record s { config = some config } in
    let xdg = session_set_env (codes "XDG_SESSION_DESKTOP") session_name configured in
    let desktop = session_set_env (codes "DESKTOP_SESSION") session_name xdg in
    let gdm = session_set_env (codes "GDMSESSION") session_name desktop in
    let current =
      if_null config.desktop_names gdm λ names.
        session_set_env (codes "XDG_CURRENT_DESKTOP") (some (join (codes ":") names)) gdm in
    if_null (not_empty language) current λ lang.
      session_set_env (codes "GDM_LANG") (some lang)
        (session_set_env (codes "LANG") (some lang) current)

-- `prepend_argv` reads the vector: NULL is a crash, here `none`.
unfoldable pub prepend_argv : Option (List Str) → Str → Option (List Str)
prepend_argv none value = none
prepend_argv (some argv) value = some (value ∷ argv)
