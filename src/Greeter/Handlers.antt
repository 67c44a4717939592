-- ===== src/Greeter/Handlers.antt =====
-- The handlers of the greeter's messages and of its session's signals (src/greeter.c).
use lightdm.Base.{
  ℕ, ◌+◌, Bool, true, false, List, [], ◌∷◌, Option, none, some, ◌&&◌, ◌||◌, not, ◌==◌, length,
  if◌then◌else◌, codes, str_eq,
}
use lightdm.Session.Authentication.{
  Str, PamMessage, Session, session_get_is_authenticated, session_respond, session_respond_error,
  session_start, session_stop, pam_success, pam_system_err, pam_user_unknown, pam_conv_err,
  pam_prompt_echo_off, pam_prompt_echo_on,
}
use lightdm.Greeter.State.{
  Greeter, SessionType, session_type_local, session_type_remote, sent_message, session_did,
  notified_active_username, emitted_connected, emitted_create_session, emitted_start_session,
  set_user_language, World, Act, ◌>>◌, do_nothing, put_out, modify, if_null, lookup,
  greeter_take_authentication_session,
}
use lightdm.Greeter.Writer.{
  connected_message, prompt_message, end_authentication_message, session_result_message,
  shared_dir_message,
}

unfoldable pub handle_connect : World → Bool → ℕ → Act
handle_connect world resettable api_version greeter = (
  record greeter { api_version = api_version; resettable = resettable },
  sent_message (connected_message world.version api_version greeter.hints) ∷ emitted_connected ∷ [],
)

unfoldable pub send_end_authentication : ℕ → Option Str → ℕ → Act
send_end_authentication sequence_number username result =
    put_out (sent_message (end_authentication_message sequence_number username result))

abbrev pub reset : Greeter → Greeter
reset greeter = record greeter {
  remote_session = none;
  authentication_session = none;
  guest_account_authenticated = false;
}

unfoldable pub drop_session : Session → Act
drop_session session greeter =
    let (_, done) = session_stop session in
    (record (reset greeter) { listening = false }, session_did done ∷ [])

unfoldable pub reset_session : Act
reset_session greeter = if_null greeter.authentication_session (modify reset) drop_session greeter

abbrev pub forget_session : Greeter → Greeter
forget_session greeter = record greeter { authentication_session = none }

-- The end of both handlers that start PAM, behind the signal CREATE_SESSION: where it gives no
-- session, and where it gives one; `set_up` has the calls that set the fields of the session.
unfoldable pub no_session : ℕ → Act
no_session sequence_number = do
  modify forget_session
  send_end_authentication sequence_number (some []) pam_user_unknown

unfoldable pub start_pam : World → (Session → Session) → Session → Act
start_pam world set_up session greeter =
    let (session', done) = session_start world.start_results (set_up session) in
    (
      record greeter { authentication_session = some session'; listening = true },
      session_did done ∷ [],
    )

unfoldable pub start_authentication : World → ℕ → (Session → Session) → Act
start_authentication world sequence_number set_up = do
  put_out emitted_create_session
  if_null world.created (no_session sequence_number) (start_pam world set_up)

-- "" is NULL from here on.
unfoldable pub nonempty : Str → Option Str
nonempty [] = none
nonempty (c ∷ text) = some (c ∷ text)

-- Whether the user is the one that logs in automatically.
unfoldable pub is_autologin : Option Str → Option Str → Bool
is_autologin none username = false
is_autologin (some autologin_username) none = false
is_autologin (some autologin_username) (some name) = str_eq name autologin_username

unfoldable pub set_up_login : Greeter → Option Str → Session → Session
set_up_login greeter username session =
    let autologin = is_autologin (lookup (codes "autologin-user") greeter.hints) username in
    record session {
      pam_service = if autologin then greeter.autologin_pam_service else greeter.pam_service;
      username = username;
      do_authenticate = true;
      is_interactive = not autologin;
    }

unfoldable pub login : World → ℕ → Option Str → Act
login world sequence_number username greeter =
    start_authentication world sequence_number (set_up_login greeter username) greeter

abbrev pub set_active_username : Str → Greeter → Greeter
set_active_username name greeter = record greeter { active_username = nonempty name }

abbrev pub set_sequence_number : ℕ → Greeter → Greeter
set_sequence_number n greeter = record greeter { authentication_sequence_number = n }

abbrev pub set_remote_session : Str → Greeter → Greeter
set_remote_session name greeter = record greeter { remote_session = some name }

-- Behind the reset.
unfoldable pub begin_login : World → ℕ → Str → Act
begin_login world sequence_number name = do
  modify (set_active_username name)
  put_out notified_active_username
  modify (set_sequence_number sequence_number)
  login world sequence_number (nonempty name)

unfoldable pub handle_authenticate : World → ℕ → Str → Act
handle_authenticate world sequence_number name = do
  reset_session
  begin_login world sequence_number name

unfoldable pub allow_guest_account : ℕ → Act
allow_guest_account sequence_number greeter =
    if not greeter.allow_guest
    then send_end_authentication sequence_number (some []) pam_user_unknown greeter
    else send_end_authentication sequence_number (some []) pam_success
        (record greeter { guest_account_authenticated = true })

unfoldable pub handle_authenticate_as_guest : ℕ → Act
handle_authenticate_as_guest sequence_number = do reset_session; allow_guest_account sequence_number

unfoldable pub has_slash : Str → Bool
has_slash [] = false
has_slash (c ∷ name) = c == b'/' || has_slash name

unfoldable pub get_remote_session_service : World → Str → Option Str
get_remote_session_service world session_name =
    if has_slash session_name then none else world.remote_service session_name

unfoldable pub set_up_remote : Str → Option Str → Session → Session
set_up_remote service username session = record session {
  pam_service = some service;
  username = username;
  do_authenticate = true;
  is_interactive = true;
  is_guest = true;
}

unfoldable pub authenticate_service : World → Str → Str → ℕ → Str → Act
authenticate_service world session_name name sequence_number service = do
  modify (set_sequence_number sequence_number)
  modify (set_remote_session session_name)
  start_authentication world sequence_number (set_up_remote service (nonempty name))

-- Behind the reset.
unfoldable pub begin_remote : World → Str → Str → ℕ → Act
begin_remote world session_name name sequence_number =
    if_null (get_remote_session_service world session_name)
      (send_end_authentication sequence_number (some []) pam_system_err)
      (authenticate_service world session_name name sequence_number)

unfoldable pub handle_authenticate_remote : World → Str → Str → ℕ → Act
handle_authenticate_remote world session_name name sequence_number = do
  reset_session
  begin_remote world session_name name sequence_number

unfoldable pub is_prompt : PamMessage → Bool
is_prompt m = m.msg_style == pam_prompt_echo_off || m.msg_style == pam_prompt_echo_on

unfoldable pub count_prompts : List PamMessage → ℕ
count_prompts [] = 0
count_prompts (m ∷ messages) = (if is_prompt m then 1 else 0) + count_prompts messages

-- `resp` of each response: the next secret for a prompt, NULL for the rest. The code compares the
-- numbers first, so it does not run out of secrets.
unfoldable pub build_response : List PamMessage → List Str → List (Option Str)
build_response [] secrets = []
build_response (m ∷ messages) [] = none ∷ build_response messages []
build_response (m ∷ messages) (secret ∷ secrets) =
    if is_prompt m
    then some secret ∷ build_response messages secrets
    else none ∷ build_response messages (secret ∷ secrets)

unfoldable pub respond : List (Option Str) → Session → Act
respond response session greeter =
    let (session', done) = session_respond session response in
    (record greeter { authentication_session = some session' }, session_did done ∷ [])

unfoldable pub continue_session : List Str → Session → Act
continue_session secrets session =
    if not (length secrets == count_prompts session.messages)
    then put_out (session_did (session_respond_error session pam_conv_err))
    else respond (build_response session.messages secrets) session

unfoldable pub handle_continue_authentication : List Str → Act
handle_continue_authentication secrets greeter =
    if_null greeter.authentication_session do_nothing (continue_session secrets) greeter

unfoldable pub handle_cancel_authentication : Act
handle_cancel_authentication greeter =
    if_null greeter.authentication_session do_nothing (λ session. reset_session) greeter

-- `session_get_is_authenticated` of NULL is FALSE.
unfoldable pub authenticated : Option Session → Bool
authenticated none = false
authenticated (some session) = session_get_is_authenticated session

-- START_SESSION and the answer to it.
unfoldable pub emit_start_session : World → SessionType → Option Str → Act
emit_start_session world type session greeter =
    let marked = record greeter { start_session = true } in
    (
      if world.takes then greeter_take_authentication_session marked else marked,
      emitted_start_session type session ∷ sent_message (session_result_message world.started) ∷ [],
    )

unfoldable pub is_allowed : Greeter → Bool
is_allowed greeter =
    greeter.guest_account_authenticated || authenticated greeter.authentication_session

unfoldable pub handle_start_session : World → Str → Act
handle_start_session world session greeter =
    if is_allowed greeter
    then if_null greeter.remote_session
        (emit_start_session world session_type_local (nonempty session))
        (λ remote. emit_start_session world session_type_remote (some remote)) greeter
    else (greeter, sent_message (session_result_message false) ∷ [])

unfoldable pub handle_set_language : Str → Act
handle_set_language language greeter =
    if not (is_allowed greeter)
    then (greeter, [])
    else if greeter.guest_account_authenticated
    then (greeter, [])
    else if_null greeter.authentication_session do_nothing
        (λ session. put_out (set_user_language session.username language)) greeter

unfoldable pub handle_ensure_shared_dir : World → Str → Act
handle_ensure_shared_dir world username =
    put_out (sent_message (shared_dir_message (world.shared_dir username)))

unfoldable pub no_responses : List PamMessage → List (Option Str)
no_responses [] = []
no_responses (m ∷ messages) = none ∷ no_responses messages

unfoldable pub pam_messages_cb : Session → Act
pam_messages_cb session greeter =
    let sent =
      sent_message
        (prompt_message greeter.authentication_sequence_number session.username session.messages) in
    if count_prompts session.messages == 0
    then (do put_out sent; respond (no_responses session.messages) session) greeter
    else (greeter, sent ∷ [])

-- Whether `session_get_user` finds a user.
unfoldable pub has_user : World → Option Str → Bool
has_user world none = false
has_user world (some name) = world.user_exists name

unfoldable pub end_result : World → Session → ℕ
end_result world session =
    if session_get_is_authenticated session && not (has_user world session.username)
    then pam_user_unknown
    else session.authentication_result

unfoldable pub authentication_complete_cb : World → Session → Act
authentication_complete_cb world session greeter =
    send_end_authentication greeter.authentication_sequence_number session.username
      (end_result world session) greeter
