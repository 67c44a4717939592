-- ===== src/Session/Authentication.antt =====
-- The part of src/session.c that takes part in authentication: what PAM asks, the answers, the
-- result, and the stop. What is written to the session child is a list of the values written.
use lightdm.Base.{
  ℕ, Bool, true, false, List, [], ◌∷◌, ◌++◌, Option, none, some, ◌&&◌, ◌||◌, not, ◌==◌, length,
  if◌then◌else◌,
}
use lightdm.XdmcpServer.State.{XAuthority}

abbrev pub Str : Type 0
Str = List ℕ

-- Results of PAM, with the numbers of Linux-PAM; as the bits of an `int`.
abbrev pub pam_success : ℕ
pam_success = 0

abbrev pub pam_system_err : ℕ
pam_system_err = 4

abbrev pub pam_user_unknown : ℕ
pam_user_unknown = 10

abbrev pub pam_conv_err : ℕ
pam_conv_err = 19

abbrev pub pam_prompt_echo_off : ℕ
pam_prompt_echo_off = 1

abbrev pub pam_prompt_echo_on : ℕ
pam_prompt_echo_on = 2

-- `struct pam_message`.
pub record PamMessage : Type 0 where
  pub msg_style : ℕ
  pub msg : Option Str

-- `pid` is 0 while there is no child process, and -1 where the fork failed.
pub record Session : Type 0 where
  pub pid : ℕ
  pub username : Option Str
  pub is_guest : Bool
  pub pam_service : Option Str
  pub do_authenticate : Bool
  pub is_interactive : Bool
  pub messages : List PamMessage
  pub authentication_started : Bool
  pub authentication_complete : Bool
  pub authentication_result : ℕ
  pub login1_session_id : Option Str
  pub tty : Option Str
  pub xdisplay : Option Str
  pub remote_host_name : Option Str
  pub x_authority : Option XAuthority
  pub command_run : Bool
  pub stopping : Bool

-- What a session does to the outside: values written to the child (an int, a gsize, a guint16, a
-- string or NULL, octets), SIGTERM to the child, the end of its login1 session, the signal STOPPED.
pub data SessionOutput : Type 0 where
  wrote_number : ℕ → SessionOutput
  wrote_size : ℕ → SessionOutput
  wrote_short : ℕ → SessionOutput
  wrote_data : List ℕ → SessionOutput
  wrote_string : Option Str → SessionOutput
  killed : ℕ → SessionOutput
  terminated_login1 : Str → SessionOutput
  signalled_stopped : SessionOutput

unfoldable pub session_get_is_authenticated : Session → Bool
session_get_is_authenticated session =
    session.authentication_complete && session.authentication_result == pam_success

unfoldable pub write_responses : List (Option Str) → List SessionOutput
write_responses [] = []
write_responses (resp ∷ rs) = wrote_string resp ∷ wrote_number 0 ∷ write_responses rs

-- Each `resp_retcode` is the 0 of `calloc`. The code writes `messages_length` responses; the
-- callers pass as many.
unfoldable pub session_respond : Session → List (Option Str) → Session × List SessionOutput
session_respond session response =
    (record session { messages = [] }, wrote_number pam_success ∷ write_responses response)

unfoldable pub session_respond_error : Session → ℕ → List SessionOutput
session_respond_error session error = if error == pam_success then [] else wrote_number error ∷ []

abbrev pub flag : Bool → ℕ
flag b = if b then 1 else 0

-- What the system gives `session_real_start`: the pipes, the guest account, and the process id of
-- the child unless the fork fails.
pub record StartResults : Type 0 where
  pub pipes : Bool
  pub guest_account : Option Str
  pub child : Option ℕ

-- The code takes the values from the session instead of the argument; the callers pass that, or NULL.
unfoldable pub write_xauth : Option XAuthority → List SessionOutput
write_xauth none = wrote_string none ∷ []
write_xauth (some x) =
    wrote_string (some x.authorization_name)
    ∷ wrote_short x.family
    ∷ wrote_size (length x.address)
    ∷ wrote_data x.address
    ∷ wrote_string (some x.number)
    ∷ wrote_size (length x.authorization_data)
    ∷ wrote_data x.authorization_data
    ∷ []

-- The configuration that the child is sent.
unfoldable pub write_configuration : Session → List SessionOutput
write_configuration session =
    wrote_number 3
    ∷ wrote_string session.pam_service
    ∷ wrote_string session.username
    ∷ wrote_number (flag session.do_authenticate)
    ∷ wrote_number (flag session.is_interactive)
    ∷ wrote_string none
    ∷ wrote_string session.tty
    ∷ wrote_string session.remote_host_name
    ∷ wrote_string session.xdisplay
    ∷ write_xauth session.x_authority

-- The -1 of a fork that fails, as the bits of a GPid.
abbrev pub no_child : ℕ
no_child = 4294967295

-- The end of `session_real_start`, from the fork on.
unfoldable pub start_child : StartResults → Session → Session × List SessionOutput
start_child results session = elim results.child [
  | none ↦ (record session { pid = no_child }, [])
  | some pid ↦
      (record session { pid = pid; authentication_started = true }, write_configuration session)
]

unfoldable pub session_start : StartResults → Session → Session × List SessionOutput
session_start results session =
    if not (session.pid == 0)
    then (session, [])
    else if not results.pipes
    then (session, [])
    else elim session.username [
      | some name ↦ start_child results session
      | none ↦
          if session.is_guest
          then elim results.guest_account [
            | none ↦ (session, [])
            | some name ↦ start_child results (record session { username = some name })
          ]
          else start_child results session
    ]

unfoldable pub session_real_stop : Session → List SessionOutput
session_real_stop session =
    if session.pid == 0 || session.pid == no_child
    then signalled_stopped ∷ []
    else killed session.pid ∷ []

-- The values that end the child cleanly: no log file (mode -1), no terminal, no X authority file,
-- no display, no X authority, an empty environment and an empty command.
abbrev pub empty_command : List SessionOutput
empty_command =
    wrote_string none
    ∷ wrote_number 4294967295
    ∷ wrote_string none
    ∷ wrote_string none
    ∷ wrote_string none
    ∷ wrote_string none
    ∷ wrote_size 0
    ∷ wrote_size 0
    ∷ []

abbrev terminate_login1 : Option Str → List SessionOutput
terminate_login1 none = []
terminate_login1 (some id) = terminated_login1 id ∷ []

-- The daemon runs as root.
unfoldable pub session_stop : Session → Session × List SessionOutput
session_stop session =
    let stopped = record session { stopping = true } in
    if session.stopping
    then (session, [])
    else if session_get_is_authenticated session && not session.command_run
    then (
      record stopped { command_run = true },
      terminate_login1 session.login1_session_id ++ empty_command,
    )
    else (stopped, terminate_login1 session.login1_session_id ++ session_real_stop session)

-- `from_child_cb` after its read of the user name: the state behind each of its two signals.
unfoldable pub got_messages : Option Str → List PamMessage → Session → Session
got_messages username messages session = record session { username = username; messages = messages }

unfoldable pub got_result : Option Str → ℕ → Session → Session
got_result username result session = record session {
  username = username;
  authentication_complete = true;
  authentication_result = result;
}

-- `session_watch_cb`, when the child has gone, and whether it emits AUTHENTICATION_COMPLETE.
unfoldable pub child_exited : Session → Session × Bool
child_exited session =
    let gone = record session { pid = 0 } in
    if session.authentication_started && not session.authentication_complete
    then (
      record gone { authentication_complete = true; authentication_result = pam_conv_err },
      true,
    )
    else (gone, false)
