-- ===== src/SessionChild/Child.antt =====
-- What src/session-child.c does with the command that the daemon sends it, and how it ends. The
-- functions of PAM, of the system and of the other files are answered by the record `System`.
use lightdm.Base.{
  ℕ, Bool, not, ◌&&◌, List, [], ◌∷◌, ◌++◌, Option, none, some, leb, ◌==◌, length, if◌then◌else◌,
  is_some,
}
use lightdm.Session.Authentication.{Str, pam_success}
use lightdm.XdmcpServer.State.{XAuthority}
use lightdm.XAuthorityFile.Records.{Read, ◌>>=◌, pure}
use lightdm.SessionChild.Pipe.{string_octets}
use lightdm.SessionChild.Reader.{read_number, pipe_string, read_xauth, read_strings, Configuration}

-- The command as the child reads it.
pub record Launch : Type 0 where
  pub log_filename : Option Str
  pub log_mode : ℕ
  pub tty : Option Str
  pub x_authority_filename : Option Str
  pub xdisplay : Option Str
  pub x_authority : Option XAuthority
  pub env : List (Option Str)
  pub argv : List (Option Str)

-- `LOG_MODE_BACKUP_AND_TRUNCATE` is what older daemons mean.
unfoldable pub read_log_mode : ℕ → Read ℕ
read_log_mode version = if leb 3 version then read_number 4 else pure 0

-- A value that only daemons from version 1 on send again.
unfoldable pub read_again {ℓ} : {A : Type ℓ} → ℕ → A → Read A → Read A
read_again version old read = if leb 1 version then read else pure old

unfoldable pub read_launch : ℕ → Configuration → Read Launch
read_launch version configuration = do
  log_filename ← pipe_string
  log_mode ← read_log_mode version
  tty ← read_again version configuration.tty pipe_string
  x_authority_filename ← pipe_string
  xdisplay ← read_again version configuration.xdisplay pipe_string
  x_authority ← read_again version configuration.x_authority read_xauth
  env_length ← read_number 8
  env ← read_strings env_length
  command_argc ← read_number 8
  argv ← read_strings command_argc
  pure record {
    log_filename = log_filename;
    log_mode = log_mode;
    tty = tty;
    x_authority_filename = x_authority_filename;
    xdisplay = xdisplay;
    x_authority = x_authority;
    env = env;
    argv = argv;
  }

-- What PAM and the system answer behind the authentication.
pub record System : Type 0 where
  pub is_root : Bool
  pub groups_set : Bool
  pub establish_result : ℕ
  pub open_result : ℕ
  pub bus : Bool
  pub login1_session_id : Option Str
  pub console_kit_cookie : Option Str
  pub authority_written : Bool
  pub exit_status : Option (Option ℕ)

-- What the child does, in order.
pub data ChildOutput : Type 0 where
  refreshed_credentials : ChildOutput
  established_credentials : ChildOutput
  opened_session : ChildOutput
  opened_console_kit : Str → ChildOutput
  told_daemon : List ℕ → ChildOutput
  wrote_authority : ChildOutput
  ran_command : List (Option Str) → ChildOutput
  removed_authority : ChildOutput
  closed_console_kit : Str → ChildOutput
  closed_session : ChildOutput
  deleted_credentials : ChildOutput
  ended_pam : ChildOutput

abbrev pub exit_failure : ℕ
exit_failure = 1

-- The outputs, and the exit status.
abbrev pub Exit : Type 0
Exit = List ChildOutput × ℕ

abbrev pub first : List ChildOutput → Exit → Exit
first outputs (more, status) = (outputs ++ more, status)

-- The two strings that tell the daemon which session it is; a daemon before version 2 is sent one.
unfoldable pub session_octets : ℕ → System → List ℕ
session_octets version system = elim system.login1_session_id [
  | none ↦
      (if leb 2 version then string_octets none else []) ++ string_octets system.console_kit_cookie
  | some id ↦ string_octets (some id) ++ (if leb 2 version then string_octets none else [])
]

-- The cookie of a ConsoleKit session that was opened.
abbrev pub cookie : System → Option Str
cookie system = if is_some system.login1_session_id then none else system.console_kit_cookie

abbrev pub open_console_kit : Option Str → List ChildOutput
open_console_kit none = []
open_console_kit (some c) = opened_console_kit c ∷ []

-- Behind the command.
unfoldable pub clean_up : System → Launch → List ChildOutput
clean_up system launch =
    (if is_some launch.x_authority then removed_authority ∷ [] else [])
    ++ elim (cookie system) [ none ↦ [] | some c ↦ closed_console_kit c ∷ [] ]
    ++ closed_session ∷ deleted_credentials ∷ ended_pam ∷ []

-- From the fork on. `exit_status` is `none` where the fork fails, and else the status of a command
-- that exits, which one that is killed has not.
unfoldable pub fork_command : System → Launch → Exit
fork_command system launch = elim system.exit_status [
  | none ↦ (clean_up system launch, exit_failure)
  | some exited ↦ (
    ran_command launch.argv ∷ clean_up system launch,
    elim exited [ none ↦ exit_failure | some status ↦ status ],
  )
]

unfoldable pub write_authority : System → Launch → Exit
write_authority system launch =
    if not (is_some launch.x_authority)
    then fork_command system launch
    else if system.authority_written
    then first (wrote_authority ∷ []) (fork_command system launch)
    else (ended_pam ∷ [], exit_failure)

-- The end of `session_child_run`, behind the reads of the command.
unfoldable pub run_launch : ℕ → System → Launch → Exit
run_launch version system launch =
    if length launch.argv == 0
    then (refreshed_credentials ∷ ended_pam ∷ [], 0)
    else if system.is_root && not system.groups_set
    then ([], exit_failure)
    else if not (system.establish_result == pam_success)
    then (ended_pam ∷ [], exit_failure)
    else if not (system.open_result == pam_success)
    then (established_credentials ∷ ended_pam ∷ [], exit_failure)
    else if not system.bus
    then (established_credentials ∷ opened_session ∷ ended_pam ∷ [], exit_failure)
    else first
        (established_credentials
          ∷ opened_session
          ∷ (open_console_kit (cookie system) ++ told_daemon (session_octets version system) ∷ []))
        (write_authority system launch)
