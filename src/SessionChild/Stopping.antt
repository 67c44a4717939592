-- ===== src/SessionChild/Stopping.antt =====
-- A session that is stopped before its command runs, and what is open while the command runs
-- (src/session.c, src/session-child.c).
use lightdm.Base.{
  ℕ, ◌≡◌, refl, sym, ap, ◌∙◌, append-nil, Bool, true, false, not, ◌&&◌, List, [], ◌∷◌, ◌++◌, Option,
  none, some, arith, if◌then◌else◌, if-true, if-false, is_some, str_eq,
}
use lightdm.Session.Authentication.{
  Str, Session, SessionOutput, terminated_login1, session_get_is_authenticated, session_stop,
  write_xauth, empty_command,
}
use lightdm.SessionChild.Pipe.{pipe_octets, Command, write_command, write_all}
use lightdm.SessionChild.Reader.{Configuration}
use lightdm.SessionChild.Child.{
  Launch, read_launch, System, ChildOutput, refreshed_credentials, established_credentials,
  opened_session, opened_console_kit, told_daemon, wrote_authority, ran_command, removed_authority,
  closed_console_kit, closed_session, deleted_credentials, ended_pam, run_launch,
}
use lightdm.SessionChild.RoundTrip.{command_read, launch_of, IsCommand}

-- Nothing at all; the log mode is `LOG_MODE_INVALID`.
abbrev pub no_command : Command
no_command = record {
  log_filename = none;
  log_mode = 4294967295;
  tty = none;
  x_authority_filename = none;
  xdisplay = none;
  x_authority = none;
  env = [];
  argv = [];
}

no_command_lem : IsCommand no_command
no_command_lem = record {
  log_filename = tt;
  log_mode = omega arith;
  tty = tt;
  x_authority_filename = tt;
  xdisplay = tt;
  x_authority = tt;
  env = tt;
  env_length = omega arith;
  argv = tt;
  argv_length = omega arith;
}

behind_terminate :
    (id : Option (List ℕ))
    → pipe_octets ((elim id [ none ↦ [] | some i ↦ terminated_login1 i ∷ [] ]) ++ empty_command)
      ≡ pipe_octets (write_command no_command)
unfolding pipe_octets write_command write_all write_xauth
behind_terminate none = refl
behind_terminate (some i) = refl

stop_octets :
    (session : Session)
    → session.stopping ≡ false
    → session_get_is_authenticated session ≡ true
    → session.command_run ≡ false
    → pipe_octets (session_stop session).1 ≡ pipe_octets (write_command no_command)
unfolding session_stop
stop_octets session running authenticated waiting =
    ap (λ (p : Session × List SessionOutput). pipe_octets p.1)
      (if-false session.stopping _ _ running
        ∙ if-true (session_get_is_authenticated session && not session.command_run) _ _
            (rw (authenticated, waiting)))
    ∙ behind_terminate session.login1_session_id

-- A session whose user is authenticated, but whose command has not run, is stopped by an empty
-- command: the session child reads it and ends with success, whatever the system answers, without
-- a session of PAM and without running anything.
pub stopped_cleanly :
    (session : Session) (configuration : Configuration) (system : System)
    → session.stopping ≡ false
    → session_get_is_authenticated session ≡ true
    → session.command_run ≡ false
    → (launch : Launch) × (read_launch 3 configuration (pipe_octets (session_stop session).1)
        ≡ some (launch, []))
      × (run_launch 3 system launch ≡ (refreshed_credentials ∷ ended_pam ∷ [], 0))
unfolding run_launch
stopped_cleanly session configuration system running authenticated waiting = (
  launch_of no_command,
  ap (read_launch 3 configuration)
        (stop_octets session running authenticated waiting ∙ sym (append-nil _))
      ∙ command_read no_command configuration [] no_command_lem,
  refl,
)

-- What is open in the child: PAM, credentials, the session of PAM, a session of ConsoleKit under its
-- cookie, the X authority.
pub record Open : Type 0 where
  pub pam : Bool
  pub credentials : Bool
  pub session : Bool
  pub console_kit : Option Str
  pub authority : Bool

-- What `session_child_run` has open when it has read the command.
abbrev pub started : Open
started = record {
  pam = true;
  credentials = false;
  session = false;
  console_kit = none;
  authority = false;
}

abbrev pub is_that : Str → Option Str → Bool
is_that c none = false
is_that c (some d) = str_eq c d

-- Whether each step is taken at its time: what is opened rests on what was opened before and is not
-- open yet, what is closed is open and nothing rests on it any more, the command runs in a session, and
-- nothing is open at the end. `authority` says whether an authority is needed.
abbrev pub follow : Bool → List ChildOutput → Open → Bool
follow authority [] o =
    not o.pam
    && not o.credentials
    && not o.session
    && not (is_some o.console_kit)
    && not o.authority
follow authority (refreshed_credentials ∷ outputs) o = o.pam && follow authority outputs o
follow authority (established_credentials ∷ outputs) o =
    o.pam && not o.credentials && follow authority outputs (record o { credentials = true })
follow authority (opened_session ∷ outputs) o =
    o.credentials && not o.session && follow authority outputs (record o { session = true })
follow authority (opened_console_kit c ∷ outputs) o =
    o.session
    && not (is_some o.console_kit)
    && follow authority outputs (record o { console_kit = some c })
follow authority (told_daemon octets ∷ outputs) o = o.session && follow authority outputs o
follow authority (wrote_authority ∷ outputs) o =
    o.session && not o.authority && follow authority outputs (record o { authority = true })
follow authority (ran_command argv ∷ outputs) o =
    o.session && (if authority then o.authority else true) && follow authority outputs o
follow authority (removed_authority ∷ outputs) o =
    o.authority && follow authority outputs (record o { authority = false })
follow authority (closed_console_kit c ∷ outputs) o =
    is_that c o.console_kit
    && not o.authority
    && follow authority outputs (record o { console_kit = none })
follow authority (closed_session ∷ outputs) o =
    o.session
    && not (is_some o.console_kit)
    && not o.authority
    && follow authority outputs (record o { session = false })
follow authority (deleted_credentials ∷ outputs) o =
    o.credentials && not o.session && follow authority outputs (record o { credentials = false })
follow authority (ended_pam ∷ outputs) o =
    o.pam && not o.credentials && follow authority outputs (record o { pam = false })

abbrev pub any_command : List ChildOutput → Bool
any_command [] = false
any_command (ran_command argv ∷ outputs) = true
any_command (refreshed_credentials ∷ outputs) = any_command outputs
any_command (established_credentials ∷ outputs) = any_command outputs
any_command (opened_session ∷ outputs) = any_command outputs
any_command (opened_console_kit c ∷ outputs) = any_command outputs
any_command (told_daemon octets ∷ outputs) = any_command outputs
any_command (wrote_authority ∷ outputs) = any_command outputs
any_command (removed_authority ∷ outputs) = any_command outputs
any_command (closed_console_kit c ∷ outputs) = any_command outputs
any_command (closed_session ∷ outputs) = any_command outputs
any_command (deleted_credentials ∷ outputs) = any_command outputs
any_command (ended_pam ∷ outputs) = any_command outputs

-- While the command runs.
abbrev in_session : Option Str → Bool → Open
in_session c b = record {
  pam = true;
  credentials = true;
  session = true;
  console_kit = c;
  authority = b;
}
