-- ===== src/SessionChild/Tests.antt =====
-- Runs of src/session.c with a session child (src/session-child.c).
use lightdm.Base.{
  ℕ, zero, suc, length, All, ◌<◌, ◌≡◌, refl, true, List, [], ◌∷◌, ◌++◌, Option, none, some, arith,
  codes,
}
use lightdm.Session.Authentication.{PamMessage, Session, session_stop, session_get_is_authenticated}
use lightdm.Seat.Create.{fresh_session}
use lightdm.SessionChild.Pipe.{string_octets, pipe_octets, Command, write_command}
use lightdm.SessionChild.Reader.{pipe_string}
use lightdm.SessionChild.Child.{
  Launch, System, read_launch, run_launch, refreshed_credentials, ended_pam,
}
use lightdm.SessionChild.RoundTrip.{
  configuration_of, IsSendable, launch_of, command_read, pipe_string-long,
}
use lightdm.SessionChild.Dialogue.{
  Answer, answered, refused, Pam, asks, returns, Reply, PamService, Finish, authenticate_user,
  log_in,
}
use lightdm.SessionChild.Fields.{IsLineOrNull}
use lightdm.SessionChild.Login.{converse_directly, lets_in, log_in_lem}
use lightdm.SessionChild.Stopping.{stopped_cleanly}
use lightdm.SessionChild.Stopping

abbrev session : Session
session = record fresh_session {
  pam_service = some (codes "pam");
  username = some (codes "al");
  do_authenticate = true;
  is_interactive = true;
}

-- The session once its child has been started.
abbrev started : Session
started = record session { pid = 100; authentication_started = true }

started_IsSendable : IsSendable started
started_IsSendable = record {
  service =
      ((λ e. omega (arith, e), (λ e. omega (arith, e), (λ e. omega (arith, e), tt))), omega arith);
  username = ((λ e. omega (arith, e), (λ e. omega (arith, e), tt)), omega arith);
  tty = tt;
  remote_host_name = tt;
  xdisplay = tt;
  x_authority = tt;
}

abbrev command : Command
command = record {
  log_filename = none;
  log_mode = 1;
  tty = none;
  x_authority_filename = some (codes "f");
  xdisplay = none;
  x_authority = some record {
    family = 256;
    address = 1 ∷ 2 ∷ [];
    number = codes "0";
    authorization_name = codes "M";
    authorization_data = 0 ∷ 9 ∷ [];
  };
  env = codes "A=b" ∷ [];
  argv = codes "x" ∷ codes "y" ∷ [];
}

command_read_example :
    read_launch 3 (configuration_of session) (pipe_octets (write_command command) ++ [])
    ≡ some (launch_of command, [])
command_read_example = command_read command (configuration_of session) [] record {
  log_filename = tt;
  log_mode = omega arith;
  tty = tt;
  x_authority_filename = ((λ e. omega (arith, e), tt), omega arith);
  xdisplay = tt;
  x_authority = (
    ((λ e. omega (arith, e), tt), omega arith),
    omega arith,
    omega arith,
    ((λ e. omega (arith, e), tt), omega arith),
    omega arith,
  );
  env = (
    ((λ e. omega (arith, e), (λ e. omega (arith, e), (λ e. omega (arith, e), tt))), omega arith),
    tt,
  );
  env_length = omega arith;
  argv = (
    ((λ e. omega (arith, e), tt), omega arith),
    (((λ e. omega (arith, e), tt), omega arith), tt),
  );
  argv_length = omega arith;
}

-- PAM asks for a password, and lets the user in who gives one.
abbrev verdict : Answer → ℕ
verdict (answered responses) = 0
verdict (refused error) = 7

verdict_small : (answer : Answer) → verdict answer < 4294967296
verdict_small (answered responses) = omega arith
verdict_small (refused error) = omega arith

abbrev after_password : Answer → Pam
after_password answer = returns (verdict answer) (some (codes "al"))

abbrev password : Pam
password =
    asks (some (codes "al")) (record { msg_style = 1; msg = some (codes "P") } ∷ []) after_password

-- The user gives the same answer to whatever is asked.
abbrev secrets : List PamMessage → List (Option (List ℕ))
secrets [] = []
secrets (m ∷ messages) = some (codes "s") ∷ secrets messages

secrets_lem :
    (messages : List PamMessage)
    → (length (secrets messages) ≡ length messages) × All IsLineOrNull (secrets messages)
secrets_lem [] = (refl, tt)
secrets_lem (m ∷ messages) = (
  omega (arith, (secrets_lem messages).0),
  (((λ e. omega (arith, e), tt), omega arith), (secrets_lem messages).1),
)

abbrev says_secret : Reply
says_secret username messages = answered (secrets messages)

abbrev pam : PamService
pam = record {
  authenticate = λ service username. password;
  start = λ service username. 0;
  get_item = 0;
  acct_mgmt = λ username. returns 0 none;
  chauthtok = λ username. returns 20 none;
  user_exists = λ name. true;
  strerror = λ result. none;
}

abbrev system : System
system = record {
  is_root = true;
  groups_set = true;
  establish_result = 0;
  open_result = 0;
  bus = true;
  login1_session_id = none;
  console_kit_cookie = some (codes "c1");
  authority_written = true;
  exit_status = some (some 0);
}

stopped_cleanly_example :
    (launch : Launch) × (read_launch 3
        (configuration_of session)
        (pipe_octets (session_stop (record session { authentication_complete = true })).1)
      ≡ some (launch, []))
    × (run_launch 3 system launch ≡ (refreshed_credentials ∷ ended_pam ∷ [], 0))
unfolding session_get_is_authenticated
stopped_cleanly_example =
    stopped_cleanly (record session { authentication_complete = true }) (configuration_of session)
      system refl refl refl

log_in_lem_example :
    (finish : Finish) × (authenticate_user
        (converse_directly true says_secret)
        pam
        (configuration_of started)
        started
      ≡ some finish)
    × (session' : Session) × (log_in says_secret pam started ≡ some session')
    × (session'.authentication_complete ≡ true)
    × (session_get_is_authenticated session' ≡ lets_in pam finish)
log_in_lem_example =
    log_in_lem says_secret pam started started_IsSendable (refl, refl)
      record {
        authenticates = (
          ((λ e. omega (arith, e), (λ e. omega (arith, e), tt)), omega arith),
          ((omega arith, ((λ e. omega (arith, e), tt), omega arith)), tt),
          omega arith,
          λ answer. (
            verdict_small answer,
            ((λ e. omega (arith, e), (λ e. omega (arith, e), tt)), omega arith),
          ),
        );
        accounts = λ username. (omega arith, tt);
        changes = λ username. (omega arith, tt);
        texts = λ result. tt;
      }
      (λ username messages. secrets_lem messages)

abbrev letters : ℕ → List ℕ
letters zero = []
letters (suc n) = 97 ∷ letters n

length-letters : (n : ℕ) → length (letters n) ≡ n
length-letters zero = refl
length-letters (suc n) = omega (arith, length-letters n)

pipe_string-long_example :
    pipe_string (string_octets (some (letters 65536)) ++ []) ≡ some (none, letters 65536 ++ [])
pipe_string-long_example =
    pipe_string-long (letters 65536) [] (omega (arith, length-letters 65536))
      (omega (arith, length-letters 65536))
