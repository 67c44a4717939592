-- ===== src/SessionChild/Dialogue.antt =====
-- The dialogue of PAM, in the session child (src/session-child.c), with whoever answers for the user,
-- behind the session of the daemon (src/session.c).
use lightdm.Base.{
  ℕ, zero, suc, Bool, false, not, ◌&&◌, ◌||◌, List, [], ◌∷◌, Option, none, some, ◌==◌, length,
  if◌then◌else◌,
}
use lightdm.Session.Authentication.{
  Str, PamMessage, Session, SessionOutput, pam_success, pam_conv_err, pam_user_unknown,
  pam_prompt_echo_on, pam_prompt_echo_off, write_configuration, child_exited, got_messages,
  got_result, session_respond, session_respond_error,
}
use lightdm.XAuthorityFile.Records.{Read, ◌>>=◌, pure}
use lightdm.SessionChild.Pipe.{pipe_octets, conversation_octets, result_octets}
use lightdm.SessionChild.Reader.{
  Configuration, read_number, pipe_string, read_configuration, is_set,
}

-- What `pam_conv_cb` gives PAM: the responses, or an error.
pub data Answer : Type 0 where
  answered : List (Option Str) → Answer
  refused : ℕ → Answer

-- A call of PAM: it asks, for the user it has at that time, and goes on with the answer; or it
-- returns, with the user it has then.
pub data Pam : Type 0 where
  asks : Option Str → List PamMessage → (Answer → Pam) → Pam
  returns : ℕ → Option Str → Pam

-- PAM as the child calls it: the calls that hold conversations, and the results of `pam_start` and of
-- `pam_get_item`. `pam_strerror` gives the text of a result.
pub record PamService : Type 0 where
  pub start : Option Str → Option Str → ℕ
  pub authenticate : Option Str → Option Str → Pam
  pub get_item : ℕ
  pub acct_mgmt : Option Str → Pam
  pub chauthtok : Option Str → Pam
  pub user_exists : Str → Bool
  pub strerror : ℕ → Option Str

-- Who answers, given the user and what PAM says; in the daemon that is a greeter.
abbrev pub Reply : Type 0
Reply = Option Str → List PamMessage → Answer

-- Of `pam_conv_cb`.
unfoldable pub wants_input : List PamMessage → Bool
wants_input [] = false
wants_input (m ∷ messages) =
    m.msg_style == pam_prompt_echo_on || m.msg_style == pam_prompt_echo_off || wants_input messages

unfoldable pub answer_alone : List PamMessage → Answer
answer_alone messages = if wants_input messages then refused pam_conv_err else answered []

unfoldable pub read_responses : ℕ → Read (List (Option Str))
read_responses zero = pure []
read_responses (suc n) = do
  resp ← pipe_string
  resp_retcode ← read_number 4
  responses ← read_responses n
  pure (resp ∷ responses)

unfoldable pub read_answer : ℕ → Read Answer
read_answer msg_length = do
  error ← read_number 4
  if not (error == pam_success)
      then pure (refused error)
      else do responses ← read_responses msg_length; pure (answered responses)

-- What `from_child_cb` reads.
pub data Report : Type 0 where
  messages_of : Option Str → List PamMessage → Report
  result_of : Option Str → ℕ → Option Str → Report

unfoldable pub read_messages : ℕ → Read (List PamMessage)
read_messages zero = pure []
read_messages (suc n) = do
  msg_style ← read_number 4
  msg ← pipe_string
  messages ← read_messages n
  pure (record { msg_style = msg_style; msg = msg } ∷ messages)

unfoldable pub read_report : Read Report
read_report = do
  username ← pipe_string
  auth_complete ← read_number 4
  if is_set auth_complete
      then (do
        authentication_result ← read_number 4
        authentication_result_string ← pipe_string
        pure (result_of username authentication_result authentication_result_string))
      else (do
        messages_length ← read_number 4
        messages ← read_messages messages_length
        pure (messages_of username messages))

-- The daemon's side of an answer.
unfoldable pub reply_with : Answer → Session → Session × List SessionOutput
reply_with (answered responses) session = session_respond session responses
reply_with (refused error) session = (session, session_respond_error session error)

-- The daemon hears `octets`, which are to be messages, and replies.
unfoldable pub hear : Reply → List ℕ → Session → Option (Session × List SessionOutput)
hear reply octets session = elim (read_report octets) [
  | none ↦ none
  | some report ↦ elim (report.0) [
    | messages_of username messages ↦
        some (reply_with (reply username messages) (got_messages username messages session))
    | result_of username result text ↦ none
  ]
]

-- How a call of PAM ends: its result and the user, and the session in the daemon. `none` is a
-- dialogue in which one side does not understand the other.
abbrev pub Ended : Type 0
Ended = ℕ × Option Str × Session

-- The child behind its write of the messages: the daemon's answer comes, and PAM goes on.
unfoldable pub over_pipe : Bool → Reply → Pam → Session → Option Ended
over_pipe is_interactive reply (returns result username) session = some (result, username, session)
over_pipe is_interactive reply (asks username messages next) session =
    if not is_interactive
    then over_pipe is_interactive reply (next (answer_alone messages)) session
    else elim (hear reply (conversation_octets username messages) session) [
      | none ↦ none
      | some heard ↦ elim (read_answer (length messages) (pipe_octets heard.1)) [
        | none ↦ none
        | some answer ↦ over_pipe is_interactive reply (next answer.0) heard.0
      ]
    ]

-- `PAM_NEW_AUTHTOK_REQD`.
abbrev pub new_authtok_reqd : ℕ
new_authtok_reqd = 12

abbrev pub chain {ℓ κ} : {A : Type ℓ} {B : Type κ} → Option A → (A → Option B) → Option B
chain none f = none
chain (some a) f = f a

-- How the child ends its authentication: with a report, or by an exit before it.
pub data Finish : Type 0 where
  reported : ℕ → Option Str → Session → Finish
  left : Session → Finish

abbrev pub with_user : Option Str → Ended → Option Ended
with_user username (result, other, session) = some (result, username, session)

-- `converse` is how PAM talks. The user stays the one that it authenticated.
module _ (converse : Pam → Session → Option Ended) (pam : PamService) where
  -- Whether the account is valid.
  unfoldable pub check_account : Ended → Option Ended
  check_account (result, username, session) =
      if result == pam_success
      then chain (converse (pam.acct_mgmt username) session) (with_user username)
      else some (result, username, session)

  -- A new password, where one is asked for.
  unfoldable pub renew : Ended → Option Ended
  renew (result, username, session) =
      if result == new_authtok_reqd
      then chain (converse (pam.chauthtok username) session) (with_user username)
      else some (result, username, session)

  abbrev pub report : Ended → Option Finish
  report (result, username, session) = some (reported result username session)

  unfoldable pub behind_account : Ended → Option Finish
  behind_account checked = chain (renew checked) report

  unfoldable pub behind_authenticate : Ended → Option Finish
  behind_authenticate (result, username, session) =
      if not (pam.get_item == pam_success)
      then some (left session)
      else chain (check_account (result, username, session)) behind_account

  -- What the child does between its configuration and its report.
  unfoldable pub authenticate_user : Configuration → Session → Option Finish
  authenticate_user configuration session =
      if not (pam.start configuration.service configuration.username == pam_success)
      then some (left session)
      else if not configuration.do_authenticate
      then some (reported pam_success configuration.username session)
      else chain (converse (pam.authenticate configuration.service configuration.username) session)
          behind_authenticate

abbrev pub exists : PamService → Option Str → Bool
exists pam none = false
exists pam (some username) = pam.user_exists username

-- A user that PAM let in has to exist.
unfoldable pub final_result : PamService → ℕ → Option Str → ℕ
final_result pam result username =
    if result == pam_success && not (exists pam username) then pam_user_unknown else result

-- The report of the child, as the daemon takes it.
abbrev pub taken : Session → Report × List ℕ → Option Session
taken session (messages_of username messages, rest) = none
taken session (result_of username result text, rest) = some (got_result username result session)

unfoldable pub take_report : List ℕ → Session → Option Session
take_report octets session = chain (read_report octets) (taken session)

-- What the daemon learns: the report, or that the child is gone.
unfoldable pub learn : PamService → Finish → Option Session
learn pam (reported result username session) =
    let final = final_result pam result username in
    take_report (result_octets username final (pam.strerror final)) session
learn pam (left session) = some (child_exited session).0

-- The child behind its configuration, which the version does not matter for.
unfoldable pub log_in_as :
    Reply → PamService → Session → (ℕ × Configuration) × List ℕ → Option Session
log_in_as reply pam session ((version, configuration), rest) =
    chain
      (authenticate_user (over_pipe configuration.is_interactive reply) pam configuration session)
      (learn pam)

-- From the configuration that the daemon sends to the result that it receives.
unfoldable pub log_in : Reply → PamService → Session → Option Session
log_in reply pam session =
    chain (read_configuration (pipe_octets (write_configuration session)))
      (log_in_as reply pam session)
