-- ===== src/SessionChild/Login.antt =====
-- The login of a user, from the configuration of the session to the result of PAM (src/session.c,
-- src/session-child.c).
use lightdm.Base.{
  ℕ, ◌<◌, ◌≡◌, refl, sym, ap, subst, ◌∙◌, Bool, true, false, not, ◌&&◌, List, [], ◌++◌, append-nil,
  Option, none, some, ◌==◌, length, arith, if◌then◌else◌, if-either, if-known,
}
use lightdm.Session.Authentication.{
  child_exited, Str, PamMessage, Session, pam_success, got_result, session_get_is_authenticated,
  write_configuration,
}
use lightdm.XAuthorityFile.Records.{and_then, pure}
use lightdm.SessionChild.Pipe.{number_octets, string_octets, pipe_octets, result_octets}
use lightdm.SessionChild.Reader.{pipe_string, read_configuration}
use lightdm.SessionChild.Fields.{IsLineOrNull, read_number-octets, pipe_string-octets}
use lightdm.SessionChild.RoundTrip.{IsSendable, configuration_of, configuration_read}
use lightdm.SessionChild.Dialogue.{
  Answer, answered, refused, Pam, asks, returns, PamService, Reply, answer_alone, read_report,
  result_of, Ended, over_pipe, Finish, reported, left, with_user, report, check_account, renew,
  behind_account, behind_authenticate, new_authtok_reqd, authenticate_user, exists, final_result,
  take_report, chain, taken, learn, log_in_as, log_in,
}
use lightdm.SessionChild.Refinement.{IsAnswer, CanSay, spoken, directly, dialogue_refines}

-- What PAM says when a session logs in can be said over the pipes.
pub record CanServe (pam : PamService) (session : Session) : Type 0 where
  pub authenticates : CanSay (pam.authenticate session.pam_service session.username)
  pub accounts : (username : Option Str) → CanSay (pam.acct_mgmt username)
  pub changes : (username : Option Str) → CanSay (pam.chauthtok username)
  pub texts : (result : ℕ) → IsLineOrNull (pam.strerror result)

-- The child was started, and has not given a result.
abbrev pub IsWaiting : Session → Type 0
IsWaiting session =
    (session.authentication_started ≡ true) × (session.authentication_complete ≡ false)

abbrev IsResult : Ended → Type 0
IsResult (result, username, session) =
    (result < 4294967296) × IsLineOrNull username × IsWaiting session

abbrev IsFinish : Finish → Type 0
IsFinish (reported result username session) = (result < 4294967296) × IsLineOrNull username
IsFinish (left session) = IsWaiting session

spoken-IsWaiting :
    (username : Option Str) (messages : List PamMessage) (answer : Answer) (session : Session)
    → IsWaiting session
    → IsWaiting (spoken username messages answer session)
spoken-IsWaiting username messages (answered responses) session h = h
spoken-IsWaiting username messages (refused error) session h = h

directly-IsResult :
    (is_interactive : Bool) (reply : Reply) (pam : Pam) (session : Session)
    → CanSay pam
    → IsWaiting session
    → IsResult (directly is_interactive reply pam session)
directly-IsResult is_interactive reply (returns result username) session (small, user) w =
    (small, user, w)
directly-IsResult true reply (asks username messages next) session (user, said, few, more) w =
    let answer = reply username messages in
    directly-IsResult true reply (next answer) (spoken username messages answer session)
      (more answer) (spoken-IsWaiting username messages answer session w)
directly-IsResult false reply (asks username messages next) session (user, said, few, more) w =
    directly-IsResult false reply (next (answer_alone messages)) session
      (more (answer_alone messages)) w

-- PAM talks to whoever answers, without pipes.
abbrev pub converse_directly : Bool → Reply → Pam → Session → Option Ended
converse_directly is_interactive reply pam session =
    some (directly is_interactive reply pam session)

abbrev Ends {ℓ} : {A : Type 0} → (A → Type ℓ) → Option A → Type ℓ
Ends {A = A} P o = (a : A) × (o ≡ some a) × P a

chain-Ends :
    {A B : Type 0} (P : A → Type 0) (Q : B → Type 0) (o : Option A) (f : A → Option B)
    → Ends P o
    → ((a : A) → P a → Ends Q (f a))
    → Ends Q (chain o f)
chain-Ends P Q o f (a, e, p) h = subst (λ k. Ends Q (chain k f)) (sym e) (h a p)

chain_same :
    {A B : Type 0} (o : Option A) (f g : A → Option B)
    → ((a : A) → f a ≡ g a)
    → chain o f ≡ chain o g
chain_same none f g h = refl
chain_same (some a) f g h = h a

module _ (reply : Reply) (pam : PamService) (session : Session) (h : CanServe pam session) where
  abbrev direct : Pam → Session → Option Ended
  direct = converse_directly session.is_interactive reply

  -- A call of PAM that keeps the user.
  call-Ends :
      (call : Pam) (username : Option Str) (s : Session)
      → CanSay call
      → IsLineOrNull username
      → IsWaiting s
      → Ends IsResult (chain (direct call s) (with_user username))
  call-Ends call username s said user w =
      let ended = directly session.is_interactive reply call s in
      let (small, _, waits) = directly-IsResult session.is_interactive reply call s said w in
      ((ended.0, username, ended.2), refl, (small, user, waits))

  check_account-Ends :
      (ended : Ended) → IsResult ended → Ends IsResult (check_account direct pam ended)
  unfolding check_account
  check_account-Ends (result, username, s) (small, user, w) =
      if-either (Ends IsResult) (result == pam_success)
        (call-Ends (pam.acct_mgmt username) username s (h.accounts username) user w)
        ((result, username, s), refl, (small, user, w))

  renew-Ends : (ended : Ended) → IsResult ended → Ends IsResult (renew direct pam ended)
  unfolding renew
  renew-Ends (result, username, s) (small, user, w) =
      if-either (Ends IsResult) (result == new_authtok_reqd)
        (call-Ends (pam.chauthtok username) username s (h.changes username) user w)
        ((result, username, s), refl, (small, user, w))

  behind_authenticate-Ends :
      (ended : Ended) → IsResult ended → Ends IsFinish (behind_authenticate direct pam ended)
  unfolding behind_authenticate behind_account
  behind_authenticate-Ends (result, username, s) r =
      if-either (Ends IsFinish) (not (pam.get_item == pam_success))
        (let (small, user, w) = r in (left s, refl, w))
        (chain-Ends IsResult IsFinish _ _ (check_account-Ends (result, username, s) r) (λ checked c.
          chain-Ends IsResult IsFinish _ _ (renew-Ends checked c)
            (λ (n, u, t) (small, user, w). (reported n u t, refl, (small, user)))))

  authenticate_user-Ends :
      IsSendable session
      → IsWaiting session
      → Ends IsFinish (authenticate_user direct pam (configuration_of session) session)
  unfolding authenticate_user
  authenticate_user-Ends sendable w =
      let service = pam.authenticate session.pam_service session.username in
      if-either (Ends IsFinish)
        (not (pam.start session.pam_service session.username == pam_success))
        (left session, refl, w)
        (if-either (Ends IsFinish) (not session.do_authenticate)
          (reported pam_success session.username session, refl, (omega arith, sendable.username))
          (behind_authenticate-Ends (directly session.is_interactive reply service session)
            (directly-IsResult session.is_interactive reply service session h.authenticates w)))

  module _
      (answers : (username : Option Str) (messages : List PamMessage)
        → IsAnswer (length messages) (reply username messages)) where
    abbrev piped : Pam → Session → Option Ended
    piped = over_pipe session.is_interactive reply

    check_account_same :
        (ended : Ended) → check_account piped pam ended ≡ check_account direct pam ended
    unfolding check_account
    check_account_same (result, username, s) = rw (
        dialogue_refines session.is_interactive reply (pam.acct_mgmt username) s
          (h.accounts username) answers)

    renew_same : (ended : Ended) → renew piped pam ended ≡ renew direct pam ended
    unfolding renew
    renew_same (result, username, s) = rw (
        dialogue_refines session.is_interactive reply (pam.chauthtok username) s
          (h.changes username) answers)

    behind_same :
        (ended : Ended) → behind_authenticate piped pam ended ≡ behind_authenticate direct pam ended
    unfolding behind_authenticate behind_account
    behind_same (result, username, s) =
        ap (λ o. if not (pam.get_item == pam_success) then some (left s) else o)
          (ap (λ o. chain o (behind_account piped pam)) (check_account_same (result, username, s))
            ∙ chain_same (check_account direct pam (result, username, s)) _ _
                (λ checked. ap (λ o. chain o (report piped pam)) (renew_same checked)))

    -- Nothing is lost over the pipes.
    authenticate_user_lem :
        authenticate_user piped pam (configuration_of session) session
        ≡ authenticate_user direct pam (configuration_of session) session
    unfolding authenticate_user
    authenticate_user_lem =
        let service = pam.authenticate session.pam_service session.username in
        rw (
          dialogue_refines session.is_interactive reply service session h.authenticates answers,
          behind_same (directly session.is_interactive reply service session),
        )

read_report-result :
    (username : Option Str) (result : ℕ) (text : Option Str)
    → IsLineOrNull username
    → result < 4294967296
    → IsLineOrNull text
    → read_report (result_octets username result text) ≡ some (result_of username result text, [])
unfolding read_report result_octets
read_report-result username result text h small k =
    rw
      (
        pipe_string-octets username
            (number_octets 4 1 ++ (number_octets 4 result ++ string_octets text)) h,
        read_number-octets 4 1 (number_octets 4 result ++ string_octets text) refl,
        read_number-octets 4 result (string_octets text) (omega arith),
      )
      (ap (λ o. and_then o (λ read. pure (result_of username result read)))
        (subst (λ bs. pipe_string bs ≡ some (text, [])) (append-nil (string_octets text))
          (pipe_string-octets text [] k)))

take_report-octets :
    (username : Option Str) (result : ℕ) (text : Option Str) (session : Session)
    → IsLineOrNull username
    → result < 4294967296
    → IsLineOrNull text
    → take_report (result_octets username result text) session
      ≡ some (got_result username result session)
unfolding take_report
take_report-octets username result text session h small k =
    ap (λ o. chain o (taken session)) (read_report-result username result text h small k)

agree_lem :
    (result : ℕ) (known : Bool)
    → ((if result == 0 && not known then 10 else result) == 0) ≡ (result == 0 && known)
agree_lem result true = ground arith
agree_lem result false = ground arith

read_lem :
    (session : Session)
    → IsSendable session
    → read_configuration (pipe_octets (write_configuration session))
      ≡ some ((3, configuration_of session), [])
read_lem session h =
    subst (λ bs. read_configuration bs ≡ some ((3, configuration_of session), []))
      (append-nil (pipe_octets (write_configuration session))) (configuration_read session [] h)

-- Whether the user is let in.
abbrev pub lets_in : PamService → Finish → Bool
lets_in pam (reported result username session) = result == pam_success && exists pam username
lets_in pam (left session) = false

-- What the daemon learns.
Learns : PamService → Finish → Option Session → Type 0
Learns pam finish o =
    (session : Session) × (o ≡ some session)
    × (session.authentication_complete ≡ true)
    × (session_get_is_authenticated session ≡ lets_in pam finish)

gone_lem :
    (session : Session)
    → IsWaiting session
    → ((child_exited session).0.authentication_complete ≡ true)
      × (session_get_is_authenticated (child_exited session).0 ≡ false)
unfolding child_exited session_get_is_authenticated
gone_lem session (started, incomplete) =
    if-known {A = Session × Bool}
      (λ (r : Session × Bool).
        (r.0.authentication_complete ≡ true) × (session_get_is_authenticated r.0 ≡ false))
      (session.authentication_started && not session.authentication_complete) (λ e. (refl, refl))
      (λ e. absurd (both e))
  where
    both : (session.authentication_started && not session.authentication_complete) ≡ false → ⊥
    both e = cc

learn_lem :
    (pam : PamService) (session : Session) (finish : Finish)
    → CanServe pam session
    → IsFinish finish
    → Learns pam finish (learn pam finish)
unfolding Learns learn final_result session_get_is_authenticated got_result
learn_lem pam session (reported result username session') h (small, user) = (
  got_result username (final_result pam result username) session',
  take_report-octets username _ _ session' user
      (if-either (λ n. n < 4294967296) (result == pam_success && not (exists pam username))
        (omega arith) small)
      (h.texts _),
  refl,
  agree_lem result (exists pam username),
)
learn_lem pam session (left session') h w =
    let (complete, out) = gone_lem session' w in ((child_exited session').0, refl, complete, out)

-- A session logs its user in over the pipes as if PAM talked to whoever answers directly: the child
-- has the configuration of the session; all calls of PAM that hold conversations, about the password,
-- the account and a new password, get the answers to their questions, and the dialogue comes to an
-- end. The daemon then has a result: the user counts as authenticated exactly if the child reports
-- success and the account exists, and not where the child exits without a report. The child was started
-- and has given no result before; what is said can be said over the pipes; an answer has as many
-- responses as there are messages or is an error.
pub log_in_lem :
    (reply : Reply) (pam : PamService) (session : Session)
    → IsSendable session
    → IsWaiting session
    → CanServe pam session
    → ((username : Option Str) (messages : List PamMessage)
        → IsAnswer (length messages) (reply username messages))
    → (finish : Finish) × (authenticate_user
          (converse_directly session.is_interactive reply)
          pam
          (configuration_of session)
          session
        ≡ some finish)
      × (session' : Session) × (log_in reply pam session ≡ some session')
      × (session'.authentication_complete ≡ true)
      × (session_get_is_authenticated session' ≡ lets_in pam finish)
unfolding log_in log_in_as Learns
log_in_lem reply pam session sendable w h answers =
    let (finish, direct, result) = authenticate_user-Ends reply pam session h sendable w in
    let (session', learns, complete, agrees) = learn_lem pam session finish h result in
    (
      finish,
      direct,
      session',
      ap (λ o. chain o (log_in_as reply pam session)) (read_lem session sendable)
          ∙ ap (λ o. chain o (learn pam))
              (authenticate_user_lem reply pam session h answers ∙ direct)
          ∙ learns,
      complete,
      agrees,
    )
