-- ===== src/Greeter/LockedHandlers.antt =====
-- Each handler of src/greeter.c keeps a locked greeter locked.
use lightdm.Base.{ℕ, ◌≡◌, refl, ap, false, List, [], Option, some, not, ◌==◌, length}
use lightdm.Session.Authentication.{
  Str, Session, session_get_is_authenticated, session_respond, session_respond_error, pam_conv_err,
  pam_user_unknown, pam_system_err,
}
use lightdm.Greeter.State.{Greeter, session_did, notified_active_username, World, modify}
use lightdm.Greeter.Handlers.{
  handle_authenticate, handle_authenticate_as_guest, handle_authenticate_remote,
  handle_continue_authentication, handle_cancel_authentication, handle_start_session,
  handle_set_language, allow_guest_account, respond, authenticate_service, continue_session,
  is_allowed, begin_login, begin_remote, set_active_username, set_sequence_number,
  set_remote_session, set_up_remote, nonempty, count_prompts, build_response,
  get_remote_session_service,
}
use lightdm.Greeter.Locked.{
  IsLocked, Locked, Locked->>, Locked-send, Locked-put, Locked-nothing, Locked-if_null,
  Locked-reset, Locked-modify, set-session, Locked-start_authentication, Locked-login,
  locked-if_false, locked-if_true, act-if_either, on-session, any_start, is_start, StaysLocked,
  IsFresh,
}

pub Locked-sequence_number : (n : ℕ) → Locked (modify (set_sequence_number n))
Locked-sequence_number n = Locked-modify (set_sequence_number n) λ greeter l. record {
  no_guest = l.no_guest;
  not_guest = l.not_guest;
  not_authenticated = l.not_authenticated;
}

pub Locked-active_username : (name : Str) → Locked (modify (set_active_username name))
Locked-active_username name = Locked-modify (set_active_username name) λ greeter l. record {
  no_guest = l.no_guest;
  not_guest = l.not_guest;
  not_authenticated = l.not_authenticated;
}

pub Locked-remote_session : (name : Str) → Locked (modify (set_remote_session name))
Locked-remote_session name = Locked-modify (set_remote_session name) λ greeter l. record {
  no_guest = l.no_guest;
  not_guest = l.not_guest;
  not_authenticated = l.not_authenticated;
}

pub Locked-begin_login :
    (world : World) (n : ℕ) (name : Str) → IsFresh world.created → Locked (begin_login world n name)
unfolding begin_login is_start
Locked-begin_login world n name fresh = Locked->> (Locked-active_username name) (
    Locked->> (Locked-put notified_active_username refl)
      (Locked->> (Locked-sequence_number n) (Locked-login world n (nonempty name) fresh)))

pub Locked-authenticate :
    (world : World) (n : ℕ) (name : Str)
    → IsFresh world.created
    → Locked (handle_authenticate world n name)
unfolding handle_authenticate
Locked-authenticate world n name fresh =
    Locked->> Locked-reset (Locked-begin_login world n name fresh)

pub Locked-guest : (n : ℕ) → Locked (allow_guest_account n)
unfolding allow_guest_account
Locked-guest n = record {
  locked = λ greeter l.
      let send = Locked-send n (some []) pam_user_unknown in
      locked-if_true (not greeter.allow_guest) _ _ (ap not l.no_guest) (send.locked greeter l);
}

pub Locked-authenticate_as_guest : (n : ℕ) → Locked (handle_authenticate_as_guest n)
unfolding handle_authenticate_as_guest
Locked-authenticate_as_guest n = Locked->> Locked-reset (Locked-guest n)

pub Locked-service :
    (world : World) (session_name name : Str) (n : ℕ) (service : Str)
    → IsFresh world.created
    → Locked (authenticate_service world session_name name n service)
unfolding authenticate_service set_up_remote
Locked-service world session_name name n service fresh = Locked->> (Locked-sequence_number n) (
    Locked->> (Locked-remote_session session_name) (
      Locked-start_authentication world n (set_up_remote service (nonempty name)) fresh (λ s e. e)))

pub Locked-begin_remote :
    (world : World) (session_name name : Str) (n : ℕ)
    → IsFresh world.created
    → Locked (begin_remote world session_name name n)
unfolding begin_remote
Locked-begin_remote world session_name name n fresh =
    Locked-if_null (get_remote_session_service world session_name)
      (Locked-send n (some []) pam_system_err)
      (λ service. Locked-service world session_name name n service fresh)

pub Locked-authenticate_remote :
    (world : World) (session_name name : Str) (n : ℕ)
    → IsFresh world.created
    → Locked (handle_authenticate_remote world session_name name n)
unfolding handle_authenticate_remote
Locked-authenticate_remote world session_name name n fresh =
    Locked->> Locked-reset (Locked-begin_remote world session_name name n fresh)

pub respond_locked :
    (response : List (Option Str)) (session : Session) (greeter : Greeter)
    → IsLocked greeter
    → session_get_is_authenticated session ≡ false
    → StaysLocked (respond response session greeter)
unfolding respond session_respond any_start is_start session_get_is_authenticated
respond_locked response session greeter l e =
    (set-session greeter (record session { messages = [] }) greeter.listening l e, refl)

continue_locked :
    (secrets : List Str) (session : Session) (greeter : Greeter)
    → IsLocked greeter
    → session_get_is_authenticated session ≡ false
    → StaysLocked (continue_session secrets session greeter)
unfolding continue_session is_start
continue_locked secrets session greeter l e =
    let refuse = Locked-put (session_did (session_respond_error session pam_conv_err)) refl in
    act-if_either (not (length secrets == count_prompts session.messages)) _ _
      (refuse.locked greeter l)
      (respond_locked (build_response session.messages secrets) session greeter l e)

pub Locked-continue : (secrets : List Str) → Locked (handle_continue_authentication secrets)
unfolding handle_continue_authentication
Locked-continue secrets = record {
  locked = λ greeter l.
      on-session (continue_session secrets) greeter greeter.authentication_session l
        l.not_authenticated Locked-nothing
        (λ session e. continue_locked secrets session greeter l e);
}

pub Locked-cancel : Locked handle_cancel_authentication
unfolding handle_cancel_authentication
Locked-cancel = record {
  locked = λ greeter.
      let step = Locked-if_null greeter.authentication_session Locked-nothing (λ _. Locked-reset) in
      step.locked greeter;
}

not_allowed : (greeter : Greeter) → IsLocked greeter → is_allowed greeter ≡ false
unfolding is_allowed
not_allowed greeter l = simp (l.not_guest, l.not_authenticated)

pub Locked-start : (world : World) (name : Str) → Locked (handle_start_session world name)
unfolding handle_start_session any_start is_start
Locked-start world name = record {
  locked = λ greeter l. locked-if_false (is_allowed greeter) _ _ (not_allowed greeter l) (l, refl);
}

pub Locked-language : (language : Str) → Locked (handle_set_language language)
unfolding handle_set_language any_start
Locked-language language = record {
  locked = λ greeter l.
      locked-if_true (not (is_allowed greeter)) _ _ (ap not (not_allowed greeter l)) (l, refl);
}
