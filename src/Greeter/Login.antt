-- ===== src/Greeter/Login.antt =====
-- A login through a greeter, from PAM's success to START_SESSION (src/greeter.c).
use lightdm.Base.{
  ◌≡◌, refl, ap, Bool, true, false, [], ◌∷◌, Option, none, some, ◌∙◌, if-true, if◌then◌else◌, ◌||◌,
  not,
}
use lightdm.Session.Authentication.{
  Str, Session, session_get_is_authenticated, got_result, pam_success, pam_user_unknown,
}
use lightdm.Greeter.State.{
  Greeter, sent_message, emitted_start_session, World, Act, ◌>>◌, if_null, session_type_local,
}
use lightdm.Greeter.Handlers.{
  handle_start_session, authentication_complete_cb, send_end_authentication, authenticated,
  is_allowed, end_result, nonempty,
}
use lightdm.Greeter.Dispatch.{child_reports, with_session, on_session, step}
use lightdm.Greeter.Writer.{end_authentication_message, session_result_message}
use lightdm.Greeter.Handlers.{emit_start_session, has_user}

if_null-some :
    {A : Type 0} (o : Option A) (a : A) (f : Act) (g : A → Act) → o ≡ some a → if_null o f g ≡ g a
if_null-some o a f g e = rw e refl

if_null-none : {A : Type 0} (o : Option A) (f : Act) (g : A → Act) → o ≡ none → if_null o f g ≡ f
if_null-none o f g e = rw e refl

if-not : {A : Type 0} (b : Bool) (x y : A) → (if not b then x else y) ≡ (if b then y else x)
if-not true x y = refl
if-not false x y = refl

abbrev pub logged_in : Greeter → Session → Option Str → Greeter
logged_in greeter session username = record greeter {
  authentication_session = some (got_result username pam_success session);
}

succeed :
    (world : World) (greeter : Greeter) (session : Session) (username : Option Str)
    → greeter.authentication_session ≡ some session
    → greeter.listening ≡ true
    → step world (child_reports username pam_success) greeter ≡ (
      logged_in greeter session username,
      sent_message (
            end_authentication_message greeter.authentication_sequence_number username
              (if has_user world username then pam_success else pam_user_unknown))
          ∷ [],
    )
unfolding step on_session with_session authentication_complete_cb send_end_authentication end_result
    session_get_is_authenticated got_result
succeed world greeter session username current hears =
    ap (λ act. act greeter) (if_null-some greeter.authentication_session session _ _ current)
    ∙ if-true greeter.listening _ _ hears
    ∙ ap
        (λ r. (
          logged_in greeter session username,
          sent_message
                (end_authentication_message greeter.authentication_sequence_number username r)
              ∷ [],
        ))
        (if-not (has_user world username) pam_user_unknown pam_success)

or-true : (b : Bool) → (b || true) ≡ true
or-true true = refl
or-true false = refl

allowed :
    (greeter : Greeter) (session : Session) (username : Option Str)
    → is_allowed (logged_in greeter session username) ≡ true
unfolding is_allowed authenticated got_result session_get_is_authenticated
allowed greeter session username = or-true greeter.guest_account_authenticated

start :
    (world : World) (greeter : Greeter) (name : Str)
    → is_allowed greeter ≡ true
    → greeter.remote_session ≡ none
    → handle_start_session world name greeter
      ≡ emit_start_session world session_type_local (nonempty name) greeter
unfolding handle_start_session
start world greeter name permitted local =
    if-true (is_allowed greeter) _ _ permitted
    ∙ ap (λ act. act greeter) (if_null-none greeter.remote_session _ _ local)

-- Once the child of the session that the greeter listens to has reported PAM's success, the greeter
-- is told so, or told that the user is unknown where there is no such account; and a request to
-- start a session emits START_SESSION, for a local session with the name that was asked for, and is
-- answered with what the signal returned. The greeter has asked for no remote session.
pub login_starts :
    (reported asked : World) (greeter : Greeter) (session : Session) (username : Option Str)
    (name : Str)
    → greeter.authentication_session ≡ some session
    → greeter.listening ≡ true
    → greeter.remote_session ≡ none
    → ((step reported (child_reports username pam_success) >> handle_start_session asked name)
        greeter).1
      ≡ sent_message (
          end_authentication_message greeter.authentication_sequence_number username
            (if has_user reported username then pam_success else pam_user_unknown))
        ∷ emitted_start_session session_type_local (nonempty name)
        ∷ sent_message (session_result_message asked.started)
        ∷ []
unfolding emit_start_session
login_starts reported asked greeter session username name current hears local =
    rw
      (
        succeed reported greeter session username current hears,
        start asked (logged_in greeter session username) name (allowed greeter session username)
            local,
      )
      refl
