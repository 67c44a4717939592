-- ===== src/GreeterLibrary/Login.antt =====
-- What a greeter learns of an authentication, from the daemon's session (src/greeter.c) to the
-- library (liblightdm-gobject/greeter.c).
use lightdm.Base.{
  ℕ, ◌+◌, ◌<◌, ◌≡◌, refl, ap, ◌∙◌, subst, Bool, true, false, not, List, [], ◌∷◌, some, ◌==◌, ◌&&◌,
  if◌then◌else◌, if-false, ==_refl, if-either, length, length-append, arith, ◌>>=◌,
}
use lightdm.Session.Authentication.{
  Str, Session, session_get_is_authenticated, pam_success, pam_user_unknown,
}
use lightdm.Greeter.State.{Greeter, sent_message, World}
use lightdm.Greeter.Writer.{octets, text_of}
use lightdm.Greeter.Handlers.{
  authentication_complete_cb, send_end_authentication, end_result, has_user,
}
use lightdm.Greeter.Messages.{ServerMessage, end_authentication, written, payload_of}
use lightdm.GreeterLibrary.State.{LightdmGreeter, Output, authentication_complete}
use lightdm.GreeterLibrary.Receiving.{
  handle_received, handle_end_authentication, receive_message, user_or_null,
}
use lightdm.GreeterLibrary.Understanding.{IsClean, IsSound, understood, message_understood}

receives :
    (m : ServerMessage) (greeter : LightdmGreeter)
    → IsSound m
    → 8 + length (payload_of m) < 1024
    → receive_message (written m) greeter ≡ some (handle_received (understood m) greeter)
unfolding receive_message
receives m greeter sound small =
    ap (λ o. o >>= λ received. some (handle_received received greeter))
      (message_understood m sound small)

result_lem :
    (complete : Bool) (result : ℕ) (user : Bool)
    → complete ≡ true
    → ((if (complete && result == pam_success) && not user then pam_user_unknown else result) == 0)
      ≡ ((complete && result == pam_success) && user)
result_lem true result true e = ground arith
result_lem true result false e = ground arith
result_lem false result user e = cc

ended_state : LightdmGreeter → Str → Bool → LightdmGreeter × List Output
ended_state greeter username b = (
  record greeter {
    authentication_user = user_or_null username;
    cancelling_authentication = false;
    is_authenticated = b;
    in_authentication = false;
  },
  authentication_complete ∷ [],
)

awaited :
    (greeter : LightdmGreeter) (n code : ℕ) (username : Str) (b : Bool)
    → n ≡ greeter.authenticate_sequence_number
    → (code == 0) ≡ b
    → handle_end_authentication n username code greeter ≡ ended_state greeter username b
unfolding handle_end_authentication ended_state
awaited greeter n code username b same e =
    if-false (not (n == greeter.authenticate_sequence_number)) _ _
      (ap not (subst (λ k. (n == k) ≡ true) same (==_refl n)))
    ∙ ap (ended_state greeter username) e

-- The end of an authentication, as the daemon tells it to a greeter that waits for it: the greeter
-- counts as authenticated exactly if PAM has said success and the account exists. The result of the
-- session is there, the message has room, and the numbers of the two ends agree.
pub result_agrees :
    (world : World) (session : Session) (daemon : Greeter) (greeter : LightdmGreeter)
    → session.authentication_complete ≡ true
    → session.authentication_result < 4294967296
    → daemon.authentication_sequence_number < 4294967296
    → daemon.authentication_sequence_number ≡ greeter.authenticate_sequence_number
    → IsClean (text_of session.username)
    → length (text_of session.username) < 1000
    → (m : List ℕ) × ((authentication_complete_cb world session daemon).1 ≡ sent_message m ∷ [])
      × (receive_message m greeter
          ≡ some (
            record greeter {
              authentication_user = user_or_null (text_of session.username);
              cancelling_authentication = false;
              is_authenticated =
                  session_get_is_authenticated session && has_user world session.username;
              in_authentication = false;
            },
            authentication_complete ∷ [],
          ))
unfolding authentication_complete_cb send_end_authentication end_result session_get_is_authenticated
    handle_received handle_end_authentication ended_state
result_agrees world session daemon greeter complete bits number same clean short =
    let result = end_result world session in
    let m = end_authentication daemon.authentication_sequence_number session.username result in
    let sound : IsSound m = (
      number,
      clean,
      if-either (λ n. n < 4294967296)
          (session_get_is_authenticated session && not (has_user world session.username))
          (omega arith) bits,
    ) in
    (
      written m,
      refl,
      receives m greeter sound
            (omega (arith, short, length-append (text_of session.username) (octets result)))
          ∙ ap some (
              awaited greeter daemon.authentication_sequence_number result
                (text_of session.username) _ same
                (result_lem session.authentication_complete session.authentication_result
                  (has_user world session.username) complete)),
    )
