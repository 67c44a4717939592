-- ===== src/GreeterLibrary/Tests.antt =====
-- Exchanges between liblightdm-gobject/greeter.c and src/greeter.c.
use lightdm.Base.{
  ℕ, zero, suc, ◌≡◌, refl, true, false, List, [], ◌∷◌, ◌++◌, map, none, some, arith, codes,
}
use lightdm.Session.Authentication.{Session, session_get_is_authenticated}
use lightdm.Seat.Create.{fresh_session}
use lightdm.Greeter.State.{Greeter, sent_message, World, new_greeter}
use lightdm.Greeter.Writer.{octets, string_length}
use lightdm.Greeter.Frame.{frame}
use lightdm.Greeter.Reader.{read_int}
use lightdm.Greeter.Handlers.{authentication_complete_cb, has_user}
use lightdm.Greeter.Dispatch.{read_message, run}
use lightdm.Greeter.Delivery.{Callback, arrives}
use lightdm.Greeter.Messages.{ServerMessage, prompt_authentication, end_authentication, written}
use lightdm.GreeterLibrary.State.{LightdmGreeter, new_lightdm_greeter, authentication_complete}
use lightdm.GreeterLibrary.Receiving.{
  read_received, receive_message, asked, handle_received, handle_end_authentication,
}
use lightdm.GreeterLibrary.Calls.{
  next_number, Request, authenticates, sets_language, sent_by, meaning, request_payload,
}
use lightdm.GreeterLibrary.Requests.{
  lightdm_greeter_authenticate, try_int, try_string, try_header, try_text, send_message,
  stated_length,
}
use lightdm.GreeterLibrary.Exchange.{
  request_delivered, request_refused, request_refines, called_directly,
}
use lightdm.GreeterLibrary.Understanding.{message_understood}
use lightdm.GreeterLibrary.History.{receive_all, results_of, last_succeeds, authenticated_only}
use lightdm.GreeterLibrary.Login.{result_agrees}

abbrev world : World
world = record {
  version = codes "1";
  created = none;
  start_results = record { pipes = true; guest_account = none; child = some 100 };
  takes = true;
  started = true;
  user_exists = λ name. true;
  remote_service = λ name. none;
  shared_dir = λ name. none;
}

-- A connected greeter, and its request for the user al.
abbrev greeter : LightdmGreeter
greeter = record new_lightdm_greeter { connected = true }

abbrev al : Request
al = authenticates (some (codes "al"))

abbrev al_message : List ℕ
al_message = frame 1 (request_payload al greeter)

request_delivered_example :
    (m : List ℕ) × (sent_by al greeter ≡ some m) × (read_message m ≡ meaning al greeter)
request_delivered_example =
    request_delivered al greeter refl ((λ e. omega (arith, e), (λ e. omega (arith, e), tt)), tt)
      (omega arith)

-- A text of `n` letters.
abbrev letters : ℕ → List ℕ
letters zero = []
letters (suc n) = 97 ∷ letters n

abbrev long_language : Request
long_language = sets_language (some (letters 1020))

request_refused_example : sent_by long_language greeter ≡ none
request_refused_example = request_refused long_language greeter refl (omega arith)

abbrev rest_of_al : List Callback
rest_of_al = (octets 10, some (octets 1)) ∷ (octets 2 ++ codes "al", none) ∷ []

request_refines_example :
    run (map (arrives world) ((octets 1, none) ∷ rest_of_al)) new_greeter
    ≡ called_directly world (meaning al greeter) al_message new_greeter
unfolding lightdm_greeter_authenticate try_int try_string try_header try_text send_message
    stated_length read_int string_length
request_refines_example =
    request_refines world al greeter new_greeter al_message (octets 1, none) rest_of_al refl
      ((λ e. omega (arith, e), (λ e. omega (arith, e), tt)), tt) (omega arith) (omega arith) refl
      ((
        omega arith,
        λ h. omega arith,
        (omega arith, refl, omega arith, (omega arith, λ h. absurd (omega (arith, h)), refl)),
      ))

abbrev password_prompt : ServerMessage
password_prompt =
    prompt_authentication 7 (some (codes "al"))
      (record { msg_style = 1; msg = some (codes "Hi") } ∷ [])

message_understood_example :
    read_received (written password_prompt) ≡ some (asked 7 (codes "al") ((1, codes "Hi") ∷ []))
message_understood_example =
    message_understood password_prompt
      (
        omega arith,
        (λ e. omega (arith, e), (λ e. omega (arith, e), tt)),
        ((omega arith, (λ e. omega (arith, e), (λ e. omega (arith, e), tt))), tt),
      )
      (omega arith)

abbrev session : Session
session = record fresh_session { username = some (codes "al"); authentication_complete = true }

abbrev waiting : LightdmGreeter
waiting = record greeter { authenticate_sequence_number = 7; in_authentication = true }

abbrev daemon : Greeter
daemon = record new_greeter { authentication_sequence_number = 7 }

result_agrees_example :
    (m : List ℕ) × ((authentication_complete_cb world session daemon).1 ≡ sent_message m ∷ [])
    × (receive_message m waiting
        ≡ some (
          record waiting {
            authentication_user = some (codes "al");
            cancelling_authentication = false;
            is_authenticated = true;
            in_authentication = false;
          },
          authentication_complete ∷ [],
        ))
unfolding session_get_is_authenticated has_user
result_agrees_example =
    result_agrees world session daemon waiting refl (omega arith) (omega arith) refl
      (λ e. omega (arith, e), (λ e. omega (arith, e), tt)) (omega arith)

-- An older authentication has failed; then this one succeeds.
abbrev told : List (List ℕ)
told =
    written (end_authentication 6 none 7)
    ∷ written (end_authentication 7 (some (codes "al")) 0)
    ∷ []

abbrev older : LightdmGreeter
older = record waiting { authenticate_sequence_number = 6 }

abbrev let_in : LightdmGreeter
let_in = record waiting {
  authentication_user = some (codes "al");
  is_authenticated = true;
  in_authentication = false;
}

receives_told :
    receive_all told (lightdm_greeter_authenticate (some (codes "al")) older).0 ≡ some let_in
unfolding receive_all receive_message lightdm_greeter_authenticate handle_received
    handle_end_authentication
receives_told = rw (
  message_understood (end_authentication 6 none 7) (omega arith, tt, omega arith) (omega arith),
  message_understood (end_authentication 7 (some (codes "al")) 0)
      (omega arith, (λ e. omega (arith, e), (λ e. omega (arith, e), tt)), omega arith)
      (omega arith),
)

authenticated_only_example :
    let_in.is_authenticated ≡ last_succeeds false (results_of (next_number older) told)
authenticated_only_example =
    authenticated_only (some (codes "al")) told older let_in refl receives_told
