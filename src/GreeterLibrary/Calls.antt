-- ===== src/GreeterLibrary/Calls.antt =====
-- The calls of the library that send a message (liblightdm-gobject/greeter.c), and what each means to
-- the daemon (src/greeter.c).
use lightdm.Base.{
  ℕ, ◌+◌, ◌%◌, ◌^◌, ◌≡◌, true, List, [], ◌∷◌, ◌++◌, Option, some, length, if◌then◌else◌,
}
use lightdm.Session.Authentication.{Str}
use lightdm.Greeter.Writer.{octets, text_of}
use lightdm.Greeter.Frame.{text_field}
use lightdm.Greeter.Fields.{text_fields}
use lightdm.Greeter.Dispatch.{
  GreeterMessage, connect, authenticate, authenticate_as_guest, continue_authentication,
  start_session, cancel_authentication, set_language, authenticate_remote, ensure_shared_dir,
}
use lightdm.GreeterLibrary.State.{LightdmGreeter}
use lightdm.GreeterLibrary.Requests.{
  Call, lightdm_greeter_authenticate, lightdm_greeter_authenticate_as_guest,
  lightdm_greeter_authenticate_remote, lightdm_greeter_respond,
  lightdm_greeter_cancel_authentication, lightdm_greeter_set_language,
  lightdm_greeter_connect_to_daemon, lightdm_greeter_start_session,
  lightdm_greeter_ensure_shared_data_dir,
}

-- The calls that send a message; `responds` is the last response that the daemon waits for.
pub data Request : Type 0 where
  connects : Str → Request
  authenticates : Option Str → Request
  authenticates_guest : Request
  authenticates_remote : Option Str → Option Str → Request
  responds : Str → Request
  cancels : Request
  sets_language : Option Str → Request
  starts_session : Option Str → Request
  ensures_dir : Option Str → Request

abbrev pub call_of : Request → Call
call_of (connects version) = lightdm_greeter_connect_to_daemon version 0
call_of (authenticates username) = lightdm_greeter_authenticate username
call_of authenticates_guest = lightdm_greeter_authenticate_as_guest
call_of (authenticates_remote session username) =
    lightdm_greeter_authenticate_remote session username
call_of (responds response) = lightdm_greeter_respond response
call_of cancels = lightdm_greeter_cancel_authentication
call_of (sets_language language) = lightdm_greeter_set_language language
call_of (starts_session session) = lightdm_greeter_start_session session 0
call_of (ensures_dir username) = lightdm_greeter_ensure_shared_data_dir username 0

-- The message that is written, if any.
abbrev pub sent_by : Request → LightdmGreeter → Option (List ℕ)
sent_by request greeter = (call_of request greeter).1

abbrev pub next_number : LightdmGreeter → ℕ
next_number greeter = (greeter.authenticate_sequence_number + 1) % 2 ^ 32

abbrev pub all_responses : Str → LightdmGreeter → List Str
all_responses response greeter = greeter.responses_received ++ response ∷ []

-- The message that the daemon is to read.
abbrev pub meaning : Request → LightdmGreeter → GreeterMessage
meaning (connects version) greeter = connect greeter.resettable 1
meaning (authenticates username) greeter = authenticate (next_number greeter) (text_of username)
meaning authenticates_guest greeter = authenticate_as_guest (next_number greeter)
meaning (authenticates_remote session username) greeter =
    authenticate_remote (next_number greeter) (text_of session) (text_of username)
meaning (responds response) greeter = continue_authentication (all_responses response greeter)
meaning cancels greeter = cancel_authentication
meaning (sets_language language) greeter = set_language (text_of language)
meaning (starts_session session) greeter = start_session (text_of session)
meaning (ensures_dir username) greeter = ensure_shared_dir (text_of username)

abbrev pub request_id : Request → ℕ
request_id (connects version) = 0
request_id (authenticates username) = 1
request_id authenticates_guest = 2
request_id (authenticates_remote session username) = 7
request_id (responds response) = 3
request_id cancels = 5
request_id (sets_language language) = 6
request_id (starts_session session) = 4
request_id (ensures_dir username) = 8

abbrev pub request_payload : Request → LightdmGreeter → List ℕ
request_payload (connects version) greeter =
    text_field (some version) ++ (octets (if greeter.resettable then 1 else 0) ++ octets 1)
request_payload (authenticates username) greeter =
    octets (next_number greeter) ++ text_field username
request_payload authenticates_guest greeter = octets (next_number greeter)
request_payload (authenticates_remote session username) greeter =
    octets (next_number greeter) ++ (text_field session ++ text_field username)
request_payload (responds response) greeter =
    octets (length (all_responses response greeter)) ++ text_fields (all_responses response greeter)
request_payload cancels greeter = []
request_payload (sets_language language) greeter = text_field language
request_payload (starts_session session) greeter = text_field session
request_payload (ensures_dir username) greeter = text_field username

-- A greeter that may make the call: it is connected, and the daemon waits for one response.
abbrev pub CanCall : Request → LightdmGreeter → Type 0
CanCall (connects version) greeter = Unit
CanCall (responds response) greeter = (greeter.connected ≡ true) × (greeter.n_responses_waiting ≡ 1)
CanCall (starts_session session) greeter = Unit
CanCall (ensures_dir username) greeter = Unit
CanCall request greeter = greeter.connected ≡ true

-- The texts of the call have no NUL, as C strings.
abbrev pub texts_of : Request → LightdmGreeter → List Str
texts_of (connects version) greeter = version ∷ []
texts_of (authenticates username) greeter = text_of username ∷ []
texts_of authenticates_guest greeter = []
texts_of (authenticates_remote session username) greeter = text_of session ∷ text_of username ∷ []
texts_of (responds response) greeter = all_responses response greeter
texts_of cancels greeter = []
texts_of (sets_language language) greeter = text_of language ∷ []
texts_of (starts_session session) greeter = text_of session ∷ []
texts_of (ensures_dir username) greeter = text_of username ∷ []
