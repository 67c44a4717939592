-- ===== src/GreeterLibrary/Requests.antt =====
-- What a greeter asks the daemon, and the messages that say it (liblightdm-gobject/greeter.c).
use lightdm.Base.{
  ℕ, ◌+◌, ◌-◌, ◌%◌, ◌^◌, Bool, true, false, List, [], ◌∷◌, ◌++◌, Option, none, some, ◌==◌, leb,
  length, drop, if◌then◌else◌, ◌>>=◌,
}
use lightdm.Session.Authentication.{Str}
use lightdm.Greeter.Writer.{Buffer, octets, text_of, string_length}
use lightdm.Greeter.Reader.{read_int}
use lightdm.GreeterLibrary.State.{LightdmGreeter}

-- A write function fails where the buffer of 1024 octets has no room, and then nothing is sent.
abbrev pub TryWrite : Type 0
TryWrite = Buffer → Option Buffer

infixr 5 ◌>=>◌
abbrev pub ◌>=>◌ : TryWrite → TryWrite → TryWrite
◌>=>◌ f g buffer = f buffer >>= g

unfoldable pub try_int : ℕ → TryWrite
try_int value buffer = if leb 1024 (length buffer + 4) then none else some (buffer ++ octets value)

unfoldable pub try_text : Str → TryWrite
try_text text buffer =
    if leb 1024 (length buffer + length text) then none else some (buffer ++ text)

unfoldable pub try_string : Option Str → TryWrite
try_string value = try_int (length (text_of value)) >=> try_text (text_of value)

unfoldable pub try_header : ℕ → ℕ → TryWrite
try_header id payload_length = try_int id >=> try_int payload_length

unfoldable pub try_strings : List Str → TryWrite
try_strings [] buffer = some buffer
try_strings (text ∷ texts) buffer = try_string (some text) buffer >>= try_strings texts

-- `get_message_length`: the payload length in a header, as a guint32.
unfoldable pub stated_length : List ℕ → ℕ
stated_length message =
    let (payload_length, _) = read_int (drop 4 message) in (8 + payload_length) % 2 ^ 32

-- The check of `send_message`: nothing is written if the length is not the one stated.
unfoldable pub send_message : List ℕ → Option (List ℕ)
send_message message = if stated_length message == length message then some message else none

-- A write into an empty buffer, and the message that it makes.
abbrev pub send : TryWrite → Option (List ℕ)
send write = write [] >>= send_message

unfoldable pub send_connect : Str → Bool → Option (List ℕ)
send_connect version resettable = send (
    try_header 0 (string_length (some version) + 4 + 4)
    >=> try_string (some version)
    >=> try_int (if resettable then 1 else 0)
    >=> try_int 1)

unfoldable pub send_start_session : Option Str → Option (List ℕ)
send_start_session session = send (try_header 4 (string_length session) >=> try_string session)

unfoldable pub send_ensure_shared_data_dir : Option Str → Option (List ℕ)
send_ensure_shared_data_dir username =
    send (try_header 8 (string_length username) >=> try_string username)

-- A call of the library: the new state, and the message written to the daemon, if one is. Where a
-- call has no message it returns FALSE, except for `lightdm_greeter_respond`.
abbrev pub Call : Type 0
Call = LightdmGreeter → LightdmGreeter × Option (List ℕ)

-- The calls that a greeter that is not connected refuses.
abbrev when_connected : Call → Call
when_connected call greeter = if greeter.connected then call greeter else (greeter, none)

abbrev pub begin_authentication : Option Str → LightdmGreeter → LightdmGreeter
begin_authentication username greeter = record greeter {
  cancelling_authentication = false;
  authenticate_sequence_number = (greeter.authenticate_sequence_number + 1) % 2 ^ 32;
  in_authentication = true;
  is_authenticated = false;
  authentication_user = username;
}

unfoldable pub lightdm_greeter_authenticate : Option Str → Call
lightdm_greeter_authenticate username = when_connected λ greeter.
    let begun = begin_authentication username greeter in
    (
      begun,
      send (
          try_header 1 (4 + string_length username)
          >=> try_int begun.authenticate_sequence_number
          >=> try_string username),
    )

unfoldable pub lightdm_greeter_authenticate_as_guest : Call
lightdm_greeter_authenticate_as_guest = when_connected λ greeter.
    let begun = begin_authentication none greeter in
    (begun, send (try_header 2 4 >=> try_int begun.authenticate_sequence_number))

unfoldable pub lightdm_greeter_authenticate_remote : Option Str → Option Str → Call
lightdm_greeter_authenticate_remote session username = when_connected λ greeter.
    let begun = begin_authentication none greeter in
    (
      begun,
      send (
          try_header 7 (4 + string_length session + string_length username)
          >=> try_int begun.authenticate_sequence_number
          >=> try_string session
          >=> try_string username),
    )

unfoldable pub responses_length : List Str → ℕ
responses_length [] = 0
responses_length (response ∷ responses) = string_length (some response) + responses_length responses

unfoldable pub send_responses : List Str → Option (List ℕ)
send_responses responses = send (
    try_header 3 (4 + responses_length responses)
    >=> try_int (length responses)
    >=> try_strings responses)

-- The last response sends them all. Where that fails they stay in the list.
abbrev pub end_responses : LightdmGreeter → Option (List ℕ) → LightdmGreeter × Option (List ℕ)
end_responses greeter none = (greeter, none)
end_responses greeter (some message) = (record greeter { responses_received = [] }, some message)

unfoldable pub lightdm_greeter_respond : Str → Call
lightdm_greeter_respond response = when_connected λ greeter.
    let responses = greeter.responses_received ++ response ∷ [] in
    let responded = record greeter {
      n_responses_waiting = greeter.n_responses_waiting - 1;
      responses_received = responses;
    } in
    if greeter.n_responses_waiting == 0
    then (greeter, none)
    else if greeter.n_responses_waiting == 1
    then end_responses responded (send_responses responses)
    else (responded, none)

unfoldable pub lightdm_greeter_cancel_authentication : Call
lightdm_greeter_cancel_authentication =
    when_connected
      λ greeter. (record greeter { cancelling_authentication = true }, send (try_header 5 0))

unfoldable pub lightdm_greeter_set_language : Option Str → Call
lightdm_greeter_set_language language =
    when_connected
      λ greeter. (greeter, send (try_header 6 (string_length language) >=> try_string language))

-- The asynchronous calls: request `n` waits for the answer. The last two wait for it even where
-- nothing could be sent.
abbrev pub queue_if_sent : ℕ → LightdmGreeter → Option (List ℕ) → LightdmGreeter × Option (List ℕ)
queue_if_sent n greeter none = (greeter, none)
queue_if_sent n greeter (some message) =
    (record greeter { connect_requests = greeter.connect_requests ++ n ∷ [] }, some message)

unfoldable pub lightdm_greeter_connect_to_daemon : Str → ℕ → Call
lightdm_greeter_connect_to_daemon version n greeter =
    queue_if_sent n greeter (send_connect version greeter.resettable)

unfoldable pub lightdm_greeter_start_session : Option Str → ℕ → Call
lightdm_greeter_start_session session n greeter = (
  record greeter { start_session_requests = greeter.start_session_requests ++ n ∷ [] },
  send_start_session session,
)

unfoldable pub lightdm_greeter_ensure_shared_data_dir : Option Str → ℕ → Call
lightdm_greeter_ensure_shared_data_dir username n greeter = (
  record greeter {
    ensure_shared_data_dir_requests = greeter.ensure_shared_data_dir_requests ++ n ∷ [];
  },
  send_ensure_shared_data_dir username,
)
