-- ===== src/Greeter/Dispatch.antt =====
-- The reading of messages from a greeter and their dispatch, `read_cb` of src/greeter.c, and the
-- signals of its session.
use lightdm.Base.{
  ℕ, zero, suc, ◌+◌, ◌-◌, ◌%◌, Bool, true, false, List, [], ◌∷◌, ◌++◌, Option, none, some, not,
  ◌==◌, ◌&&◌, leb, ltb, length, if◌then◌else◌,
}
use lightdm.Session.Authentication.{
  Str, PamMessage, Session, got_messages, got_result, child_exited,
}
use lightdm.Greeter.State.{
  Greeter, GreeterOutput, emitted_disconnected, World, Act, ◌>>◌, do_nothing, if_null,
  greeter_take_authentication_session, greeter_stop,
}
use lightdm.Greeter.Reader.{read_int, read_string, read_secrets, sign_extend, get_message_length}
use lightdm.Greeter.Handlers.{
  handle_connect, handle_authenticate, handle_authenticate_as_guest, handle_authenticate_remote,
  handle_continue_authentication, handle_cancel_authentication, handle_start_session,
  handle_set_language, handle_ensure_shared_dir, pam_messages_cb, authentication_complete_cb,
}

-- A message from the greeter, read: the local variables of a case of the `switch`.
-- `too_many_secrets` is the return in the case of CONTINUE_AUTHENTICATION.
pub data GreeterMessage : Type 0 where
  connect : Bool → ℕ → GreeterMessage
  authenticate : ℕ → Str → GreeterMessage
  authenticate_as_guest : ℕ → GreeterMessage
  continue_authentication : List Str → GreeterMessage
  start_session : Str → GreeterMessage
  cancel_authentication : GreeterMessage
  set_language : Str → GreeterMessage
  authenticate_remote : ℕ → Str → Str → GreeterMessage
  ensure_shared_dir : Str → GreeterMessage
  too_many_secrets : GreeterMessage
  unknown : ℕ → GreeterMessage

-- `offset < length`, for a buffer of `n_read` octets.
abbrev before_end : ℕ → ℕ → List ℕ → Bool
before_end n_read size rest = ltb (n_read - length rest) size

unfoldable pub read_connect : ℕ → ℕ → List ℕ → GreeterMessage
read_connect n_read size rest =
    let (_, rest1) = read_string rest in
    let (resettable, rest2) = if before_end n_read size rest1 then read_int rest1 else (0, rest1) in
    let (api_version, _) = if before_end n_read size rest2 then read_int rest2 else (0, rest2) in
    connect (not (resettable == 0)) api_version

unfoldable pub read_continue : List ℕ → GreeterMessage
read_continue rest =
    let (n_secrets, rest') = read_int rest in
    let (secrets, _) = read_secrets n_secrets rest' in
    if ltb 536870911 n_secrets then too_many_secrets else continue_authentication secrets

unfoldable pub read_authenticate : List ℕ → GreeterMessage
read_authenticate rest =
    let (sequence_number, rest') = read_int rest in
    let (username, _) = read_string rest' in authenticate sequence_number username

unfoldable pub read_authenticate_remote : List ℕ → GreeterMessage
read_authenticate_remote rest =
    let (sequence_number, rest1) = read_int rest in
    let (session_name, rest2) = read_string rest1 in
    let (username, _) = read_string rest2 in
    authenticate_remote sequence_number session_name username

unfoldable pub read_as_guest : List ℕ → GreeterMessage
read_as_guest rest =
    let (sequence_number, _) = read_int rest in authenticate_as_guest sequence_number

unfoldable pub read_text : (Str → GreeterMessage) → List ℕ → GreeterMessage
read_text message rest = let (text, _) = read_string rest in message text

-- The reads in the `switch` of `read_cb`, by the id.
unfoldable pub read_payload : ℕ → ℕ → ℕ → List ℕ → GreeterMessage
read_payload id n_read size rest =
    if id == 0
    then read_connect n_read size rest
    else if id == 1
    then read_authenticate rest
    else if id == 2
    then read_as_guest rest
    else if id == 3
    then read_continue rest
    else if id == 4
    then read_text start_session rest
    else if id == 5
    then cancel_authentication
    else if id == 6
    then read_text set_language rest
    else if id == 7
    then read_authenticate_remote rest
    else if id == 8
    then read_text ensure_shared_dir rest
    else unknown id

-- The whole buffer, from offset 0 on.
unfoldable pub read_message : List ℕ → GreeterMessage
read_message buffer =
    let (id, rest) = read_int buffer in
    let (payload_length, rest') = read_int rest in
    read_payload id (length buffer) (sign_extend ((8 + payload_length) % 4294967296)) rest'

unfoldable pub handle_message : World → GreeterMessage → Act
handle_message world (connect resettable api_version) = handle_connect world resettable api_version
handle_message world (authenticate sequence_number username) =
    handle_authenticate world sequence_number username
handle_message world (authenticate_as_guest sequence_number) =
    handle_authenticate_as_guest sequence_number
handle_message world (continue_authentication secrets) = handle_continue_authentication secrets
handle_message world (start_session session_name) = handle_start_session world session_name
handle_message world cancel_authentication = handle_cancel_authentication
handle_message world (set_language language) = handle_set_language language
handle_message world (authenticate_remote sequence_number session_name username) =
    handle_authenticate_remote world session_name username sequence_number
handle_message world (ensure_shared_dir username) = handle_ensure_shared_dir world username
handle_message world too_many_secrets = do_nothing
handle_message world (unknown id) = do_nothing

-- What `g_io_channel_read_chars` gives: octets, the end of the file, or neither.
pub data ReadChars : Type 0 where
  chars : List ℕ → ReadChars
  eof : ReadChars
  not_normal : ReadChars

-- The greeter, what was done, and the result of the callback: whether it is called again.
pub record ReadResult : Type 0 where
  pub greeter : Greeter
  pub outputs : List GreeterOutput
  pub continues : Bool

abbrev pub result : Greeter → List GreeterOutput → Bool → ReadResult
result greeter outputs continues = record {
  greeter = greeter;
  outputs = outputs;
  continues = continues;
}

unfoldable pub is_refused : GreeterMessage → Bool
is_refused too_many_secrets = true
is_refused message = false

-- `n_read = 0` behind a handler.
abbrev pub clear_buffer : Greeter → Greeter
clear_buffer greeter = record greeter { read_buffer = [] }

abbrev pub handled : Greeter × List GreeterOutput → ReadResult
handled (greeter, outputs) = result (clear_buffer greeter) outputs true

-- The message is complete. In the case of too many secrets the buffer is left as it is.
unfoldable pub dispatch : World → Greeter → ReadResult
dispatch world greeter =
    let message = read_message greeter.read_buffer in
    if is_refused message
    then result greeter [] false
    else handled (handle_message world message greeter)

-- `n_to_read` at the head of `read_cb`; `none` where the callback gives up.
unfoldable pub octets_to_read : List ℕ → Option ℕ
octets_to_read buffer =
    if leb 8 (length buffer)
    then (if leb (get_message_length buffer) 8 then none else some (get_message_length buffer))
    else some 8

abbrev pub go_on : ReadResult → ReadResult
go_on inner = result inner.greeter inner.outputs true

-- Behind the read. `again` is the recursive call, whose result is dropped.
unfoldable pub received : World → (Greeter → ReadResult) → ℕ → Greeter → ReadResult
received world again n_to_read greeter =
    if not (length greeter.read_buffer == n_to_read)
    then result greeter [] true
    else if length greeter.read_buffer == 8 && ltb 8 (get_message_length greeter.read_buffer)
    then go_on (again greeter)
    else dispatch world greeter

unfoldable pub append_chars : List ℕ → Greeter → Greeter
append_chars octets greeter = record greeter { read_buffer = greeter.read_buffer ++ octets }

-- The head of `read_cb`: what it does with `n_to_read`, or giving up.
abbrev pub with_length : Greeter → Option ℕ → (ℕ → ReadResult) → ReadResult
with_length greeter none f = result greeter [] false
with_length greeter (some n_to_read) f = f n_to_read

-- `read_cb` while there is input, on the results of the reads it makes, in order; `fuel` bounds the
-- recursion. The reads give at most what was asked for.
unfoldable pub read_cb : ℕ → World → List ReadChars → Greeter → ReadResult
read_cb zero world reads greeter = result greeter [] true
read_cb (suc fuel) world [] greeter = result greeter [] true
read_cb (suc fuel) world (eof ∷ reads) greeter =
    with_length greeter (octets_to_read greeter.read_buffer)
      λ n_to_read. result greeter (emitted_disconnected ∷ []) false
read_cb (suc fuel) world (not_normal ∷ reads) greeter =
    with_length greeter (octets_to_read greeter.read_buffer) λ n_to_read. result greeter [] true
read_cb (suc fuel) world (chars octets ∷ reads) greeter =
    with_length greeter (octets_to_read greeter.read_buffer)
      λ n_to_read. received world (read_cb fuel world reads) n_to_read (append_chars octets greeter)

-- What can happen to a greeter: its channel is readable or hung up, its session hears from the
-- child, the child exits, the seat takes the session or stops the greeter.
pub data Event : Type 0 where
  readable : List ReadChars → Event
  hung_up : Event
  child_asks : Option Str → List PamMessage → Event
  child_reports : Option Str → ℕ → Event
  child_exits : Event
  taken : Event
  stopped : Event

-- A signal of the session reaches the greeter only while it listens.
unfoldable pub with_session : Session → Act → Act
with_session session callback greeter =
    let greeter' = record greeter { authentication_session = some session } in
    if greeter.listening then callback greeter' else (greeter', [])

unfoldable pub session_exits : World → Session → Act
session_exits world session greeter =
    let (session', emits) = child_exited session in
    with_session session' (if emits then authentication_complete_cb world session' else do_nothing)
      greeter

unfoldable pub on_session : (Session → Act) → Act
on_session f greeter = if_null greeter.authentication_session do_nothing f greeter

unfoldable pub step : World → Event → Act
step world (readable reads) greeter =
    let done = read_cb 2 world reads greeter in (done.greeter, done.outputs)
step world hung_up greeter = (greeter, emitted_disconnected ∷ [])
step world (child_asks username messages) greeter =
    on_session
      (λ session.
        let session' = got_messages username messages session in
        with_session session' (pam_messages_cb session'))
      greeter
step world (child_reports username status) greeter =
    on_session
      (λ session.
        let session' = got_result username status session in
        with_session session' (authentication_complete_cb world session'))
      greeter
step world child_exits greeter = on_session (session_exits world) greeter
step world taken greeter = (greeter_take_authentication_session greeter, [])
step world stopped greeter = (greeter_stop greeter, [])

unfoldable pub run : List (World × Event) → Act
run [] = do_nothing
run ((world, event) ∷ events) = do step world event; run events
