-- ===== src/GreeterLibrary/Receiving.antt =====
-- What the library does with a message of the daemon (liblightdm-gobject/greeter.c). The functions
-- that read a message are those of Greeter.Reader, whose code the library repeats. The program that
-- uses the library answers a signal later, not while it is emitted.
use lightdm.Base.{
  ℕ, zero, suc, ◌+◌, true, false, List, [], ◌∷◌, ◌++◌, Option, none, some, not, ◌==◌, length,
  if◌then◌else◌, ◌>>=◌, codes,
}
use lightdm.Session.Authentication.{Str}
use lightdm.Greeter.State.{lookup, insert}
use lightdm.Greeter.Reader.{read_int, read_string}
use lightdm.GreeterLibrary.State.{
  LightdmGreeter, Output, show_prompt, show_message, authentication_complete, signalled_idle,
  signalled_reset, completed, Completion, succeeded, session_failed, found_dir, invalid_user,
  secret, question, info, error,
}
use lightdm.Seat.Properties.{atoi, is_positive}

-- A message of the daemon, read.
pub data Received : Type 0 where
  connected_to : ℕ → Str → List (Str × Str) → Received
  asked : ℕ → Str → List (ℕ × Str) → Received
  ended : ℕ → Str → ℕ → Received
  session_answer : ℕ → Received
  dir_answer : Str → Received
  went_idle : Received
  was_reset : List (Str × Str) → Received
  unknown_message : ℕ → Received

unfoldable pub read_pairs : ℕ → List ℕ → List (Str × Str)
read_pairs zero rest = []
read_pairs (suc n) rest =
    let (name, rest1) = read_string rest in
    let (value, rest2) = read_string rest1 in (name, value) ∷ read_pairs n rest2

-- The loop up to the end of the message. It does not end where a read leaves the offset as it is,
-- which the fuel tells: a pair has eight octets or more.
unfoldable pub read_all_pairs : ℕ → List ℕ → Option (List (Str × Str))
read_all_pairs fuel [] = some []
read_all_pairs zero (c ∷ rest) = none
read_all_pairs (suc fuel) (c ∷ rest) =
    let (name, rest1) = read_string (c ∷ rest) in
    let (value, rest2) = read_string rest1 in
    read_all_pairs fuel rest2 >>= λ pairs. some ((name, value) ∷ pairs)

unfoldable pub read_prompts : ℕ → List ℕ → List (ℕ × Str)
read_prompts zero rest = []
read_prompts (suc n) rest =
    let (style, rest1) = read_int rest in
    let (text, rest2) = read_string rest1 in (style, text) ∷ read_prompts n rest2

unfoldable pub read_connected : List ℕ → Option Received
read_connected rest =
    let (version, rest') = read_string rest in
    read_all_pairs (length rest') rest' >>= λ hints. some (connected_to 0 version hints)

unfoldable pub read_connected_v2 : List ℕ → Received
read_connected_v2 rest =
    let (api_version, rest1) = read_int rest in
    let (version, rest2) = read_string rest1 in
    let (n, rest3) = read_int rest2 in connected_to api_version version (read_pairs n rest3)

unfoldable pub read_prompt_authentication : List ℕ → Received
read_prompt_authentication rest =
    let (sequence_number, rest1) = read_int rest in
    let (username, rest2) = read_string rest1 in
    let (n, rest3) = read_int rest2 in asked sequence_number username (read_prompts n rest3)

unfoldable pub read_end_authentication : List ℕ → Received
read_end_authentication rest =
    let (sequence_number, rest1) = read_int rest in
    let (username, rest2) = read_string rest1 in
    let (return_code, _) = read_int rest2 in ended sequence_number username return_code

unfoldable pub read_by_id : ℕ → List ℕ → Option Received
read_by_id id rest =
    if id == 0
    then read_connected rest
    else if id == 1
    then some (read_prompt_authentication rest)
    else if id == 2
    then some (read_end_authentication rest)
    else if id == 3
    then some (session_answer (read_int rest).0)
    else if id == 4
    then some (dir_answer (read_string rest).0)
    else if id == 5
    then some went_idle
    else if id == 6
    then read_all_pairs (length rest) rest >>= (λ hints. some (was_reset hints))
    else if id == 7
    then some (read_connected_v2 rest)
    else some (unknown_message id)

-- The reads of `handle_message`; `none` is a message on which it does not return.
unfoldable pub read_received : List ℕ → Option Received
read_received message =
    let (id, rest) = read_int message in
    let (payload_length, rest') = read_int rest in read_by_id id rest'

abbrev pub Act : Type 0
Act = LightdmGreeter → LightdmGreeter × List Output

unfoldable pub insert_all : List (Str × Str) → List (Str × Str) → List (Str × Str)
insert_all [] hints = hints
insert_all ((name, value) ∷ pairs) hints = insert_all pairs (insert name value hints)

-- A negative number counts as 0.
unfoldable pub lightdm_greeter_get_autologin_timeout_hint : LightdmGreeter → ℕ
lightdm_greeter_get_autologin_timeout_hint greeter =
    elim (lookup (codes "autologin-timeout") greeter.hints) [
      | none ↦ 0
      | some value ↦ if is_positive (atoi value) then atoi value else 0
    ]

abbrev pub set_timer : LightdmGreeter → LightdmGreeter
set_timer greeter =
    let timeout = lightdm_greeter_get_autologin_timeout_hint greeter in
    if timeout == 0 then greeter else record greeter { autologin_timer = some timeout }

-- The first request of a list is completed, and leaves it.
abbrev pub complete_first : List ℕ → Completion → List ℕ × List Output
complete_first [] completion = ([], [])
complete_first (n ∷ requests) completion = (requests, completed n completion ∷ [])

unfoldable pub handle_connected : ℕ → List (Str × Str) → Act
handle_connected api_version pairs greeter =
    let hinted = record greeter {
      api_version = api_version;
      hints = insert_all pairs greeter.hints;
      connected = true;
    } in
    let (requests, outputs) = complete_first greeter.connect_requests succeeded in
    (record (set_timer hinted) { connect_requests = requests }, outputs)

abbrev pub user_or_null : Str → Option Str
user_or_null [] = none
user_or_null (c ∷ text) = some (c ∷ text)

-- What each message of PAM shows, and whether it wants a response.
abbrev pub shown : ℕ → Str → List Output
shown style text =
    if style == 1
    then show_prompt text secret ∷ []
    else if style == 2
    then show_prompt text question ∷ []
    else if style == 3
    then show_message text error ∷ []
    else if style == 4
    then show_message text info ∷ []
    else []

abbrev pub wants_response : ℕ → ℕ
wants_response style = if style == 1 then 1 else if style == 2 then 1 else 0

unfoldable pub show_all : List (ℕ × Str) → List Output
show_all [] = []
show_all ((style, text) ∷ messages) = shown style text ++ show_all messages

unfoldable pub count_responses : List (ℕ × Str) → ℕ
count_responses [] = 0
count_responses ((style, text) ∷ messages) = wants_response style + count_responses messages

unfoldable pub handle_prompt_authentication : ℕ → Str → List (ℕ × Str) → Act
handle_prompt_authentication sequence_number username messages greeter =
    if not (sequence_number == greeter.authenticate_sequence_number)
    then (greeter, [])
    else if greeter.cancelling_authentication
    then (greeter, [])
    else (
      record greeter {
        authentication_user = user_or_null username;
        responses_received = [];
        n_responses_waiting = count_responses messages;
      },
      show_all messages,
    )

unfoldable pub handle_end_authentication : ℕ → Str → ℕ → Act
handle_end_authentication sequence_number username return_code greeter =
    if not (sequence_number == greeter.authenticate_sequence_number) then (greeter, []) else (
      record greeter {
        authentication_user = user_or_null username;
        cancelling_authentication = false;
        is_authenticated = return_code == 0;
        in_authentication = false;
      },
      authentication_complete ∷ [],
    )

unfoldable pub handle_reset : List (Str × Str) → Act
handle_reset pairs greeter = (record greeter { hints = insert_all pairs [] }, signalled_reset ∷ [])

unfoldable pub handle_session_result : ℕ → Act
handle_session_result return_code greeter =
    let completion = if return_code == 0 then succeeded else session_failed return_code in
    let (requests, outputs) = complete_first greeter.start_session_requests completion in
    (record greeter { start_session_requests = requests }, outputs)

abbrev pub dir_completion : Str → Completion
dir_completion [] = invalid_user
dir_completion (c ∷ text) = found_dir (c ∷ text)

unfoldable pub handle_shared_dir_result : Str → Act
handle_shared_dir_result dir greeter =
    let (requests, outputs) =
      complete_first greeter.ensure_shared_data_dir_requests (dir_completion dir) in
    (record greeter { ensure_shared_data_dir_requests = requests }, outputs)

unfoldable pub handle_received : Received → Act
handle_received (connected_to api_version version pairs) = handle_connected api_version pairs
handle_received (asked sequence_number username messages) =
    handle_prompt_authentication sequence_number username messages
handle_received (ended sequence_number username return_code) =
    handle_end_authentication sequence_number username return_code
handle_received (session_answer return_code) = handle_session_result return_code
handle_received (dir_answer dir) = handle_shared_dir_result dir
handle_received went_idle = λ greeter. (greeter, signalled_idle ∷ [])
handle_received (was_reset pairs) = handle_reset pairs
handle_received (unknown_message id) = λ greeter. (greeter, [])

-- `handle_message`; it does not return on a message whose pairs do not end with it.
unfoldable pub receive_message : List ℕ → LightdmGreeter → Option (LightdmGreeter × List Output)
receive_message message greeter =
    read_received message >>= λ received. some (handle_received received greeter)
