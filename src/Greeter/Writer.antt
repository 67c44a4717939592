-- ===== src/Greeter/Writer.antt =====
-- The messages to a greeter and the functions that write them (src/greeter.c).
use lightdm.Base.{
  ℕ, ◌+◌, ◌/◌, ◌%◌, Bool, List, [], ◌∷◌, ◌++◌, Option, none, some, ◌==◌, leb, length, if◌then◌else◌,
}
use lightdm.Session.Authentication.{Str, PamMessage}

-- The octets in front of `offset`. Every buffer has MAX_MESSAGE_LENGTH octets.
abbrev pub Buffer : Type 0
Buffer = List ℕ

abbrev pub max_message_length : ℕ
max_message_length = 1024

abbrev pub Write : Type 0
Write = Buffer → Buffer

infixl 5 ◌>>◌
abbrev pub ◌>>◌ : Write → Write → Write
◌>>◌ f g buffer = g (f buffer)

-- The octets of a guint32.
abbrev pub octets : ℕ → List ℕ
octets value = value / 16777216 % 256 ∷ value / 65536 % 256 ∷ value / 256 % 256 ∷ value % 256 ∷ []

unfoldable pub write_int : ℕ → Write
write_int value buffer =
    if leb max_message_length (length buffer + 4) then buffer else buffer ++ octets value

abbrev pub text_of : Option Str → Str
text_of none = []
text_of (some value) = value

unfoldable pub write_text : Str → Write
write_text text buffer =
    if leb max_message_length (length buffer + length text) then buffer else buffer ++ text

unfoldable pub write_string : Option Str → Write
write_string value = do write_int (length (text_of value)); write_text (text_of value)

unfoldable pub write_header : ℕ → ℕ → Write
write_header id payload_length = do write_int id; write_int payload_length

unfoldable pub string_length : Option Str → ℕ
string_length value = 4 + length (text_of value)

unfoldable pub hints_length : List (Str × Str) → ℕ
hints_length [] = 0
hints_length ((key, value) ∷ hints) =
    string_length (some key) + string_length (some value) + hints_length hints

unfoldable pub write_hints : List (Str × Str) → Write
write_hints [] buffer = buffer
write_hints ((key, value) ∷ hints) buffer =
    write_hints hints (write_string (some value) (write_string (some key) buffer))

unfoldable pub connected_message : Str → ℕ → List (Str × Str) → List ℕ
connected_message version api_version hints =
    if api_version == 0
    then (do
      write_header 0 (string_length (some version) + hints_length hints)
      write_string (some version)
      write_hints hints)
        []
    else (do
      write_header 7 (string_length (some version) + 8 + hints_length hints)
      write_int (if leb api_version 1 then api_version else 1)
      write_string (some version)
      write_int (length hints)
      write_hints hints)
        []

unfoldable pub prompts_length : List PamMessage → ℕ
prompts_length [] = 0
prompts_length (m ∷ messages) = 4 + string_length m.msg + prompts_length messages

unfoldable pub write_prompts : List PamMessage → Write
write_prompts [] buffer = buffer
write_prompts (m ∷ messages) buffer =
    write_prompts messages (write_string m.msg (write_int m.msg_style buffer))

unfoldable pub prompt_message : ℕ → Option Str → List PamMessage → List ℕ
prompt_message sequence_number username messages =
    (do
      write_header 1 (4 + string_length username + 4 + prompts_length messages)
      write_int sequence_number
      write_string username
      write_int (length messages)
      write_prompts messages)
      []

unfoldable pub end_authentication_message : ℕ → Option Str → ℕ → List ℕ
end_authentication_message sequence_number username result =
    (do
      write_header 2 (4 + string_length username + 4)
      write_int sequence_number
      write_string username
      write_int result)
      []

unfoldable pub session_result_message : Bool → List ℕ
session_result_message result = (do write_header 3 4; write_int (if result then 0 else 1)) []

unfoldable pub shared_dir_message : Option Str → List ℕ
shared_dir_message dir = (do write_header 4 (string_length dir); write_string dir) []

unfoldable pub idle_message : List ℕ
idle_message = write_header 5 0 []

unfoldable pub reset_message : List (Str × Str) → List ℕ
reset_message hints = (do write_header 6 (hints_length hints); write_hints hints) []
