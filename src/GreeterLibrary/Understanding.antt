-- ===== src/GreeterLibrary/Understanding.antt =====
-- What the daemon writes (src/greeter.c) is what the library reads
-- (liblightdm-gobject/greeter.c).
use lightdm.Base.{
  ℕ, zero, suc, ◌+◌, ◌≤◌, ◌<◌, ◌≢◌, ◌≡◌, refl, ap, ◌∙◌, subst, Bool, true, false, List, [], ◌∷◌,
  ◌++◌, append_assoc, append-nil, Option, some, ◌==◌, leb, length, length-append, if◌then◌else◌,
  All, arith, if-either,
}
use lightdm.Session.Authentication.{Str, PamMessage}
use lightdm.Greeter.Writer.{octets, text_of}
use lightdm.Greeter.Reader.{read_string}
use lightdm.Greeter.Frame.{text_field, hint_fields, prompt_fields, frame}
use lightdm.Greeter.Fields.{read_int-octets, read_string-field}
use lightdm.Greeter.Messages.{
  ServerMessage, connected, prompt_authentication, end_authentication, session_result,
  shared_dir_result, idle, reset, written, id_of, payload_of, message_framed,
}
use lightdm.GreeterLibrary.Receiving.{
  Received, connected_to, asked, ended, session_answer, dir_answer, went_idle, was_reset,
  read_pairs, read_all_pairs, read_prompts, read_connected, read_connected_v2,
  read_prompt_authentication, read_end_authentication, read_by_id, read_received,
}

-- What the library is to read.
abbrev pub prompts_of : List PamMessage → List (ℕ × Str)
prompts_of [] = []
prompts_of (m ∷ messages) = (m.msg_style, text_of m.msg) ∷ prompts_of messages

abbrev pub understood : ServerMessage → Received
understood (connected version api_version hints) =
    connected_to (if api_version == 0 then 0 else if leb api_version 1 then api_version else 1)
      version hints
understood (prompt_authentication n username messages) =
    asked n (text_of username) (prompts_of messages)
understood (end_authentication n username result) = ended n (text_of username) result
understood (session_result result) = session_answer (if result then 0 else 1)
understood (shared_dir_result dir) = dir_answer (text_of dir)
understood idle = went_idle
understood (reset hints) = was_reset hints

-- No text holds a NUL, and every number has 32 bits.
abbrev pub IsClean : Str → Type 0
IsClean text = All (λ c. c ≢ 0) text

abbrev pub IsPair : Str × Str → Type 0
IsPair (name, value) = IsClean name × IsClean value

abbrev pub IsPrompt : PamMessage → Type 0
IsPrompt m = (m.msg_style < 4294967296) × IsClean (text_of m.msg)

abbrev pub IsSound : ServerMessage → Type 0
IsSound (connected version api_version hints) = IsClean version × All IsPair hints
IsSound (prompt_authentication n username messages) =
    (n < 4294967296) × IsClean (text_of username) × All IsPrompt messages
IsSound (end_authentication n username result) =
    (n < 4294967296) × IsClean (text_of username) × (result < 4294967296)
IsSound (session_result result) = Unit
IsSound (shared_dir_result dir) = IsClean (text_of dir)
IsSound idle = Unit
IsSound (reset hints) = All IsPair hints

clean_read :
    (value : Option Str) (rest : List ℕ)
    → IsClean (text_of value)
    → length (text_of value) < 1024
    → read_string (text_field value ++ rest) ≡ (text_of value, rest)
clean_read value rest h small = read_string-field value rest (h, omega arith)

pairs_length :
    (name value : Str) (hints : List (Str × Str))
    → length (hint_fields ((name, value) ∷ hints))
      ≡ 8 + length name + length value + length (hint_fields hints)
pairs_length name value hints = omega (
  arith,
  length-append (text_field (some name) ++ text_field (some value)) (hint_fields hints),
  length-append (text_field (some name)) (text_field (some value)),
)

read_pairs-fields :
    (hints : List (Str × Str))
    → All IsPair hints
    → length (hint_fields hints) < 1024
    → read_pairs (length hints) (hint_fields hints) ≡ hints
unfolding read_pairs
read_pairs-fields [] h small = refl
read_pairs-fields ((name, value) ∷ hints) ((h, k), hs) small =
    let e = pairs_length name value hints in
    rw (
      append_assoc (text_field (some name)) (text_field (some value)) (hint_fields hints),
      clean_read (some name) (text_field (some value) ++ hint_fields hints) h (omega (arith, e)),
      clean_read (some value) (hint_fields hints) k (omega (arith, e)),
      read_pairs-fields hints hs (omega (arith, e)),
    )

read_all_pairs-fields :
    (fuel : ℕ) (hints : List (Str × Str))
    → All IsPair hints
    → length (hint_fields hints) < 1024
    → length (hint_fields hints) ≤ fuel
    → read_all_pairs fuel (hint_fields hints) ≡ some hints
unfolding read_all_pairs
read_all_pairs-fields fuel [] h small enough = refl
read_all_pairs-fields zero ((name, value) ∷ hints) h small enough =
    absurd (omega (arith, pairs_length name value hints))
read_all_pairs-fields (suc fuel) ((name, value) ∷ hints) ((h, k), hs) small enough =
    let e = pairs_length name value hints in
    rw (
      append_assoc (text_field (some name)) (text_field (some value)) (hint_fields hints),
      clean_read (some name) (text_field (some value) ++ hint_fields hints) h (omega (arith, e)),
      clean_read (some value) (hint_fields hints) k (omega (arith, e)),
      read_all_pairs-fields fuel hints hs (omega (arith, e)) (omega (arith, e)),
    )

read_prompts-fields :
    (messages : List PamMessage)
    → All IsPrompt messages
    → length (prompt_fields messages) < 1024
    → read_prompts (length messages) (prompt_fields messages) ≡ prompts_of messages
unfolding read_prompts
read_prompts-fields [] h small = refl
read_prompts-fields (m ∷ messages) ((s, h), hs) small =
    let e = length-append (octets m.msg_style ++ text_field m.msg) (prompt_fields messages) in
    rw (
      append_assoc (octets m.msg_style) (text_field m.msg) (prompt_fields messages),
      read_int-octets m.msg_style (text_field m.msg ++ prompt_fields messages) s,
      clean_read m.msg (prompt_fields messages) h (omega (arith, e)),
      read_prompts-fields messages hs (omega (arith, e)),
    )

read_received-frame :
    (id : ℕ) (payload : List ℕ)
    → id < 4294967296
    → 8 + length payload < 1024
    → read_received (frame id payload) ≡ read_by_id id payload
unfolding read_received
read_received-frame id payload small h = rw (
  read_int-octets id (octets (length payload) ++ payload) small,
  read_int-octets (length payload) payload (omega arith),
)

few_hints : (hints : List (Str × Str)) → length hints ≤ length (hint_fields hints)
few_hints [] = omega arith
few_hints ((name, value) ∷ hints) = omega (arith, few_hints hints, pairs_length name value hints)

few_prompts : (messages : List PamMessage) → length messages ≤ length (prompt_fields messages)
few_prompts [] = omega arith
few_prompts (m ∷ messages) = omega (
  arith,
  few_prompts messages,
  length-append (octets m.msg_style ++ text_field m.msg) (prompt_fields messages),
)

api_small : (api_version : ℕ) → (if leb api_version 1 then api_version else 1) < 4294967296
api_small api_version = ground arith

id_small : (m : ServerMessage) → id_of m < 4294967296
id_small (connected version api_version hints) =
    if-either (λ n. n < 4294967296) (api_version == 0) (omega arith) (omega arith)
id_small (prompt_authentication n username messages) = omega arith
id_small (end_authentication n username result) = omega arith
id_small (session_result result) = omega arith
id_small (shared_dir_result dir) = omega arith
id_small idle = omega arith
id_small (reset hints) = omega arith

connected_lem :
    (api_version : ℕ) (version : Str) (hints : List (Str × Str))
    → IsClean version
    → All IsPair hints
    → (b : Bool) → (e : (api_version == 0) ≡ b)
    → let payload =
        if b
        then text_field (some version) ++ hint_fields hints
        else octets (if leb api_version 1 then api_version else 1)
          ++ (text_field (some version) ++ (octets (length hints) ++ hint_fields hints)) in
      8 + length payload < 1024
      → read_by_id (if b then 0 else 7) payload
        ≡ some (
            connected_to
              (if b then 0 else if leb api_version 1 then api_version else 1)
              version
              hints)
unfolding read_by_id read_connected read_connected_v2
connected_lem api_version version hints h hs true e small =
    let l = length-append version (hint_fields hints) in
    rw (
      clean_read (some version) (hint_fields hints) h (omega (arith, l)),
      read_all_pairs-fields (length (hint_fields hints)) hints hs (omega (arith, l)) (omega arith),
    )
connected_lem api_version version hints h hs false e small =
    let api = if leb api_version 1 then api_version else 1 in
    let l = length-append version (octets (length hints) ++ hint_fields hints) in
    let few = few_hints hints in
    rw (
      read_int-octets api
          (text_field (some version) ++ (octets (length hints) ++ hint_fields hints))
          (api_small api_version),
      clean_read (some version) (octets (length hints) ++ hint_fields hints) h (omega (arith, l)),
      read_int-octets (length hints) (hint_fields hints) (omega (arith, l, few)),
      read_pairs-fields hints hs (omega (arith, l)),
    )

understood_lem :
    (m : ServerMessage)
    → IsSound m
    → 8 + length (payload_of m) < 1024
    → read_by_id (id_of m) (payload_of m) ≡ some (understood m)
unfolding read_by_id read_prompt_authentication read_end_authentication
understood_lem (connected version api_version hints) (h, hs) small =
    connected_lem api_version version hints h hs (api_version == 0) refl small
understood_lem (prompt_authentication n username messages) (s, h, hs) small =
    let l = length-append (text_of username) (octets (length messages) ++ prompt_fields messages) in
    let few = few_prompts messages in
    rw (
      read_int-octets n
          (text_field username ++ (octets (length messages) ++ prompt_fields messages)) s,
      clean_read username (octets (length messages) ++ prompt_fields messages) h (omega (arith, l)),
      read_int-octets (length messages) (prompt_fields messages) (omega (arith, l, few)),
      read_prompts-fields messages hs (omega (arith, l)),
    )
understood_lem (end_authentication n username result) (s, h, r) small =
    let l = length-append (text_of username) (octets result) in
    rw (
      read_int-octets n (text_field username ++ octets result) s,
      clean_read username (octets result) h (omega (arith, l)),
      ap (λ (p : ℕ × List ℕ). some (ended n (text_of username) p.0)) (read_int-octets result [] r),
    )
understood_lem (session_result result) h small =
    ap (λ (p : ℕ × List ℕ). some (session_answer p.0))
      (read_int-octets (if result then 0 else 1) []
        (if-either (λ n. n < 4294967296) result (omega arith) (omega arith)))
understood_lem (shared_dir_result dir) h small =
    subst (λ bs. some (dir_answer (read_string bs).0) ≡ some (dir_answer (text_of dir)))
      (append-nil (text_field dir))
      (ap (λ (p : Str × List ℕ). some (dir_answer p.0)) (clean_read dir [] h (omega arith)))
understood_lem idle h small = refl
understood_lem (reset hints) h small =
    rw (read_all_pairs-fields (length (hint_fields hints)) hints h (omega arith) (omega arith))

-- A message of the daemon that fits in 1024 octets is read by the library as what the daemon means:
-- its loops end, and a version of the protocol above 1 counts as 1. No text holds a NUL, and the
-- numbers have 32 bits; a text NULL is read as the empty text.
pub message_understood :
    (m : ServerMessage)
    → IsSound m
    → 8 + length (payload_of m) < 1024
    → read_received (written m) ≡ some (understood m)
message_understood m h small =
    ap read_received (message_framed m small)
    ∙ read_received-frame (id_of m) (payload_of m) (id_small m) small
    ∙ understood_lem m h small
