-- ===== src/Greeter/Frame.antt =====
-- The messages to a greeter, described apart from the code that writes them, and what each write
-- function of src/greeter.c adds to a buffer.
use lightdm.Base.{
  ℕ, ◌+◌, ◌<◌, ◌≡◌, refl, ap, sym, if-either, ◌∙◌, List, [], ◌∷◌, ◌++◌, Option, some, length,
  length-append, append_assoc, append-nil, arith,
}
use lightdm.Session.Authentication.{Str, PamMessage}
use lightdm.Greeter.Writer.{
  Buffer, Write, ◌>>◌, octets, text_of, write_int, write_text, write_string, write_header,
  write_hints, write_prompts, string_length, hints_length, prompts_length,
}

-- A string in a message: its length and its text.
abbrev pub text_field : Option Str → List ℕ
text_field value = octets (length (text_of value)) ++ text_of value

abbrev pub hint_fields : List (Str × Str) → List ℕ
hint_fields [] = []
hint_fields ((key, value) ∷ hints) =
    (text_field (some key) ++ text_field (some value)) ++ hint_fields hints

abbrev pub prompt_fields : List PamMessage → List ℕ
prompt_fields [] = []
prompt_fields (m ∷ messages) = (octets m.msg_style ++ text_field m.msg) ++ prompt_fields messages

-- A message: its id, the length of its payload, and its payload.
abbrev pub frame : ℕ → List ℕ → List ℕ
frame id payload = (octets id ++ octets (length payload)) ++ payload

-- What a write function does: it adds `bs` where they fit, it never goes past the end of the
-- buffer, and it keeps what is there.
pub record Writes (f : Write) (bs : List ℕ) : Type 0 where
  pub fits : (buffer : Buffer) → length buffer + length bs < 1024 → f buffer ≡ buffer ++ bs
  pub bounded : (buffer : Buffer) → length buffer < 1024 → length (f buffer) < 1024
  pub extends : (buffer : Buffer) → (more : List ℕ) × (f buffer ≡ buffer ++ more)

pub Writes->> :
    {f g : Write} {bs cs : List ℕ} → Writes f bs → Writes g cs → Writes (f >> g) (bs ++ cs)
Writes->> {f} {g} {bs} {cs} p q = record {
  fits = λ buffer h.
      ap g (p.fits buffer (omega (arith, h, length-append bs cs)))
      ∙ q.fits (buffer ++ bs) (omega (arith, h, length-append bs cs, length-append buffer bs))
      ∙ append_assoc buffer bs cs;
  bounded = λ buffer h. q.bounded (f buffer) (p.bounded buffer h);
  extends = λ buffer.
      let (more, e) = p.extends buffer in
      let (more', e') = q.extends (f buffer) in
      (more ++ more', e' ∙ ap (λ b. b ++ more') e ∙ append_assoc buffer more more');
}

pub Writes-text : (text : Str) → Writes (write_text text) text
unfolding write_text
Writes-text text = record {
  fits = λ buffer h. ground arith;
  bounded = λ buffer h. ground (arith, length-append buffer text);
  extends = λ buffer.
      if-either (λ b. (more : List ℕ) × (b ≡ buffer ++ more)) _ ([], sym (append-nil buffer))
        (text, refl);
}

pub Writes-int : (n : ℕ) → Writes (write_int n) (octets n)
unfolding write_int
Writes-int n = record {
  fits = λ buffer h. ground arith;
  bounded = λ buffer h. ground (arith, length-append buffer (octets n));
  extends = λ buffer.
      if-either (λ b. (more : List ℕ) × (b ≡ buffer ++ more)) _ ([], sym (append-nil buffer))
        (octets n, refl);
}

pub Writes-string : (value : Option Str) → Writes (write_string value) (text_field value)
unfolding write_string
Writes-string value = Writes->> (Writes-int (length (text_of value))) (Writes-text (text_of value))

pub Writes-header :
    (id payload_length : ℕ)
    → Writes (write_header id payload_length) (octets id ++ octets payload_length)
unfolding write_header
Writes-header id payload_length = Writes->> (Writes-int id) (Writes-int payload_length)

pub Writes-nothing : Writes (λ buffer. buffer) []
Writes-nothing = record {
  fits = λ buffer h. sym (append-nil buffer);
  bounded = λ buffer h. h;
  extends = λ buffer. ([], sym (append-nil buffer));
}

pub Writes-hints : (hints : List (Str × Str)) → Writes (write_hints hints) (hint_fields hints)
unfolding write_hints
Writes-hints [] = Writes-nothing
Writes-hints ((key, value) ∷ hints) =
    Writes->> (Writes->> (Writes-string (some key)) (Writes-string (some value)))
      (Writes-hints hints)

pub Writes-prompts :
    (messages : List PamMessage) → Writes (write_prompts messages) (prompt_fields messages)
unfolding write_prompts
Writes-prompts [] = Writes-nothing
Writes-prompts (m ∷ messages) =
    Writes->> (Writes->> (Writes-int m.msg_style) (Writes-string m.msg)) (Writes-prompts messages)

pub length-text_field : (value : Option Str) → string_length value ≡ length (text_field value)
unfolding string_length
length-text_field value = omega arith

pub hints_length_lem : (hints : List (Str × Str)) → hints_length hints ≡ length (hint_fields hints)
unfolding hints_length string_length
hints_length_lem [] = refl
hints_length_lem ((key, value) ∷ hints) = omega (
  arith,
  hints_length_lem hints,
  length-append (text_field (some key) ++ text_field (some value)) (hint_fields hints),
  length-append (text_field (some key)) (text_field (some value)),
)

pub prompts_length_lem :
    (messages : List PamMessage) → prompts_length messages ≡ length (prompt_fields messages)
unfolding prompts_length string_length
prompts_length_lem [] = refl
prompts_length_lem (m ∷ messages) = omega (
  arith,
  prompts_length_lem messages,
  length-append (octets m.msg_style ++ text_field m.msg) (prompt_fields messages),
)
