-- ===== src/GreeterLibrary/Sending.antt =====
-- What the library writes to the daemon, against a description of the messages
-- (liblightdm-gobject/greeter.c).
use lightdm.Base.{
  ℕ, ◌+◌, ◌≤◌, ◌<◌, ◌≡◌, refl, sym, ap, ◌∙◌, subst, true, List, [], ◌∷◌, ◌++◌, append_assoc,
  append-nil, Option, none, some, ◌==◌, ltb, length, length-append, if-true, ==_refl, arith, ◌>>=◌,
  Bool-cases, inl, inr, ltb→lt, ltb-false→le,
}
use lightdm.Session.Authentication.{Str}
use lightdm.Greeter.Writer.{Buffer, octets, text_of, string_length}
use lightdm.Greeter.Frame.{text_field, frame}
use lightdm.Greeter.Fields.{text_fields, read_int-octets}
use lightdm.GreeterLibrary.Requests.{
  TryWrite, ◌>=>◌, try_int, try_text, try_string, try_header, try_strings, stated_length,
  send_message, send, responses_length,
}

-- A write function that adds `bs` if they fit, and fails if they do not.
pub record Appends (f : TryWrite) (bs : List ℕ) : Type 0 where
  pub fits : (buffer : Buffer) → length buffer + length bs < 1024 → f buffer ≡ some (buffer ++ bs)
  pub fails :
      (buffer : Buffer) → length buffer < 1024 → 1024 ≤ length buffer + length bs → f buffer ≡ none

pub Appends-int : (n : ℕ) → Appends (try_int n) (octets n)
unfolding try_int
Appends-int n = record { fits = λ buffer h. ground arith; fails = λ buffer h k. ground arith }

pub Appends-text : (text : Str) → Appends (try_text text) text
unfolding try_text
Appends-text text = record { fits = λ buffer h. ground arith; fails = λ buffer h k. ground arith }

pub Appends->=> :
    {f g : TryWrite} {bs cs : List ℕ} → Appends f bs → Appends g cs → Appends (f >=> g) (bs ++ cs)
Appends->=> {f} {g} {bs} {cs} p q = record {
  fits = λ buffer h.
      ap (λ o. o >>= g) (p.fits buffer (omega (arith, h, length-append bs cs)))
      ∙ q.fits (buffer ++ bs) (omega (arith, h, length-append bs cs, length-append buffer bs))
      ∙ ap some (append_assoc buffer bs cs);
  fails = λ buffer h k. elim (Bool-cases (ltb (length buffer + length bs) 1024)) [
    | inl e ↦
        let small = ltb→lt (length buffer + length bs) 1024 e in
        ap (λ o. o >>= g) (p.fits buffer small)
        ∙ q.fails (buffer ++ bs) (omega (arith, small, length-append buffer bs))
            (omega (arith, k, length-append bs cs, length-append buffer bs))
    | inr e ↦ ap (λ o. o >>= g) (p.fails buffer h (ltb-false→le (length buffer + length bs) 1024 e))
  ];
}

pub Appends-string : (value : Option Str) → Appends (try_string value) (text_field value)
unfolding try_string
Appends-string value =
    Appends->=> (Appends-int (length (text_of value))) (Appends-text (text_of value))

pub Appends-header :
    (id payload_length : ℕ)
    → Appends (try_header id payload_length) (octets id ++ octets payload_length)
unfolding try_header
Appends-header id payload_length = Appends->=> (Appends-int id) (Appends-int payload_length)

pub Appends-strings : (texts : List Str) → Appends (try_strings texts) (text_fields texts)
unfolding try_strings
Appends-strings [] = record {
  fits = λ buffer h. ap some (sym (append-nil buffer));
  fails = λ buffer h k. absurd (omega arith);
}
Appends-strings (text ∷ texts) = Appends->=> (Appends-string (some text)) (Appends-strings texts)

pub responses_length_lem : (texts : List Str) → responses_length texts ≡ length (text_fields texts)
unfolding responses_length string_length
responses_length_lem [] = refl
responses_length_lem (text ∷ texts) =
    omega (
      arith,
      responses_length_lem texts,
      length-append (text_field (some text)) (text_fields texts),
    )

stated_length_lem :
    (id : ℕ) (payload : List ℕ)
    → 8 + length payload < 1024
    → stated_length (frame id payload) ≡ length (frame id payload)
unfolding stated_length
stated_length_lem id payload h =
    rw (read_int-octets (length payload) payload (omega arith)) (omega arith)

send_frame :
    (id : ℕ) (payload : List ℕ)
    → 8 + length payload < 1024
    → send_message (frame id payload) ≡ some (frame id payload)
unfolding send_message
send_frame id payload h =
    let m = frame id payload in
    if-true (stated_length m == length m) (some m) none (
      subst (λ k. (k == length m) ≡ true) (sym (stated_length_lem id payload h))
        (==_refl (length m)))

-- A whole message is sent if it has room, and else nothing is.
pub record Sends (message : Option (List ℕ)) (id : ℕ) (payload : List ℕ) : Type 0 where
  pub sent : 8 + length payload < 1024 → message ≡ some (frame id payload)
  pub refused : 1024 ≤ 8 + length payload → message ≡ none

pub Sends-message :
    {f : TryWrite} {payload : List ℕ} (id n : ℕ)
    → Appends f payload
    → n ≡ length payload
    → Sends (send (try_header id n >=> f)) id payload
unfolding send_message
Sends-message {f} {payload} id n a e =
    let whole = Appends->=> (Appends-header id (length payload)) a in
    subst (λ k. Sends (send (try_header id k >=> f)) id payload) (sym e)
      (record {
        sent = λ h.
            ap (λ o. o >>= send_message) (whole.fits [] (omega arith)) ∙ send_frame id payload h;
        refused = λ h. ap (λ o. o >>= send_message) (whole.fails [] (omega arith) (omega arith));
      })

pub Sends-header : (id : ℕ) → Sends (send (try_header id 0)) id []
Sends-header id = record {
  sent = λ h.
      let header = Appends-header id 0 in
      ap (λ o. o >>= send_message) (header.fits [] (omega arith)) ∙ send_frame id [] h;
  refused = λ h. absurd (omega arith);
}
