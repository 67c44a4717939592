-- ===== src/GreeterLibrary/Meaning.antt =====
-- How the daemon (src/greeter.c) reads the messages of the library (liblightdm-gobject/greeter.c).
use lightdm.Base.{
  ℕ, ◌+◌, ◌-◌, ◌%◌, ◌≤◌, ◌<◌, ◌≢◌, ◌≡◌, refl, ap, subst, Bool, true, false, List, [], ◌∷◌, ◌++◌,
  append-nil, Option, some, ltb, length, length-append, if◌then◌else◌, All, arith, lt→ltb,
  le→ltb-false,
}
use lightdm.Session.Authentication.{Str}
use lightdm.Greeter.Writer.{octets, text_of}
use lightdm.Greeter.Reader.{read_int, read_string, read_secrets, sign_extend}
use lightdm.Greeter.Frame.{text_field, frame}
use lightdm.Greeter.Fields.{
  IsText, text_fields, read_int-octets, read_string-field, read_secrets-fields,
}
use lightdm.Greeter.Dispatch.{
  GreeterMessage, connect, authenticate_as_guest, start_session, set_language, ensure_shared_dir,
  read_message, read_payload, read_connect, read_continue, read_authenticate,
  read_authenticate_remote, read_as_guest, read_text,
}
use lightdm.GreeterLibrary.State.{LightdmGreeter}
use lightdm.GreeterLibrary.Calls.{
  Request, connects, authenticates, authenticates_guest, authenticates_remote, responds, cancels,
  sets_language, starts_session, ensures_dir, next_number, all_responses, meaning, request_id,
  request_payload, texts_of,
}

pub some-injective : {a b : List ℕ} → some a ≡ some b → a ≡ b
some-injective e = cc

size_lem : (n : ℕ) → 8 + n < 1024 → sign_extend ((8 + n) % 4294967296) ≡ 8 + n
unfolding sign_extend
size_lem n h = ground arith

pub length-frame : (id : ℕ) (payload : List ℕ) → length (frame id payload) ≡ 8 + length payload
length-frame id payload = omega arith

pub read_message-frame :
    (id : ℕ) (payload : List ℕ)
    → id < 4294967296
    → 8 + length payload < 1024
    → read_message (frame id payload)
      ≡ read_payload id (8 + length payload) (8 + length payload) payload
unfolding read_message
read_message-frame id payload small h =
    rw
      (
        read_int-octets id (octets (length payload) ++ payload) small,
        read_int-octets (length payload) payload (omega arith),
        size_lem (length payload) h,
      )
      (ap (λ n. read_payload id n (8 + length payload) payload) (length-frame id payload))

read_last :
    (value : Option Str)
    → All (λ c. c ≢ 0) (text_of value)
    → length (text_of value) < 1024
    → read_string (text_field value) ≡ (text_of value, [])
read_last value h small =
    subst (λ bs. read_string bs ≡ (text_of value, [])) (append-nil (text_field value))
      (read_string-field value [] (h, omega arith))

text_lem :
    (message : Str → GreeterMessage) (value : Option Str)
    → All (λ c. c ≢ 0) (text_of value)
    → length (text_of value) < 1024
    → read_text message (text_field value) ≡ message (text_of value)
unfolding read_text
text_lem message value h small = rw (read_last value h small)

all_read :
    (texts : List Str)
    → All IsText texts
    → read_secrets (length texts) (text_fields texts) ≡ (texts, [])
all_read texts h =
    subst (λ bs. read_secrets (length texts) bs ≡ (texts, [])) (append-nil (text_fields texts))
      (read_secrets-fields texts [] h)

few_texts : (texts : List Str) → length texts ≤ length (text_fields texts)
few_texts [] = omega arith
few_texts (text ∷ texts) =
    omega (arith, few_texts texts, length-append (text_field (some text)) (text_fields texts))

-- The texts of a list that fits are short.
short_texts :
    (texts : List Str) (n : ℕ)
    → All (All (λ c. c ≢ 0)) texts
    → length (text_fields texts) < n
    → n ≤ 1024
    → All IsText texts
short_texts [] n h small bound = tt
short_texts (text ∷ texts) n (h, hs) small bound =
    let e = length-append (text_field (some text)) (text_fields texts) in
    ((h, omega (arith, e)), short_texts texts n hs (omega (arith, e)) bound)

before_lem : (n k : ℕ) → 0 < k → k ≤ n → ltb (n - k) n ≡ true
before_lem n k h l = lt→ltb (n - k) n (omega arith)

connect_lem :
    (resettable : Bool) (version : Str)
    → All (λ c. c ≢ 0) version
    → length version < 1024
    → let payload =
        text_field (some version) ++ (octets (if resettable then 1 else 0) ++ octets 1) in
      read_connect (8 + length payload) (8 + length payload) payload ≡ connect resettable 1
unfolding read_connect read_int
connect_lem true version h small =
    let rest = octets 1 ++ octets 1 in
    let size = 8 + length (text_field (some version) ++ rest) in
    let long = length-append (text_field (some version)) rest in
    rw (
      read_string-field (some version) rest (h, omega arith),
      before_lem size 8 (omega arith) (omega (arith, long)),
      before_lem size 4 (omega arith) (omega (arith, long)),
    )
connect_lem false version h small =
    let rest = octets 0 ++ octets 1 in
    let size = 8 + length (text_field (some version) ++ rest) in
    let long = length-append (text_field (some version)) rest in
    rw (
      read_string-field (some version) rest (h, omega arith),
      before_lem size 8 (omega arith) (omega (arith, long)),
      before_lem size 4 (omega arith) (omega (arith, long)),
    )

pub means_lem :
    (request : Request) (greeter : LightdmGreeter)
    → All (All (λ c. c ≢ 0)) (texts_of request greeter)
    → 8 + length (request_payload request greeter) < 1024
    → read_payload
        (request_id request)
        (8 + length (request_payload request greeter))
        (8 + length (request_payload request greeter))
        (request_payload request greeter)
      ≡ meaning request greeter
unfolding read_payload read_authenticate read_authenticate_remote read_as_guest read_continue
means_lem (connects version) greeter (h, _) small = connect_lem greeter.resettable version h (
    omega (arith, length-append version (octets (if greeter.resettable then 1 else 0) ++ octets 1)))
means_lem (authenticates username) greeter (h, _) small = rw (
  read_int-octets (next_number greeter) (text_field username) (omega arith),
  read_last username h (omega arith),
)
means_lem authenticates_guest greeter h small =
    ap (λ (p : ℕ × List ℕ). authenticate_as_guest p.0)
      (read_int-octets (next_number greeter) [] (omega arith))
means_lem (authenticates_remote session username) greeter (h, (k, _)) small =
    let e = length-append (text_of session) (text_field username) in
    rw (
      read_int-octets (next_number greeter) (text_field session ++ text_field username)
          (omega arith),
      read_string-field session (text_field username) (h, omega (arith, e)),
      read_last username k (omega (arith, e)),
    )
means_lem (responds response) greeter h small =
    let texts = all_responses response greeter in
    let few = few_texts texts in
    rw (
      read_int-octets (length texts) (text_fields texts) (omega (arith, few)),
      all_read texts (short_texts texts 1024 h (omega arith) (omega arith)),
      le→ltb-false 536870911 (length texts) (omega (arith, few)),
    )
means_lem cancels greeter h small = refl
means_lem (sets_language language) greeter (h, _) small =
    text_lem set_language language h (omega arith)
means_lem (starts_session session) greeter (h, _) small =
    text_lem start_session session h (omega arith)
means_lem (ensures_dir username) greeter (h, _) small =
    text_lem ensure_shared_dir username h (omega arith)
