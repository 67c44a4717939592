-- ===== src/Greeter/Fields.antt =====
-- What the functions of src/greeter.c read of the fields of a message.
use lightdm.Base.{
  ℕ, ◌+◌, ◌*◌, ◌/◌, ◌%◌, ◌<◌, ◌≢◌, ◌≡◌, refl, ap, ap₂, ◌∙◌, List, [], ◌∷◌, ◌++◌, append_assoc,
  Option, some, length, length-append, take, drop, ltb, All, arith, if◌then◌else◌, if-false,
  le→ltb-false,
}
use lightdm.Session.Authentication.{Str}
use lightdm.Xdmcp.Reader.{c_string}
use lightdm.Greeter.Reader.{Rest, read_int, read_string, read_secrets}
use lightdm.Greeter.Writer.{octets, text_of}
use lightdm.Greeter.Frame.{text_field}

octets_value :
    (n : ℕ)
    → n < 4294967296
    → n / 16777216 % 256 * 16777216 + n / 65536 % 256 * 65536 + n / 256 % 256 * 256 + n % 256 ≡ n
octets_value n h = omega arith

pub read_int-octets :
    (n : ℕ) (rest : List ℕ) → n < 4294967296 → read_int (octets n ++ rest) ≡ (n, rest)
unfolding read_int
read_int-octets n rest h = ap (λ k. (k, rest)) (octets_value n h)

pub take_prefix : (xs ys : List ℕ) → take (length xs) (xs ++ ys) ≡ xs
take_prefix [] ys = refl
take_prefix (x ∷ xs) ys = ap (◌∷◌ x) (take_prefix xs ys)

pub drop_prefix : (xs ys : List ℕ) → drop (length xs) (xs ++ ys) ≡ ys
drop_prefix [] ys = refl
drop_prefix (x ∷ xs) ys = drop_prefix xs ys

-- A text that a C string can hold, and a message can count.
abbrev pub IsText : Str → Type 0
IsText text = All (λ c. c ≢ 0) text × (length text < 4294967296)

pub c_string-text : (text : Str) → All (λ c. c ≢ 0) text → c_string text ≡ text
unfolding c_string
c_string-text [] h = refl
c_string-text (c ∷ text) h = ground (arith, c_string-text text h.1)

string_branch :
    (text rest : List ℕ)
    → IsText text
    → ◌≡◌ {A = Str × Rest}
        (if ltb (length (text ++ rest)) (length text)
          then ([], text ++ rest)
          else (c_string (take (length text) (text ++ rest)), drop (length text) (text ++ rest)))
        (text, rest)
string_branch text rest (nonzero, short) =
    if-false (ltb (length (text ++ rest)) (length text)) _ _
      (le→ltb-false _ _ (omega (arith, length-append text rest)))
    ∙ ap₂ {C = Str × Rest} (λ a b. (a, b))
        (ap c_string (take_prefix text rest) ∙ c_string-text text nonzero) (drop_prefix text rest)

pub read_string-field :
    (value : Option Str) (rest : List ℕ)
    → IsText (text_of value)
    → read_string (text_field value ++ rest) ≡ (text_of value, rest)
unfolding read_string
read_string-field value rest (nonzero, short) =
    let text = text_of value in
    rw
      (
        append_assoc (octets (length text)) text rest,
        read_int-octets (length text) (text ++ rest) short,
      )
      (string_branch text rest (nonzero, short))

-- The texts of a list, one field after the other.
abbrev pub text_fields : List Str → List ℕ
text_fields [] = []
text_fields (text ∷ texts) = text_field (some text) ++ text_fields texts

pub read_secrets-fields :
    (texts : List Str) (rest : List ℕ)
    → All IsText texts
    → read_secrets (length texts) (text_fields texts ++ rest) ≡ (texts, rest)
unfolding read_secrets
read_secrets-fields [] rest h = refl
read_secrets-fields (text ∷ texts) rest (h, hs) = rw (
  append_assoc (text_field (some text)) (text_fields texts) rest,
  read_string-field (some text) (text_fields texts ++ rest) h,
  read_secrets-fields texts rest hs,
)
