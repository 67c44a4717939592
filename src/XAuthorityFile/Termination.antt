-- ===== src/XAuthorityFile/Termination.antt =====
-- The loop of `x_authority_write` in src/x-authority.c ends: each record takes octets.
use lightdm.Base.{
  ℕ, zero, suc, ◌≤◌, ◌≡◌, refl, sym, ap, subst, ◌∙◌, List, [], ◌∷◌, Option, none, some,
  Option-cases, inl, inr, ltb, length, length-drop, arith, if-either,
}
use lightdm.XAuthorityFile.Records.{
  Read, and_then, ◌>>=◌, pure, read_uint16, read_data, read_string, read_record, read_records,
}
use lightdm.XAuthorityFile.RoundTrip.{read_more}

-- What a reader leaves is at most `n` octets.
abbrev Leaves : {A : Type 0} → Option (A × List ℕ) → ℕ → Type 0
Leaves none n = Unit
Leaves (some (a, rest)) n = length rest ≤ n

record Shrinks {A : Type 0} (m : Read A) : Type 0 where
  shrinks : (input : List ℕ) → Leaves (m input) (length input)

more_left : {A : Type 0} (o : Option (A × List ℕ)) (m n : ℕ) → Leaves o m → m ≤ n → Leaves o n
more_left none m n l h = tt
more_left (some (a, rest)) m n l h = omega arith

and_then-Leaves :
    {A B : Type 0} (o : Option (A × List ℕ)) (f : A → Read B) (n : ℕ)
    → Leaves o n
    → ((a : A) → Shrinks (f a))
    → Leaves (and_then o f) n
and_then-Leaves none f n l h = tt
and_then-Leaves (some (a, rest)) f n l h =
    let q = h a in more_left (f a rest) (length rest) n (q.shrinks rest) l

Shrinks->>= :
    {A B : Type 0} {m : Read A} (f : A → Read B)
    → Shrinks m
    → ((a : A) → Shrinks (f a))
    → Shrinks (m >>= f)
Shrinks->>= {m} f p h = record {
  shrinks = λ input. and_then-Leaves (m input) f (length input) (p.shrinks input) h;
}

Shrinks-pure : {A : Type 0} (a : A) → Shrinks (pure a)
Shrinks-pure a = record { shrinks = λ input. omega arith }

uint16-Leaves : (x : ℕ) (xs : List ℕ) → Leaves (read_uint16 (x ∷ xs)) (length xs)
unfolding read_uint16
uint16-Leaves x [] = tt
uint16-Leaves x (y ∷ ys) = omega arith

Shrinks-uint16 : Shrinks read_uint16
unfolding read_uint16
Shrinks-uint16 = record { shrinks = go }
  where
    go : (input : List ℕ) → Leaves (read_uint16 input) (length input)
    go [] = tt
    go (x ∷ xs) =
        more_left (read_uint16 (x ∷ xs)) (length xs) (suc (length xs)) (uint16-Leaves x xs)
          (omega arith)

Shrinks-data : (n : ℕ) → Shrinks (read_data n)
unfolding read_data
Shrinks-data n = record {
  shrinks = λ input.
      if-either (λ (o : Option (List ℕ × List ℕ)). Leaves o (length input)) (ltb (length input) n)
        tt (omega (arith, length-drop n input));
}

Shrinks-string : Shrinks read_string
unfolding read_string
Shrinks-string =
    Shrinks->>= _ Shrinks-uint16 λ n. Shrinks->>= _ (Shrinks-data n) λ text. Shrinks-pure _

record-Leaves : (x : ℕ) (xs : List ℕ) → Leaves (read_record (x ∷ xs)) (length xs)
unfolding read_record
record-Leaves x xs =
    and_then-Leaves (read_uint16 (x ∷ xs)) _ (length xs) (uint16-Leaves x xs) λ family.
      Shrinks->>= _ Shrinks-uint16 λ address_length.
        Shrinks->>= _ (Shrinks-data address_length) λ address.
          Shrinks->>= _ Shrinks-string λ number. Shrinks->>= _ Shrinks-string λ name.
            Shrinks->>= _ Shrinks-uint16
              λ n. Shrinks->>= _ (Shrinks-data n) λ octets. Shrinks-pure _

read_none :
    (fuel x : ℕ) (xs : List ℕ) → read_record (x ∷ xs) ≡ none → read_records (suc fuel) (x ∷ xs) ≡ []
unfolding read_records
read_none fuel x xs e = rw (e, read_records) refl

same_records :
    (fuel k : ℕ) (input : List ℕ)
    → length input ≤ fuel
    → length input ≤ k
    → read_records fuel input ≡ read_records k input
unfolding read_records
same_records zero zero input h h' = refl
same_records zero (suc k) [] h h' = refl
same_records zero (suc k) (x ∷ xs) h h' = absurd (omega arith)
same_records (suc fuel) zero [] h h' = refl
same_records (suc fuel) zero (x ∷ xs) h h' = absurd (omega arith)
same_records (suc fuel) (suc k) [] h h' = refl
same_records (suc fuel) (suc k) (x ∷ xs) h h' = elim (Option-cases (read_record (x ∷ xs))) [
  | inl e ↦ read_none fuel x xs e ∙ sym (read_none k x xs e)
  | inr ((a, rest), e) ↦
      let left : length rest ≤ length xs =
        subst (λ o. Leaves o (length xs)) e (record-Leaves x xs) in
      read_more fuel a (x ∷ xs) rest (omega arith) e
      ∙ ap (◌∷◌ a) (same_records fuel k rest (omega (arith, left, h)) (omega (arith, left, h')))
      ∙ sym (read_more k a (x ∷ xs) rest (omega arith) e)
]

-- The loop over the records of any file ends: more fuel than the octets of the file changes nothing.
pub read_records_ends :
    (input : List ℕ) (fuel : ℕ)
    → length input ≤ fuel
    → read_records fuel input ≡ read_records (length input) input
read_records_ends input fuel h = same_records fuel (length input) input h (omega arith)
