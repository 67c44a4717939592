-- ===== src/Seat/Switching.antt =====
-- What counts as true in the configuration of a seat (src/seat.c).
use lightdm.Base.{
  ℕ, ◌+◌, ◌-◌, ◌≤◌, zero, suc, true, [], ◌∷◌, ◌++◌, if◌then◌else◌, ◌≡◌, refl, arith, ltb, length,
  take, drop, take-all, take-append-drop, ltb→lt, ltb-false→le, sym, ap, ◌∙◌, subst, str_eq, codes,
  if-true, if-known, ◌↔◌, str_eq→eq, str_eq_refl, All,
}
use native.Mathlib.Nat.{sub-zero}
use lightdm.Session.Authentication.{Str}
use lightdm.Seat.Properties.{is_true, length_of, is_space}

abbrev pub IsSpace : ℕ → Type 0
IsSpace c = is_space c ≡ true

length_of-spaces : (i found : ℕ) (text : Str) → All IsSpace text → length_of i found text ≡ found
unfolding length_of
length_of-spaces i found [] h = refl
length_of-spaces i found (c ∷ text) (h, hs) =
    rw (if-true (is_space c) found (i + 1) h) (length_of-spaces (i + 1) found text hs)

length_of_bounds :
    (i found : ℕ) (text : Str)
    → found ≤ i
    → (found ≤ length_of i found text) × (length_of i found text ≤ i + length text)
unfolding length_of
length_of_bounds i found [] h = (omega arith, omega arith)
length_of_bounds i found (c ∷ text) h =
    if-known
      (λ found'.
        (found ≤ length_of (i + 1) found' text)
        × (length_of (i + 1) found' text ≤ i + suc (length text)))
      (is_space c)
      (λ e.
        let (low, high) = length_of_bounds (i + 1) found text (omega arith) in
        (low, omega (arith, high)))
      (λ e.
        let (low, high) = length_of_bounds (i + 1) (i + 1) text (omega arith) in
        (omega (arith, low), omega (arith, high)))

all_drop-nil : (k : ℕ) → All IsSpace (drop k [])
all_drop-nil zero = tt
all_drop-nil (suc k) = tt

all_drop-cons :
    (k m : ℕ) (c : ℕ) (text : Str)
    → (k ≡ zero → IsSpace c)
    → (k ≡ zero → m ≡ zero)
    → ((j : ℕ) → k ≡ suc j → m ≡ j)
    → All IsSpace (drop m text)
    → All IsSpace (drop k (c ∷ text))
all_drop-cons zero m c text space start step h =
    (space refl, subst (λ n. All IsSpace (drop n text)) (start refl) h)
all_drop-cons (suc k) m c text space start step h =
    subst (λ n. All IsSpace (drop n text)) (step k refl) h

-- Behind the length that the loop finds there are spaces only.
spaces_behind :
    (i found : ℕ) (text : Str) → found ≤ i → All IsSpace (drop (length_of i found text - i) text)
unfolding length_of
spaces_behind i found [] h = all_drop-nil (found - i)
spaces_behind i found (c ∷ text) h =
    if-known (λ found'. All IsSpace (drop (length_of (i + 1) found' text - i) (c ∷ text)))
      (is_space c)
      (λ e.
        let rest = spaces_behind (i + 1) found text (omega arith) in
        all_drop-cons (length_of (i + 1) found text - i) (length_of (i + 1) found text - (i + 1)) c
          text (λ _. e) (λ k. omega arith) (λ j k. omega arith) rest)
      (λ e.
        let rest = spaces_behind (i + 1) (i + 1) text (omega arith) in
        let (low, high) = length_of_bounds (i + 1) (i + 1) text (omega arith) in
        all_drop-cons (length_of (i + 1) (i + 1) text - i)
          (length_of (i + 1) (i + 1) text - (i + 1)) c text (λ k. absurd (omega (arith, low, k)))
          (λ k. omega arith) (λ j k. omega arith) rest)

all_drop-more :
    (k m : ℕ) (text : Str) → k ≤ m → All IsSpace (drop k text) → All IsSpace (drop m text)
all_drop-more zero zero text h all = all
all_drop-more zero (suc m) [] h all = tt
all_drop-more zero (suc m) (c ∷ text) h (space, all) = all_drop-more zero m text (omega arith) all
all_drop-more (suc k) zero text h all = absurd (omega arith)
all_drop-more (suc k) (suc m) [] h all = tt
all_drop-more (suc k) (suc m) (c ∷ text) h all = all_drop-more k m text (omega arith) all

abbrev IsTrueText : Str → Type 0
IsTrueText value = (rest : Str) × (value ≡ codes "true" ++ rest) × All IsSpace rest

split_at :
    (n : ℕ) (value : Str)
    → take n value ≡ codes "true"
    → All IsSpace (drop n value)
    → IsTrueText value
split_at n value e spaces =
    (drop n value, sym (take-append-drop n value) ∙ ap (λ t. t ++ drop n value) e, spaces)

-- What `strncmp` compares.
true_lem :
    (n : ℕ) (value : Str)
    → All IsSpace (drop n value)
    → str_eq
        (take (if ltb n 4 then 4 else n) value)
        (take (if ltb n 4 then 4 else n) (codes "true"))
      ≡ true
    → IsTrueText value
true_lem n value spaces =
    if-known (λ m. str_eq (take m value) (take m (codes "true")) ≡ true → IsTrueText value)
      (ltb n 4)
      (λ small e.
        split_at 4 value (str_eq→eq (take 4 value) (codes "true") e)
          (all_drop-more n 4 value (omega (arith, ltb→lt n 4 small)) spaces))
      (λ large e.
        split_at n value (str_eq→eq _ _ e ∙ take-all n (codes "true") (ltb-false→le n 4 large))
          spaces)

true_with : (rest : Str) → All IsSpace rest → is_true (codes "true" ++ rest) ≡ true
unfolding is_true length_of
true_with rest spaces =
    subst
      (λ n.
        str_eq (take (if ltb n 4 then 4 else n) (codes "true" ++ rest))
          (take (if ltb n 4 then 4 else n) (codes "true"))
        ≡ true)
      (sym (length_of-spaces 4 4 rest spaces)) (str_eq_refl (codes "true"))

-- A property of a seat counts as true exactly if its value is "true" with nothing but spaces behind
-- it.
pub is_true_iff :
    (value : Str)
    → (is_true value ≡ true) ↔ ((rest : Str) × (value ≡ codes "true" ++ rest) × All IsSpace rest)
unfolding is_true
is_true_iff value = (
  true_lem (length_of 0 0 value) value (
      subst (λ n. All IsSpace (drop n value)) (sub-zero (length_of 0 0 value))
        (spaces_behind 0 0 value (omega arith))),
  λ (rest, e, spaces). subst (λ v. is_true v ≡ true) (sym e) (true_with rest spaces),
)
