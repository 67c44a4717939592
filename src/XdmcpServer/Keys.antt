-- ===== src/XdmcpServer/Keys.antt =====
-- What `decode_key` makes of a key in hexadecimal (src/xdmcp-server.c).
use lightdm.Base.{
  false, if◌then◌else◌, Bool-cases, inl, inr, ◌≤◌, ℕ, zero, suc, ◌*◌, ◌%◌, ◌<◌, ◌≡◌, refl, ap₂,
  Bool, true, List, [], ◌∷◌, bit_or, ◌==◌, ==_iff, arith, str_eq, All,
}
use lightdm.Xdmcp.Packet.{Str}
use lightdm.XdmcpServer.Auth.{atox, decode_hex, decode_key}

atox-lt : (c : ℕ) → atox c < 16
unfolding atox
atox-lt c = ground arith

-- A test passed by every digit value up to `top`.
passes_to : (ℕ → Bool) → ℕ → Bool
passes_to test zero = test zero
passes_to test (suc top) = if test (suc top) then passes_to test top else false

passes_to-at :
    (test : ℕ → Bool) (top digit : ℕ) → passes_to test top ≡ true → digit ≤ top → test digit ≡ true
unfolding passes_to
passes_to-at test zero digit h le = let e : digit ≡ zero = omega arith in rw e h
passes_to-at test (suc top) digit h le = elim (Bool-cases (digit == suc top)) [
  | inl last ↦ let e : digit ≡ suc top = (==_iff digit (suc top)).0 last in rw e (ground arith)
  | inr before ↦ passes_to-at test top digit (ground arith) (ground arith)
]

-- The octet that `decode_hex` stores for two digits.
abbrev stored : ℕ → ℕ → ℕ
stored h l = bit_or (bit_or 0 (h * 256) % 256) l % 256

stored_low : (h l : ℕ) → h < 16 → l < 16 → stored h l ≡ l
stored_low h l hh hl = (==_iff (stored h l) l).0 (
    passes_to-at (λ m. stored h m == m) 15 l
      (passes_to-at (λ k. passes_to (λ m. stored k m == m) 15) 15 h every_pair (omega arith))
      (omega arith))
  where
    every_pair : passes_to (λ k. passes_to (λ m. stored k m == m) 15) 15 ≡ true
    every_pair = unfold passes_to in refl

stored_alone : (h : ℕ) → h < 16 → bit_or 0 (h * 256) % 256 ≡ 0
stored_alone h hh =
    (==_iff (bit_or 0 (h * 256) % 256) 0).0
      (passes_to-at (λ k. bit_or 0 (k * 256) % 256 == 0) 15 h every_digit (omega arith))
  where
    every_digit : passes_to (λ k. bit_or 0 (k * 256) % 256 == 0) 15 ≡ true
    every_digit = unfold passes_to in refl

-- Every second character, as a digit: `n` octets.
unfoldable pub low_digits : ℕ → Str → List ℕ
low_digits zero key = []
low_digits (suc n) [] = 0 ∷ low_digits n []
low_digits (suc n) (hi ∷ []) = 0 ∷ low_digits n []
low_digits (suc n) (hi ∷ lo ∷ key) = atox lo ∷ low_digits n key

decode_hex-low_digits : (n : ℕ) (key : Str) → decode_hex n key ≡ low_digits n key
unfolding decode_hex low_digits
decode_hex-low_digits zero key = refl
decode_hex-low_digits (suc n) [] = ap₂ (λ (b : ℕ) bs. b ∷ bs) refl (decode_hex-low_digits n [])
decode_hex-low_digits (suc n) (hi ∷ []) =
    ap₂ (λ (b : ℕ) bs. b ∷ bs) (stored_alone (atox hi) (atox-lt hi)) (decode_hex-low_digits n [])
decode_hex-low_digits (suc n) (hi ∷ lo ∷ key) =
    ap₂ (λ (b : ℕ) bs. b ∷ bs) (stored_low (atox hi) (atox lo) (atox-lt hi) (atox-lt lo))
      (decode_hex-low_digits n key)

low_digits_small : (n : ℕ) (key : Str) → All (λ b. b < 16) (low_digits n key)
unfolding low_digits
low_digits_small zero key = tt
low_digits_small (suc n) [] = (omega arith, low_digits_small n [])
low_digits_small (suc n) (hi ∷ []) = (omega arith, low_digits_small n [])
low_digits_small (suc n) (hi ∷ lo ∷ key) = (atox-lt lo, low_digits_small n key)

-- A key given as "0x" and hexadecimal digits is not the octets that these digits write: the first
-- octet is 0, since the prefix is read as a pair of digits, and each of the seven others is only the
-- second digit of its pair, a number below 16, since the first digit is shifted out of the octet.
pub decode_key_weak :
    (digits : Str)
    → (decode_key (b'0' ∷ b'x' ∷ digits) ≡ 0 ∷ low_digits 7 digits)
      × All (λ b. b < 16) (decode_key (b'0' ∷ b'x' ∷ digits))
unfolding decode_key str_eq low_digits atox
decode_key_weak digits =
    let e : decode_key (b'0' ∷ b'x' ∷ digits) ≡ 0 ∷ low_digits 7 digits =
      decode_hex-low_digits 8 (b'0' ∷ b'x' ∷ digits) in
    (e, rw e (omega arith, low_digits_small 7 digits))
