-- ===== src/Xdmcp/Fields.antt =====
-- What the readers of words, data, strings and arrays of src/xdmcp-protocol.c take from their input.
use lightdm.Base.{
  ℕ, zero, suc, ◌+◌, ◌*◌, ◌/◌, ◌%◌, ◌<◌, ◌≢◌, ◌≡◌, refl, ap, List, [], ◌∷◌, ◌++◌, length, All,
  arith,
}
use lightdm.Xdmcp.Packet.{XdmcpConnection, Str}
use lightdm.Xdmcp.Reader.{
  Read, ◌>>=◌, pure, read_card8, read_card16, read_card32, read_times, read_data, c_string,
  read_string, read_string_array,
}
use lightdm.Xdmcp.Wire.{
  word16, word32, counted, all_counted, counted_array, types_of, addresses_of, IsStr, IsStrArray,
}
use lightdm.Xdmcp.Parses.{
  Keeps, Keeps-pure, Keeps->>=, Keeps-card8, Parses, Parses-pure, Parses->>=, Parses-last,
  Parses-card8,
}

pub Keeps-card16 : Keeps read_card16
unfolding read_card16
Keeps-card16 =
    Keeps->>= Keeps-card8 (λ hi. Keeps->>= Keeps-card8 (λ lo. Keeps-pure (hi * 256 + lo)))

pub Keeps-card32 : Keeps read_card32
unfolding read_card32
Keeps-card32 = Keeps->>= Keeps-card8 λ a. Keeps->>= Keeps-card8 λ b.
    Keeps->>= Keeps-card8
      λ c. Keeps->>= Keeps-card8 λ d. Keeps-pure (a * 16777216 + b * 65536 + c * 256 + d)

join16 : (n : ℕ) → n / 256 * 256 + n % 256 ≡ n
join16 n = omega arith

pub Parses-card16 : (n : ℕ) → Parses read_card16 n (word16 n)
unfolding read_card16
Parses-card16 n =
    Parses->>= (Parses-card8 (n / 256))
      (λ hi. Keeps->>= Keeps-card8 λ lo. Keeps-pure (hi * 256 + lo))
      (Parses-last (Parses-card8 (n % 256)) (λ lo. Keeps-pure (n / 256 * 256 + lo))
        (ap pure (join16 n)))

join32 :
    (n : ℕ) → n / 16777216 * 16777216 + n / 65536 % 256 * 65536 + n / 256 % 256 * 256 + n % 256 ≡ n
join32 n = omega arith

module _ (a : ℕ) where
  Keeps-low : (b c : ℕ) → Keeps (do d ← read_card8; pure (a * 16777216 + b * 65536 + c * 256 + d))
  Keeps-low b c = Keeps->>= Keeps-card8 λ d. Keeps-pure (a * 16777216 + b * 65536 + c * 256 + d)

  Keeps-middle :
      (b : ℕ)
      → Keeps (do c ← read_card8; d ← read_card8; pure (a * 16777216 + b * 65536 + c * 256 + d))
  Keeps-middle b = Keeps->>= Keeps-card8 (Keeps-low b)

pub Parses-card32 : (n : ℕ) → Parses read_card32 n (word32 n)
unfolding read_card32
Parses-card32 n =
    let a = n / 16777216 in
    let b = n / 65536 % 256 in
    let c = n / 256 % 256 in
    Parses->>= (Parses-card8 a) (λ a'. Keeps->>= Keeps-card8 (Keeps-middle a'))
      (Parses->>= (Parses-card8 b) (Keeps-middle a) (
        Parses->>= (Parses-card8 c) (Keeps-low a b) (
          Parses-last (Parses-card8 (n % 256))
            (λ d. Keeps-pure (a * 16777216 + b * 65536 + c * 256 + d)) (ap pure (join32 n)))))

module _ {ℓ} {A : Type ℓ} (item : Read A) (keeps : Keeps item) where
  pub Keeps-times : (n : ℕ) → Keeps (read_times item n)
  unfolding read_times
  Keeps-times zero = Keeps-pure []
  Keeps-times (suc n) = Keeps->>= keeps λ x. Keeps->>= (Keeps-times n) λ xs. Keeps-pure (x ∷ xs)

  -- One more round of a counted loop.
  pub Parses-times :
      {x : A} (n : ℕ) {xs : List A} {bs cs : List ℕ}
      → Parses item x bs
      → Parses (read_times item n) xs cs
      → Parses (read_times item (suc n)) (x ∷ xs) (bs ++ cs)
  unfolding read_times
  Parses-times {x} n {xs} p q =
      Parses->>= p (λ y. Keeps->>= (Keeps-times n) λ ys. Keeps-pure (y ∷ ys))
        (Parses-last q (λ ys. Keeps-pure (x ∷ ys)) refl)

  pub Parses-times_zero : Parses (read_times item zero) [] []
  unfolding read_times
  Parses-times_zero = Parses-pure []

pub Parses-octets : (bs : List ℕ) → Parses (read_times read_card8 (length bs)) bs bs
Parses-octets [] = Parses-times_zero read_card8 Keeps-card8
Parses-octets (b ∷ bs) =
    Parses-times read_card8 Keeps-card8 (length bs) (Parses-card8 b) (Parses-octets bs)

pub Keeps-data : Keeps read_data
unfolding read_data
Keeps-data = Keeps->>= Keeps-card16 (Keeps-times read_card8 Keeps-card8)

pub Parses-data : (bs : List ℕ) → Parses read_data bs (counted bs)
unfolding read_data
Parses-data bs =
    Parses->>= (Parses-card16 (length bs)) (Keeps-times read_card8 Keeps-card8) (Parses-octets bs)

c_string-IsStr : (s : Str) → All (λ c. (c < 256) × (c ≢ 0)) s → c_string s ≡ s
unfolding c_string
c_string-IsStr [] h = refl
c_string-IsStr (c ∷ s) h = ground (arith, c_string-IsStr s h.1)

pub Keeps-string : Keeps read_string
unfolding read_string
Keeps-string =
    Keeps->>= Keeps-card16
      λ n. Keeps->>= (Keeps-times read_card8 Keeps-card8 n) λ octets. Keeps-pure (c_string octets)

pub Parses-string : (s : Str) → IsStr s → Parses read_string s (counted s)
unfolding read_string
Parses-string s h =
    Parses->>= (Parses-card16 (length s))
      (λ n. Keeps->>= (Keeps-times read_card8 Keeps-card8 n) λ octets. Keeps-pure (c_string octets))
      (Parses-last (Parses-octets s) (λ octets. Keeps-pure (c_string octets))
        (ap pure (c_string-IsStr s h.1)))

Parses-strings :
    (ss : List Str) → All IsStr ss → Parses (read_times read_string (length ss)) ss (all_counted ss)
Parses-strings [] h = Parses-times_zero read_string Keeps-string
Parses-strings (s ∷ ss) h =
    Parses-times read_string Keeps-string (length ss) (Parses-string s h.0) (Parses-strings ss h.1)

pub Keeps-string_array : Keeps read_string_array
unfolding read_string_array
Keeps-string_array = Keeps->>= Keeps-card8 (Keeps-times read_string Keeps-string)

pub Parses-string_array :
    (ss : List Str) → IsStrArray ss → Parses read_string_array ss (counted_array ss)
unfolding read_string_array
Parses-string_array ss h =
    Parses->>= (Parses-card8 (length ss)) (Keeps-times read_string Keeps-string)
      (Parses-strings ss h.1)

abbrev pub types : List XdmcpConnection → List ℕ
types [] = []
types (c ∷ cs) = c.type ∷ types cs

abbrev pub addresses : List XdmcpConnection → List (List ℕ)
addresses [] = []
addresses (c ∷ cs) = c.address ∷ addresses cs

pub Parses-types :
    (cs : List XdmcpConnection)
    → Parses (read_times read_card16 (length cs)) (types cs) (types_of cs)
Parses-types [] = Parses-times_zero read_card16 Keeps-card16
Parses-types (c ∷ cs) =
    Parses-times read_card16 Keeps-card16 (length cs) (Parses-card16 c.type) (Parses-types cs)

pub Parses-addresses :
    (cs : List XdmcpConnection)
    → Parses (read_times read_data (length cs)) (addresses cs) (addresses_of cs)
Parses-addresses [] = Parses-times_zero read_data Keeps-data
Parses-addresses (c ∷ cs) =
    Parses-times read_data Keeps-data (length cs) (Parses-data c.address) (Parses-addresses cs)
