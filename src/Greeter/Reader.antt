-- ===== src/Greeter/Reader.antt =====
-- The functions of src/greeter.c that read a message: `rest` is what stands behind `offset`.
use lightdm.Base.{
  ℕ, zero, suc, ◌+◌, ◌*◌, ◌%◌, List, [], ◌∷◌, ltb, length, take, drop, if◌then◌else◌,
}
use lightdm.Session.Authentication.{Str}
use lightdm.Xdmcp.Reader.{c_string}

abbrev pub Rest : Type 0
Rest = List ℕ

abbrev pub Read {ℓ} : Type ℓ → Type ℓ
Read A = Rest → A × Rest

-- Without four octets the result is 0 and the offset stays.
unfoldable pub read_int : Read ℕ
read_int (a ∷ b ∷ c ∷ d ∷ rest) = (a * 16777216 + b * 65536 + c * 256 + d, rest)
read_int rest = (0, rest)

-- The C string at the front of the `length` octets, or "" where they are not all there; the length
-- itself is read then.
unfoldable pub read_string : Read Str
read_string rest =
    let (n, rest') = read_int rest in
    if ltb (length rest') n then ([], rest') else (c_string (take n rest'), drop n rest')

unfoldable pub read_secrets : ℕ → Read (List Str)
read_secrets zero rest = ([], rest)
read_secrets (suc n) rest =
    let (secret, rest') = read_string rest in
    let (secrets, rest'') = read_secrets n rest' in (secret ∷ secrets, rest'')

-- An `int` as a gsize: the sign is carried into the upper 32 bits.
unfoldable pub sign_extend : ℕ → ℕ
sign_extend n = if ltb n 2147483648 then n else n + 18446744069414584320

-- `HEADER_SIZE + payload_length` on gsize, for an `int payload_length`.
unfoldable pub header_plus : ℕ → ℕ
header_plus payload_length = (8 + sign_extend payload_length) % 18446744073709551616

-- The int that is returned, as the gsize it is assigned to.
unfoldable pub get_message_length : List ℕ → ℕ
get_message_length buffer =
    let (payload_length, _) = read_int (drop 4 buffer) in
    if ltb (header_plus payload_length) 8
    then 8
    else sign_extend (header_plus payload_length % 4294967296)
