-- ===== src/XAuthorityFile/Records.antt =====
-- The readers and writers of src/x-authority.c, and the loop that reads the records of a file.
use lightdm.Base.{
  ℕ, zero, suc, ◌+◌, ◌*◌, ◌%◌, ◌/◌, List, [], ◌∷◌, ◌++◌, Option, none, some, ltb, length, take,
  drop, if◌then◌else◌,
}
use lightdm.Xdmcp.Packet.{Str}
use lightdm.Xdmcp.Reader.{c_string}
use lightdm.XdmcpServer.State.{XAuthority}

-- A value and what stands behind the new offset; `none` is FALSE.
abbrev pub Read {ℓ} : Type ℓ → Type ℓ
Read A = List ℕ → Option (A × List ℕ)

abbrev pub and_then {ℓ κ} :
    {A : Type ℓ} {B : Type κ} → Option (A × List ℕ) → (A → Read B) → Option (B × List ℕ)
and_then none f = none
and_then (some (a, rest)) f = f a rest

infixl 5 ◌>>=◌
abbrev pub ◌>>=◌ {ℓ κ} : {A : Type ℓ} {B : Type κ} → Read A → (A → Read B) → Read B
◌>>=◌ m f input = and_then (m input) f

abbrev pub pure {ℓ} : {A : Type ℓ} → A → Read A
pure a rest = some (a, rest)

-- `gchar` is signed, so a low octet from 128 on fills the high octet with ones.
unfoldable pub read_uint16 : Read ℕ
read_uint16 (hi ∷ lo ∷ rest) = some (if ltb lo 128 then hi * 256 + lo else 65280 + lo, rest)
read_uint16 rest = none

unfoldable pub read_data : ℕ → Read (List ℕ)
read_data n rest = if ltb (length rest) n then none else some (take n rest, drop n rest)

unfoldable pub read_string : Read Str
read_string = do n ← read_uint16; text ← read_data n; pure (c_string text)

-- The chain of reads in the loop.
unfoldable pub read_record : Read XAuthority
read_record = do
  family ← read_uint16
  address_length ← read_uint16
  address ← read_data address_length
  number ← read_string
  name ← read_string
  length ← read_uint16
  octets ← read_data length
  pure record {
    family = family;
    address = address;
    number = number;
    authorization_name = name;
    authorization_data = octets;
  }

-- The loop, without what it does to a record that matches; `fuel` bounds the records. It ends where
-- the input does, or at a record that cannot be read.
unfoldable pub read_records : ℕ → List ℕ → List XAuthority
read_records zero input = []
read_records (suc fuel) [] = []
read_records (suc fuel) (octet ∷ input) = elim (read_record (octet ∷ input)) [
  | none ↦ []
  | some (a, rest) ↦ a ∷ read_records fuel rest
]

-- The length is cut to sixteen bits; the octets are written in any case.
unfoldable pub write_uint16 : ℕ → List ℕ
write_uint16 value = value % 65536 / 256 ∷ value % 256 ∷ []

unfoldable pub write_string : Str → List ℕ
write_string value = write_uint16 (length value) ++ value

-- The octets of a record, one `write` after the other.
unfoldable pub write_record : XAuthority → List ℕ
write_record a =
    write_uint16 a.family
    ++ (write_uint16 (length a.address)
        ++ (a.address
            ++ (write_string a.number
                ++ (write_string a.authorization_name
                    ++ (write_uint16 (length a.authorization_data) ++ a.authorization_data)))))

unfoldable pub write_records : List XAuthority → List ℕ
write_records [] = []
write_records (a ∷ records) = write_record a ++ write_records records
