-- ===== src/Xdmcp/Reader.antt =====
-- `PacketReader` of src/xdmcp-protocol.c and its readers, as a state monad.
use lightdm.Base.{ℕ, zero, suc, ◌+◌, ◌-◌, ◌*◌, Bool, true, List, [], ◌∷◌, ltb, ◌==◌, if◌then◌else◌}
use lightdm.Xdmcp.Packet.{XdmcpData, Str}

-- `rest` is what stands behind the C reader's `data` pointer.
pub record PacketReader : Type 0 where
  pub rest : List ℕ
  pub remaining : ℕ
  pub overflow : Bool

abbrev pub Read {ℓ} : Type ℓ → Type ℓ
Read A = PacketReader → A × PacketReader

infixl 5 ◌>>=◌
abbrev pub ◌>>=◌ {ℓ κ} : {A : Type ℓ} {B : Type κ} → Read A → (A → Read B) → Read B
◌>>=◌ m f r = let (a, r') = m r in f a r'

abbrev pub pure {ℓ} : {A : Type ℓ} → A → Read A
pure a r = (a, r)

abbrev pub head_or_zero : List ℕ → ℕ
head_or_zero [] = 0
head_or_zero (b ∷ bs) = b

abbrev pub tail : List ℕ → List ℕ
tail [] = []
tail (b ∷ bs) = bs

-- With `remaining` at most the octets that are left, `rest` is never read past its end.
unfoldable pub read_card8 : Read ℕ
read_card8 r =
    if ltb r.remaining 1
    then (0, record r { overflow = true })
    else (head_or_zero r.rest, record r { rest = tail r.rest; remaining = r.remaining - 1 })

-- C leaves open which operand of `|` is evaluated first; this is left to right, as the protocol
-- needs.
unfoldable pub read_card16 : Read ℕ
read_card16 = do hi ← read_card8; lo ← read_card8; pure (hi * 256 + lo)

unfoldable pub read_card32 : Read ℕ
read_card32 = do
  a ← read_card8
  b ← read_card8
  c ← read_card8
  d ← read_card8
  pure (a * 16777216 + b * 65536 + c * 256 + d)

-- A loop that reads `n` items.
unfoldable pub read_times {ℓ} : {A : Type ℓ} → Read A → ℕ → Read (List A)
read_times item zero = pure []
read_times item (suc n) = do x ← item; xs ← read_times item n; pure (x ∷ xs)

unfoldable pub read_data : Read XdmcpData
read_data = do n ← read_card16; read_times read_card8 n

-- What C sees of a buffer as a string.
unfoldable pub c_string : List ℕ → Str
c_string [] = []
c_string (b ∷ bs) = if b == 0 then [] else b ∷ c_string bs

unfoldable pub read_string : Read Str
read_string = do n ← read_card16; octets ← read_times read_card8 n; pure (c_string octets)

unfoldable pub read_string_array : Read (List Str)
read_string_array = do n ← read_card8; read_times read_string n
