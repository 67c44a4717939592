-- ===== src/Xdmcp/Emits.antt =====
-- What each write function of src/xdmcp-protocol.c appends to the output, and what it does when
-- the room runs out.
use lightdm.Base.{
  ℕ, zero, suc, ◌+◌, ◌-◌, ◌/◌, ◌%◌, ◌<◌, ◌≢◌, ◌≡◌, refl, ap, ◌∙◌, Bool, ◌||◌, List, [], ◌∷◌, ◌++◌,
  append_assoc, append-nil, length, length-append, take, take-append, take-nil, All, arith, ltb,
  if◌then◌else◌,
}
use lightdm.Xdmcp.Packet.{XdmcpConnection, Str}
use lightdm.Xdmcp.Writer.{
  PacketWriter, Write, ◌>>◌, write_nothing, write_card8, write_card16, write_card32, write_octets,
  write_data, write_string, write_strings, write_string_array, write_types, write_addresses,
}
use lightdm.Xdmcp.Wire.{
  word16, word32, counted, all_counted, counted_array, types_of, addresses_of, IsData, IsStr,
  IsStrArray, IsConnection,
}

-- As much of `bs` as there is room for, and `overflow` if that is not all.
abbrev pub emit : PacketWriter → List ℕ → PacketWriter
emit w bs = record {
  out = w.out ++ take w.remaining bs;
  remaining = w.remaining - length bs;
  overflow = w.overflow || ltb w.remaining (length bs);
}

abbrev pub Emits : Write → List ℕ → Type 0
Emits f bs = (w : PacketWriter) → f w ≡ emit w bs

or-ltb : (o : Bool) (r b c : ℕ) → (o || ltb r b || ltb (r - b) c) ≡ (o || ltb r (b + c))
or-ltb o r b c = ground arith

emit-emit : (w : PacketWriter) (bs cs : List ℕ) → emit (emit w bs) cs ≡ emit w (bs ++ cs)
emit-emit w bs cs = ground (
  arith,
  take-append w.remaining bs cs,
  length-append bs cs,
  append_assoc w.out (take w.remaining bs) (take (w.remaining - length bs) cs),
  or-ltb w.overflow w.remaining (length bs) (length cs),
)

pub Emits-nothing : Emits write_nothing []
Emits-nothing w = ground (arith, take-nil {A = ℕ} w.remaining, append-nil w.out)

pub Emits->> : {f g : Write} {bs cs : List ℕ} → Emits f bs → Emits g cs → Emits (f >> g) (bs ++ cs)
Emits->> {f} {g} {bs} {cs} p q w = ap g (p w) ∙ q (emit w bs) ∙ emit-emit w bs cs

take-one : (r n : ℕ) → take r (n ∷ []) ≡ (if ltb r 1 then [] else n ∷ [])
take-one zero n = refl
take-one (suc zero) n = refl
take-one (suc (suc r)) n = ground arith

pub Emits-card8 : (n : ℕ) → n < 256 → Emits (write_card8 n) (n ∷ [])
unfolding write_card8
Emits-card8 n h w = ground (arith, take-one w.remaining n, append-nil w.out)

word16_high : (n : ℕ) → n < 65536 → n % 65536 / 256 ≡ n / 256
word16_high n h = omega arith

word16_low : (n : ℕ) → n < 65536 → n % 65536 % 256 ≡ n % 256
word16_low n h = omega arith

word32_high : (n : ℕ) → n < 4294967296 → n / 16777216 % 256 ≡ n / 16777216
word32_high n h = omega arith

pub Emits-card16 : (n : ℕ) → n < 65536 → Emits (write_card16 n) (word16 n)
unfolding write_card16
Emits-card16 n h =
    rw (word16_high n h, word16_low n h)
      (Emits->> (Emits-card8 (n / 256) (omega arith)) (Emits-card8 (n % 256) (omega arith)))

pub Emits-card32 : (n : ℕ) → n < 4294967296 → Emits (write_card32 n) (word32 n)
unfolding write_card32
Emits-card32 n h = rw (word32_high n h) (
    Emits->>
      (Emits->>
        (Emits->> (Emits-card8 (n / 16777216) (omega arith))
          (Emits-card8 (n / 65536 % 256) (omega arith)))
        (Emits-card8 (n / 256 % 256) (omega arith)))
      (Emits-card8 (n % 256) (omega arith)))

pub Emits-octets : (bs : List ℕ) → All (λ b. b < 256) bs → Emits (write_octets bs) bs
unfolding write_octets
Emits-octets [] h = Emits-nothing
Emits-octets (b ∷ bs) h = Emits->> (Emits-card8 b h.0) (Emits-octets bs h.1)

pub Emits-data : (bs : List ℕ) → IsData bs → Emits (write_data bs) (counted bs)
unfolding write_data
Emits-data bs h = Emits->> (Emits-card16 (length bs) h.0) (Emits-octets bs h.1)

chars : (s : Str) → All (λ c. (c < 256) × (c ≢ 0)) s → All (λ b. b < 256) s
chars [] h = tt
chars (c ∷ s) h = (h.0.0, chars s h.1)

pub Emits-string : (s : Str) → IsStr s → Emits (write_string s) (counted s)
unfolding write_string
Emits-string s h = Emits->> (Emits-card16 (length s) h.0) (Emits-octets s (chars s h.1))

pub Emits-strings : (ss : List Str) → All IsStr ss → Emits (write_strings ss) (all_counted ss)
unfolding write_strings
Emits-strings [] h = Emits-nothing
Emits-strings (s ∷ ss) h = Emits->> (Emits-string s h.0) (Emits-strings ss h.1)

pub Emits-string_array :
    (ss : List Str) → IsStrArray ss → Emits (write_string_array ss) (counted_array ss)
unfolding write_string_array
Emits-string_array ss h = Emits->> (Emits-card8 (length ss) h.0) (Emits-strings ss h.1)

pub Emits-types :
    (cs : List XdmcpConnection) → All IsConnection cs → Emits (write_types cs) (types_of cs)
unfolding write_types
Emits-types [] h = Emits-nothing
Emits-types (c ∷ cs) h = Emits->> (Emits-card16 c.type h.0.0) (Emits-types cs h.1)

pub Emits-addresses :
    (cs : List XdmcpConnection) → All IsConnection cs → Emits (write_addresses cs) (addresses_of cs)
unfolding write_addresses
Emits-addresses [] h = Emits-nothing
Emits-addresses (c ∷ cs) h = Emits->> (Emits-data c.address h.0.1) (Emits-addresses cs h.1)
