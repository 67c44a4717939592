-- ===== src/Xdmcp/RoundTrip.antt =====
-- `xdmcp_packet_decode` after `xdmcp_packet_encode`, and `xdmcp_packet_decode` on other input.
use native.Mathlib.Nat.{add-zero}
use lightdm.Base.{
  ℕ, suc, ◌+◌, ◌-◌, ◌%◌, ◌≤◌, ◌<◌, ◌≡◌, ◌≢◌, refl, ap, ◌∙◌, Bool, true, false, List, [], ◌++◌,
  append-nil, Option, some, none, length, length-take, take, take-all, not, ==_refl, ◌==◌,
  if◌then◌else◌, arith,
}
use lightdm.Xdmcp.Packet.{XdmcpPacket, opcode, xdmcp_version}
use lightdm.Xdmcp.Writer.{xdmcp_packet_encode}
use lightdm.Xdmcp.Reader.{PacketReader}
use lightdm.Xdmcp.Decode.{read_body, finish, check_header, xdmcp_packet_decode}
use lightdm.Xdmcp.Wire.{word16, payload, frame, IsPacket}
use lightdm.Xdmcp.Parses.{reader}
use lightdm.Xdmcp.Fields.{Parses-card16}
use lightdm.Xdmcp.Body.{Parses-body}
use lightdm.Xdmcp.Encode.{encode_lem}

-- Behind the three words of a header.
pub decode-header :
    (version code n : ℕ) (body : List ℕ)
    → length body < 65530
    → xdmcp_packet_decode (word16 version ++ (word16 code ++ (word16 n ++ body)))
      ≡ check_header version code n (reader body (length body) false)
unfolding xdmcp_packet_decode
decode-header version code n body h =
    rw
      (
        count (length body) h,
        (Parses-card16 version).reads (word16 code ++ (word16 n ++ body)) (2 + (2 + length body))
            false,
        (Parses-card16 code).reads (word16 n ++ body) (2 + length body) false,
        (Parses-card16 n).reads body (length body) false,
      )
      refl
  where
    count : (k : ℕ) → k < 65530 → suc (suc (suc (suc (suc (suc k))))) % 65536 ≡ 2 + (2 + (2 + k))
    count k lt = omega arith

finish-overflow : (r : Option XdmcpPacket × PacketReader) → r.1.overflow ≡ true → finish r ≡ none
finish-overflow r h = ground arith

differs : (a b : ℕ) → a ≢ b → not (a == b) ≡ true
differs a b h = ground arith

module _ (p : XdmcpPacket) (v : IsPacket p) where
  body_lem : finish (read_body (opcode p) (reader (payload p) (length (payload p)) false)) ≡ some p
  body_lem = rw (append-nil, add-zero, ends) at whole
    where
      ends : (finish (some p, reader [] 0 false)) ≡ some p
      ends = refl

      whole :
          finish (read_body (opcode p) (reader (payload p ++ []) (length (payload p) + 0) false))
          ≡ finish (some p, reader [] 0 false)
      whole = ap finish ((Parses-body p v).reads [] 0 false)

  starved :
      (k : ℕ)
      → k < length (payload p)
      → finish (read_body (opcode p) (reader (take k (payload p)) k false)) ≡ none
  starved k h =
      finish-overflow (read_body (opcode p) (reader (take k (payload p)) k false))
        ((Parses-body p v).starves k false h)

-- A header that does not count the octets behind it.
pub decode_miscounted :
    (version code n : ℕ) (body : List ℕ)
    → length body < 65530
    → n ≢ length body
    → xdmcp_packet_decode (word16 version ++ (word16 code ++ (word16 n ++ body))) ≡ none
decode_miscounted version code n body h ne =
    decode-header version code n body h
    ∙ rw (differs n (length body) ne) (if-none (not (version == xdmcp_version)))
  where
    if-none : (b : Bool) → (if◌then◌else◌ {A = Option XdmcpPacket} b none none) ≡ none
    if-none true = refl
    if-none false = refl

module _ (p : XdmcpPacket) (v : IsPacket p) where
  decode-frame :
      length (payload p) < 65530 → xdmcp_packet_decode (frame (opcode p) (payload p)) ≡ some p
  decode-frame h =
      decode-header 1 (opcode p) (length (payload p)) (payload p) h
      ∙ rw (==_refl (length (payload p))) (body_lem p v)

  decode-frame_short :
      (k : ℕ)
      → k < length (payload p)
      → k < 65530
      → xdmcp_packet_decode (frame (opcode p) (take k (payload p))) ≡ none
  decode-frame_short k short h =
      let bs : List ℕ = take k (payload p) in
      let count : length bs ≡ k = omega (arith, length-take k (payload p)) in
      decode-header 1 (opcode p) (length bs) bs (omega arith)
      ∙ rw (==_refl (length bs)) (rw count (starved p v k short))

-- A valid packet that fits the buffer is encoded, to the octets that the protocol's layout asks
-- for, and these decode to the packet. The buffer has at most 65,535 octets.
pub decode-encode :
    (p : XdmcpPacket) (max_length : ℕ)
    → IsPacket p
    → length (payload p) + 6 ≤ max_length
    → max_length < 65536
    → (octets : List ℕ) × (xdmcp_packet_encode p max_length ≡ some octets)
      × (octets ≡ frame (opcode p) (payload p))
      × (xdmcp_packet_decode octets ≡ some p)
decode-encode p max_length v fits small =
    let whole : take (max_length - 6) (payload p) ≡ payload p =
      take-all (max_length - 6) (payload p) (omega arith) in
    (
      frame (opcode p) (payload p),
      encode_lem p max_length v (omega arith) (omega arith)
          ∙ ap (λ (bs : List ℕ). some (frame (opcode p) bs)) whole,
      refl,
      decode-frame p v (omega arith),
    )

-- A valid packet that does not fit a buffer of 6 to 65,535 octets is encoded all the same: the call
-- reports no overflow, and the octets that it returns do not decode.
pub encode_truncates :
    (p : XdmcpPacket) (max_length : ℕ)
    → IsPacket p
    → 6 ≤ max_length
    → max_length < length (payload p) + 6
    → max_length < 65536
    → (octets : List ℕ) × (xdmcp_packet_encode p max_length ≡ some octets)
      × (length octets ≡ max_length)
      × (xdmcp_packet_decode octets ≡ none)
encode_truncates p max_length v lo short small = (
  frame (opcode p) (take (max_length - 6) (payload p)),
  encode_lem p max_length v lo (omega arith),
  omega (arith, length-take (max_length - 6) (payload p)),
  decode-frame_short p v (max_length - 6) (omega arith) (omega arith),
)
