-- ===== src/Xdmcp/Accepted.antt =====
-- Which datagrams `xdmcp_packet_decode` (src/xdmcp-protocol.c) accepts.
use lightdm.Base.{
  ltb→lt, ltb-false→le, ℕ, ◌+◌, ◌*◌, ◌≤◌, ◌<◌, ◌≡◌, inl, inr, refl, sym, ap, ◌∙◌, false, List, [],
  ◌∷◌, ◌++◌, Option, some, none, length, ◌==◌, ltb, if◌then◌else◌, arith, All, Bool-cases, ==_iff,
}
use lightdm.Xdmcp.Packet.{XdmcpPacket, opcode}
use lightdm.Xdmcp.Reader.{PacketReader, Read, pure, read_card16, read_card8}
use lightdm.Xdmcp.Decode.{
  read_request, read_forward_query, read_willing, read_accept, read_decline, read_manage, read_body,
  check_header, xdmcp_packet_decode,
}
use lightdm.Xdmcp.Wire.{word16, frame}
use lightdm.Xdmcp.Parses.{reader}
use lightdm.Xdmcp.RoundTrip.{decode-header}

-- Every packet that the reader gives has this opcode.
record Gives (code : ℕ) (m : Read (Option XdmcpPacket)) : Type 0 where
  gives : (r : PacketReader) (p : XdmcpPacket) → (m r).0 ≡ some p → opcode p ≡ code

Gives-if :
    (code k : ℕ) (f g : Read (Option XdmcpPacket))
    → Gives k f
    → Gives code g
    → Gives code (if code == k then f else g)
Gives-if code k f g p q = elim (Bool-cases (code == k)) [
  | inl same ↦ let e : code ≡ k = (==_iff code k).0 same in rw (same, e) p
  | inr other ↦ rw other q
]

Gives-request : Gives 7 read_request
unfolding read_request
Gives-request = record { gives = λ r p h. ground arith }

Gives-forward_query : Gives 4 read_forward_query
unfolding read_forward_query
Gives-forward_query = record { gives = λ r p h. ground arith }

Gives-willing : Gives 5 read_willing
unfolding read_willing
Gives-willing = record { gives = λ r p h. ground arith }

Gives-accept : Gives 8 read_accept
unfolding read_accept
Gives-accept = record { gives = λ r p h. ground arith }

Gives-decline : Gives 9 read_decline
unfolding read_decline
Gives-decline = record { gives = λ r p h. ground arith }

Gives-manage : Gives 10 read_manage
unfolding read_manage
Gives-manage = record { gives = λ r p h. ground arith }

Gives-none : (code : ℕ) → Gives code (pure none)
Gives-none code = record { gives = λ r p h. cc }

-- The `switch` gives only packets of the opcode that it is at.
Gives-body : (code : ℕ) → Gives code (read_body code)
unfolding read_body
Gives-body code =
    Gives-if code 1 _ _ (record { gives = λ r p h. ground arith })
      (Gives-if code 2 _ _ (record { gives = λ r p h. ground arith })
        (Gives-if code 3 _ _ (record { gives = λ r p h. ground arith })
          (Gives-if code 4 _ _ Gives-forward_query (
            Gives-if code 5 _ _ Gives-willing (
              Gives-if code 6 _ _ (record { gives = λ r p h. ground arith })
                (Gives-if code 7 _ _ Gives-request (
                  Gives-if code 8 _ _ Gives-accept (
                    Gives-if code 9 _ _ Gives-decline (
                      Gives-if code 10 _ _ Gives-manage (
                        Gives-if code 11 _ _ (record { gives = λ r p h. ground arith })
                          (Gives-if code 12 _ _ (record { gives = λ r p h. ground arith })
                            (Gives-if code 13 _ _ (record { gives = λ r p h. ground arith })
                              (Gives-if code 14 _ _ (record { gives = λ r p h. ground arith })
                                (Gives-none code))))))))))))))

abbrev Header : List ℕ → Type 0
Header octets =
    (version code n : ℕ) × (body : List ℕ) × (octets
      ≡ word16 version ++ (word16 code ++ (word16 n ++ body)))

Header-of : (octets : List ℕ) → All (λ b. b < 256) octets → 6 ≤ length octets → Header octets
Header-of (a ∷ b ∷ c ∷ d ∷ e ∷ f ∷ body) h six =
    (a * 256 + b, c * 256 + d, e * 256 + f, body, ground arith)
Header-of _ h six = absurd (omega arith)

short : (octets : List ℕ) → length octets < 6 → xdmcp_packet_decode octets ≡ none
unfolding xdmcp_packet_decode read_card16 read_card8
short [] h = refl
short (a ∷ []) h = refl
short (a ∷ b ∷ []) h = refl
short (a ∷ b ∷ c ∷ []) h = refl
short (a ∷ b ∷ c ∷ d ∷ []) h = refl
short (a ∷ b ∷ c ∷ d ∷ e ∷ []) h = refl
short (a ∷ b ∷ c ∷ d ∷ e ∷ f ∷ l) h = absurd (omega arith)

-- What passing the checks of `xdmcp_packet_decode` means.
checked :
    (version code n : ℕ) (body : List ℕ) (p : XdmcpPacket)
    → check_header version code n (reader body (length body) false) ≡ some p
    → (version ≡ 1)
      × (n ≡ length body)
      × ((read_body code (reader body (length body) false)).0 ≡ some p)
checked version code n body p h = ground arith

from_header :
    (p : XdmcpPacket) (version code n : ℕ) (body octets : List ℕ)
    → octets ≡ word16 version ++ (word16 code ++ (word16 n ++ body))
    → length octets < 65536
    → xdmcp_packet_decode octets ≡ some p
    → octets ≡ frame (opcode p) body
from_header p version code n body octets e lt h =
    let at_header = rw e at h in
    let small : length body < 65530 = omega (arith, ap length e) in
    let (one, counted, given) =
      checked version code n body p (sym (decode-header version code n body small) ∙ at_header) in
    e ∙ rw (one, counted, (Gives-body code).gives (reader body (length body) false) p given) refl

-- A datagram (of at most 65,535 octets) that decodes to a packet is a header of version 1 with the
-- packet's opcode and the exact count of the octets behind it, and then those octets: datagrams that
-- are too short, of another version, of an unknown opcode or miscounted are all refused.
pub decode_accepts :
    (octets : List ℕ) (p : XdmcpPacket)
    → All (λ b. b < 256) octets
    → length octets < 65536
    → xdmcp_packet_decode octets ≡ some p
    → (body : List ℕ) × (octets ≡ frame (opcode p) body)
decode_accepts octets p bytes lt h = elim (Bool-cases (ltb (length octets) 6)) [
  | inl less ↦ cc (short octets (ltb→lt (length octets) 6 less))
  | inr more ↦
      let (version, code, n, body, e) =
        Header-of octets bytes (ltb-false→le (length octets) 6 more) in
      (body, from_header p version code n body octets e lt h)
]
