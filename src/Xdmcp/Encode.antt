-- ===== src/Xdmcp/Encode.antt =====
-- The result of `xdmcp_packet_encode` (src/xdmcp-protocol.c) on every packet and buffer size.
use lightdm.Base.{
  ℕ, ◌-◌, ◌%◌, ◌≤◌, ◌<◌, ◌≡◌, refl, true, false, List, ◌++◌, some, length, length-take, take, arith,
  le→ltb-false,
}
use lightdm.Xdmcp.Packet.{
  XdmcpPacket, broadcast_query, query, indirect_query, forward_query, willing, unwilling, request,
  accept, decline, manage, refuse, failed, keep_alive, alive, opcode, xdmcp_version,
}
use lightdm.Xdmcp.Writer.{write_body, write_header, start_writer, xdmcp_packet_encode}
use lightdm.Xdmcp.Wire.{word16, payload, frame, IsPacket}
use lightdm.Xdmcp.Emits.{
  Emits, Emits->>, Emits-card8, Emits-card16, Emits-card32, Emits-data, Emits-string,
  Emits-string_array, Emits-types, Emits-addresses,
}

pub Emits-body : (p : XdmcpPacket) → IsPacket p → Emits (write_body p) (payload p)
unfolding write_body payload
Emits-body (broadcast_query names) v = Emits-string_array names v
Emits-body (query names) v = Emits-string_array names v
Emits-body (indirect_query names) v = Emits-string_array names v
Emits-body (forward_query address port names) v =
    Emits->> (Emits-data address v.0)
      (Emits->> (Emits-data port v.1) (Emits-string_array names v.2))
Emits-body (willing name hostname status) v =
    Emits->> (Emits-string name v.0)
      (Emits->> (Emits-string hostname v.1) (Emits-string status v.2))
Emits-body (unwilling hostname status) v =
    Emits->> (Emits-string hostname v.0) (Emits-string status v.1)
Emits-body (request number connections name auth names id) v = Emits->> (Emits-card16 number v.0) (
    Emits->> (Emits-card8 (length connections) v.1) (
      Emits->> (Emits-types connections v.2) (
        Emits->> (Emits-card8 (length connections) v.1) (
          Emits->> (Emits-addresses connections v.2) (
            Emits->> (Emits-string name v.3) (
              Emits->> (Emits-data auth v.4)
                (Emits->> (Emits-string_array names v.5) (Emits-string id v.6))))))))
Emits-body (accept session name auth authorization authorization_data) v =
    Emits->> (Emits-card32 session v.0) (
      Emits->> (Emits-string name v.1) (
        Emits->> (Emits-data auth v.2)
          (Emits->> (Emits-string authorization v.3) (Emits-data authorization_data v.4))))
Emits-body (decline status name auth) v =
    Emits->> (Emits-string status v.0) (Emits->> (Emits-string name v.1) (Emits-data auth v.2))
Emits-body (manage session number class) v =
    Emits->> (Emits-card32 session v.0)
      (Emits->> (Emits-card16 number v.1) (Emits-string class v.2))
Emits-body (refuse session) v = Emits-card32 session v
Emits-body (failed session status) v = Emits->> (Emits-card32 session v.0) (Emits-string status v.1)
Emits-body (keep_alive number session) v =
    Emits->> (Emits-card16 number v.0) (Emits-card32 session v.1)
Emits-body (alive true session) v = Emits->> (Emits-card8 1 (omega arith)) (Emits-card32 session v)
Emits-body (alive false session) v = Emits->> (Emits-card8 0 (omega arith)) (Emits-card32 session v)

pub opcode-le : (p : XdmcpPacket) → (1 ≤ opcode p) × (opcode p ≤ 14)
opcode-le (broadcast_query _) = omega arith
opcode-le (query _) = omega arith
opcode-le _ = omega arith

Emits-header :
    (code n : ℕ)
    → code < 65536
    → n < 65536
    → Emits (write_header code n) (word16 xdmcp_version ++ (word16 code ++ word16 n))
unfolding write_header
Emits-header code n hc hn =
    Emits->> (Emits-card16 1 (omega arith)) (Emits->> (Emits-card16 code hc) (Emits-card16 n hn))

room : (max_length : ℕ) → max_length ≤ 65541 → (max_length - 6) % 65536 ≡ max_length - 6
room max_length h = omega arith

written : (r : ℕ) (bs : List ℕ) → r < 65536 → (r - (r - length bs)) % 65536 ≡ length (take r bs)
written r bs h = omega (arith, length-take r bs)

-- A buffer of more than six octets, but of no more than a guint16 can count, gets the header and as
-- much of the payload as fits; the length in the header is that of what was written.
pub encode_lem :
    (p : XdmcpPacket) (max_length : ℕ)
    → IsPacket p
    → 6 ≤ max_length
    → max_length ≤ 65541
    → xdmcp_packet_encode p max_length ≡ some (frame (opcode p) (take (max_length - 6) (payload p)))
unfolding xdmcp_packet_encode
encode_lem p max_length v lo hi =
    let n : ℕ = length (take (max_length - 6) (payload p)) in
    rw
      (
        le→ltb-false max_length 6 lo,
        Emits-body p v (start_writer (max_length - 6)),
        room max_length hi,
        written (max_length - 6) (payload p) (omega arith),
        Emits-header (opcode p) n (omega (arith, opcode-le p))
            (omega (arith, length-take (max_length - 6) (payload p))) (start_writer 6),
      )
      refl
