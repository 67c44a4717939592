-- ===== src/Xdmcp/Tests.antt =====
-- Runs of the coding of src/xdmcp-protocol.c at concrete packets.
use lightdm.Base.{ℕ, ◌≡◌, refl, List, [], ◌∷◌, some, none, length, arith, codes}
use lightdm.Xdmcp.Packet.{XdmcpPacket, manage, opcode}
use lightdm.Xdmcp.Writer.{
  xdmcp_packet_encode, write_body, write_header, write_card8, write_card16, write_card32,
  write_octets, write_string,
}
use lightdm.Xdmcp.Reader.{
  read_card8, read_card16, read_card32, read_times, read_data, c_string, read_string,
  read_string_array,
}
use lightdm.Xdmcp.Decode.{xdmcp_packet_decode, read_body, read_manage, read_request}
use lightdm.Xdmcp.Wire.{payload, frame}
use lightdm.Xdmcp.RoundTrip.{decode-encode, encode_truncates}
use lightdm.Xdmcp.Accepted.{decode_accepts}

abbrev manage_packet : XdmcpPacket
manage_packet = manage 70000 1 (codes "MIT")

abbrev manage_octets : List ℕ
manage_octets = 0 ∷ 1 ∷ 0 ∷ 10 ∷ 0 ∷ 11 ∷ 0 ∷ 1 ∷ 17 ∷ 112 ∷ 0 ∷ 1 ∷ 0 ∷ 3 ∷ 77 ∷ 73 ∷ 84 ∷ []

encode_manage : xdmcp_packet_encode manage_packet 1024 ≡ some manage_octets
unfolding xdmcp_packet_encode write_body write_header write_card8 write_card16 write_card32
    write_octets write_string
encode_manage = refl

decode_manage : xdmcp_packet_decode manage_octets ≡ some manage_packet
unfolding xdmcp_packet_decode read_body read_manage read_card8 read_card16 read_card32 read_times
    read_string c_string
decode_manage = refl

-- An array of types and one of addresses that do not match in length.
decode_bad_request :
    xdmcp_packet_decode
      (0 ∷ 1 ∷ 0 ∷ 7 ∷ 0 ∷ 13 ∷ 0 ∷ 0 ∷ 0 ∷ 1 ∷ 0 ∷ 0 ∷ 0 ∷ 0 ∷ 0 ∷ 0 ∷ 0 ∷ 0 ∷ 0 ∷ [])
    ≡ none
unfolding xdmcp_packet_decode read_body read_request read_card8 read_card16 read_times read_string
    read_data read_string_array c_string
decode_bad_request = refl

decode-encode_example :
    (octets : List ℕ) × (xdmcp_packet_encode manage_packet 1024 ≡ some octets)
    × (octets ≡ frame (opcode manage_packet) (payload manage_packet))
    × (xdmcp_packet_decode octets ≡ some manage_packet)
unfolding payload
decode-encode_example = decode-encode manage_packet 1024 (omega arith) (omega arith) (omega arith)

encode_truncates_example :
    (octets : List ℕ) × (xdmcp_packet_encode manage_packet 16 ≡ some octets)
    × (length octets ≡ 16)
    × (xdmcp_packet_decode octets ≡ none)
unfolding payload
encode_truncates_example =
    encode_truncates manage_packet 16 (omega arith) (omega arith) (omega arith) (omega arith)

decode_accepts_example : (body : List ℕ) × (manage_octets ≡ frame 10 body)
decode_accepts_example =
    decode_accepts manage_octets manage_packet (omega arith) (omega arith) decode_manage
