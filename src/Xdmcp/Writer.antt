-- ===== src/Xdmcp/Writer.antt =====
-- `PacketWriter` and `xdmcp_packet_encode` of src/xdmcp-protocol.c.
use lightdm.Base.{
  ℕ, ◌-◌, ◌/◌, ◌%◌, Bool, true, false, List, [], ◌∷◌, ◌++◌, Option, none, some, length, ltb,
  if◌then◌else◌,
}
use lightdm.Xdmcp.Packet.{
  XdmcpData, Str, XdmcpConnection, XdmcpPacket, broadcast_query, query, indirect_query,
  forward_query, willing, unwilling, request, accept, decline, manage, refuse, failed, keep_alive,
  alive, opcode, xdmcp_version,
}

-- `out` holds the octets written so far: what stands before the C writer's `data` pointer.
pub record PacketWriter : Type 0 where
  pub out : List ℕ
  pub remaining : ℕ
  pub overflow : Bool

abbrev pub Write : Type 0
Write = PacketWriter → PacketWriter

infixl 5 ◌>>◌
abbrev pub ◌>>◌ : Write → Write → Write
◌>>◌ f g w = g (f w)

abbrev pub write_nothing : Write
write_nothing w = w

-- The parameter is a guint8, so the value is cut to eight bits.
unfoldable pub write_card8 : ℕ → Write
write_card8 value w =
    if ltb w.remaining 1
    then record w { overflow = true }
    else record w { out = w.out ++ value % 256 ∷ []; remaining = w.remaining - 1 }

unfoldable pub write_card16 : ℕ → Write
write_card16 value = do write_card8 (value % 65536 / 256); write_card8 (value % 65536 % 256)

unfoldable pub write_card32 : ℕ → Write
write_card32 value = do
  write_card8 (value / 16777216 % 256)
  write_card8 (value / 65536 % 256)
  write_card8 (value / 256 % 256)
  write_card8 (value % 256)

unfoldable pub write_octets : List ℕ → Write
write_octets [] = write_nothing
write_octets (b ∷ bs) = do write_card8 b; write_octets bs

unfoldable pub write_data : XdmcpData → Write
write_data value = do write_card16 (length value); write_octets value

unfoldable pub write_string : Str → Write
write_string value = do write_card16 (length value); write_octets value

unfoldable pub write_strings : List Str → Write
write_strings [] = write_nothing
write_strings (s ∷ ss) = do write_string s; write_strings ss

unfoldable pub write_string_array : List Str → Write
write_string_array values = do write_card8 (length values); write_strings values

-- The two loops over the connections of a Request.
unfoldable pub write_types : List XdmcpConnection → Write
write_types [] = write_nothing
write_types (c ∷ cs) = do write_card16 c.type; write_types cs

unfoldable pub write_addresses : List XdmcpConnection → Write
write_addresses [] = write_nothing
write_addresses (c ∷ cs) = do write_data c.address; write_addresses cs

-- The `switch` of `xdmcp_packet_encode`.
unfoldable pub write_body : XdmcpPacket → Write
write_body (broadcast_query names) = write_string_array names
write_body (query names) = write_string_array names
write_body (indirect_query names) = write_string_array names
write_body (forward_query address port names) = do
  write_data address
  write_data port
  write_string_array names
write_body (willing name hostname status) = do
  write_string name
  write_string hostname
  write_string status
write_body (unwilling hostname status) = do write_string hostname; write_string status
write_body (request number connections name auth names id) = do
  write_card16 number
  write_card8 (length connections)
  write_types connections
  write_card8 (length connections)
  write_addresses connections
  write_string name
  write_data auth
  write_string_array names
  write_string id
write_body (accept session name auth authorization authorization_data) = do
  write_card32 session
  write_string name
  write_data auth
  write_string authorization
  write_data authorization_data
write_body (decline status name auth) = do write_string status; write_string name; write_data auth
write_body (manage session number class) = do
  write_card32 session
  write_card16 number
  write_string class
write_body (refuse session) = write_card32 session
write_body (failed session status) = do write_card32 session; write_string status
write_body (keep_alive number session) = do write_card16 number; write_card32 session
write_body (alive running session) = do write_card8 (if running then 1 else 0); write_card32 session

-- A writer at the start of a buffer; `remaining` is a guint16.
abbrev pub start_writer : ℕ → PacketWriter
start_writer room = record { out = []; remaining = room % 65536; overflow = false }

unfoldable pub write_header : ℕ → ℕ → Write
write_header code payload_length = do
  write_card16 xdmcp_version
  write_card16 code
  write_card16 payload_length

-- The octets at the front of `data` that the returned count covers; `none` is -1. The writer of the
-- payload starts behind the header, and the header is written by a fresh writer of six octets.
unfoldable pub xdmcp_packet_encode : XdmcpPacket → ℕ → Option (List ℕ)
xdmcp_packet_encode packet max_length =
    if ltb max_length 6
    then none
    else let body = write_body packet (start_writer (max_length - 6)) in
      let payload_length = (max_length - 6 - body.remaining) % 65536 in
      let header = write_header (opcode packet) payload_length (start_writer 6) in
      if header.overflow then none else some (header.out ++ body.out)
