-- ===== src/Xdmcp/Decode.antt =====
-- `xdmcp_packet_decode` of src/xdmcp-protocol.c.
use lightdm.Base.{
  ℕ, ◌%◌, false, not, List, [], ◌∷◌, Option, none, some, length, ◌==◌, if◌then◌else◌,
}
use lightdm.Xdmcp.Packet.{
  XdmcpData, XdmcpConnection, XdmcpPacket, broadcast_query, query, indirect_query, forward_query,
  willing, unwilling, request, accept, decline, manage, refuse, failed, keep_alive, alive,
  xdmcp_version,
}
use lightdm.Xdmcp.Reader.{
  PacketReader, Read, ◌>>=◌, pure, read_card8, read_card16, read_card32, read_times, read_data,
  read_string, read_string_array,
}

abbrev pub connections_of : List ℕ → List XdmcpData → List XdmcpConnection
connections_of [] addresses = []
connections_of (t ∷ ts) [] = []
connections_of (t ∷ ts) (a ∷ as') = record { type = t; address = a } ∷ connections_of ts as'

-- The cases of the `switch`; `none` is `failed`.
unfoldable pub read_request : Read (Option XdmcpPacket)
read_request = do
  number ← read_card16
  n ← read_card8
  types ← read_times read_card16 n
  m ← read_card8
  addresses ← read_times read_data n
  name ← read_string
  auth ← read_data
  names ← read_string_array
  id ← read_string
  pure (
      if m == n
      then some (request number (connections_of types addresses) name auth names id)
      else none)

unfoldable pub read_forward_query : Read (Option XdmcpPacket)
read_forward_query = do
  address ← read_data
  port ← read_data
  names ← read_string_array
  pure (some (forward_query address port names))

unfoldable pub read_willing : Read (Option XdmcpPacket)
read_willing = do
  name ← read_string
  hostname ← read_string
  status ← read_string
  pure (some (willing name hostname status))

unfoldable pub read_accept : Read (Option XdmcpPacket)
read_accept = do
  session ← read_card32
  name ← read_string
  auth ← read_data
  authorization ← read_string
  authorization_data ← read_data
  pure (some (accept session name auth authorization authorization_data))

unfoldable pub read_decline : Read (Option XdmcpPacket)
read_decline = do
  status ← read_string
  name ← read_string
  auth ← read_data
  pure (some (decline status name auth))

unfoldable pub read_manage : Read (Option XdmcpPacket)
read_manage = do
  session ← read_card32
  number ← read_card16
  class ← read_string
  pure (some (manage session number class))

unfoldable pub read_body : ℕ → Read (Option XdmcpPacket)
read_body code =
    if code == 1
    then (do names ← read_string_array; pure (some (broadcast_query names)))
    else if code == 2
    then (do names ← read_string_array; pure (some (query names)))
    else if code == 3
    then (do names ← read_string_array; pure (some (indirect_query names)))
    else if code == 4
    then read_forward_query
    else if code == 5
    then read_willing
    else if code == 6
    then (do hostname ← read_string; status ← read_string; pure (some (unwilling hostname status)))
    else if code == 7
    then read_request
    else if code == 8
    then read_accept
    else if code == 9
    then read_decline
    else if code == 10
    then read_manage
    else if code == 11
    then (do session ← read_card32; pure (some (refuse session)))
    else if code == 12
    then (do session ← read_card32; status ← read_string; pure (some (failed session status)))
    else if code == 13
    then (do number ← read_card16; session ← read_card32; pure (some (keep_alive number session)))
    else if code == 14
    then (do
      running ← read_card8
      session ← read_card32
      pure (some (alive (not (running == 0)) session)))
    else pure none

-- The checks behind the `switch`: a packet is kept if nothing ran over and nothing is left.
abbrev pub finish : Option XdmcpPacket × PacketReader → Option XdmcpPacket
finish (packet, r) = if r.overflow then none else if r.remaining == 0 then packet else none

-- `remaining` is a guint16.
abbrev pub start_reader : List ℕ → PacketReader
start_reader octets = record { rest = octets; remaining = length octets % 65536; overflow = false }

abbrev pub check_header : ℕ → ℕ → ℕ → PacketReader → Option XdmcpPacket
check_header version code payload_length r =
    if r.overflow
    then none
    else if not (version == xdmcp_version)
    then none
    else if not (payload_length == r.remaining)
    then none
    else finish (read_body code r)

unfoldable pub xdmcp_packet_decode : List ℕ → Option XdmcpPacket
xdmcp_packet_decode octets =
    let (version, r1) = read_card16 (start_reader octets) in
    let (code, r2) = read_card16 r1 in
    let (payload_length, r3) = read_card16 r2 in check_header version code payload_length r3
