-- ===== src/Xdmcp/Packet.antt =====
-- The packets of src/xdmcp-protocol.h. The tagged union is a data type; octets, strings and data
-- are lists of numbers. A string holds its characters up to the terminating NUL, and the `length`
-- of an `XdmcpData` is the length of its list.
use lightdm.Base.{ℕ, Bool, List}

abbrev pub XdmcpData : Type 0
XdmcpData = List ℕ

abbrev pub Str : Type 0
Str = List ℕ

pub record XdmcpConnection : Type 0 where
  pub type : ℕ
  pub address : XdmcpData

pub data XdmcpPacket : Type 0 where
  broadcast_query query indirect_query : (authentication_names : List Str) → XdmcpPacket
  forward_query :
      (client_address client_port : XdmcpData) (authentication_names : List Str) → XdmcpPacket
  willing : (authentication_name hostname status : Str) → XdmcpPacket
  unwilling : (hostname status : Str) → XdmcpPacket
  request :
      (display_number : ℕ) (connections : List XdmcpConnection) (authentication_name : Str)
      (authentication_data : XdmcpData) (authorization_names : List Str)
      (manufacturer_display_id : Str)
      → XdmcpPacket
  accept :
      (session_id : ℕ) (authentication_name : Str) (authentication_data : XdmcpData)
      (authorization_name : Str) (authorization_data : XdmcpData)
      → XdmcpPacket
  decline : (status authentication_name : Str) (authentication_data : XdmcpData) → XdmcpPacket
  manage : (session_id display_number : ℕ) (display_class : Str) → XdmcpPacket
  refuse : (session_id : ℕ) → XdmcpPacket
  failed : (session_id : ℕ) (status : Str) → XdmcpPacket
  keep_alive : (display_number session_id : ℕ) → XdmcpPacket
  alive : (session_running : Bool) (session_id : ℕ) → XdmcpPacket

-- The numbers of `XDMCPOpcode`.
abbrev pub opcode : XdmcpPacket → ℕ
opcode (broadcast_query _) = 1
opcode (query _) = 2
opcode (indirect_query _) = 3
opcode (forward_query _ _ _) = 4
opcode (willing _ _ _) = 5
opcode (unwilling _ _) = 6
opcode (request _ _ _ _ _ _) = 7
opcode (accept _ _ _ _ _) = 8
opcode (decline _ _ _) = 9
opcode (manage _ _ _) = 10
opcode (refuse _) = 11
opcode (failed _ _) = 12
opcode (keep_alive _ _) = 13
opcode (alive _ _) = 14

abbrev pub xdmcp_version : ℕ
xdmcp_version = 1
