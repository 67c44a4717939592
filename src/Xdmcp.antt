-- ===== src/Xdmcp.antt =====
-- The XDMCP protocol: packets and their coding (src/xdmcp-protocol.c, src/xdmcp-protocol.h).
pub mod Packet
pub mod Writer
pub mod Reader
pub mod Decode
pub mod Wire
mod Emits
pub mod Encode
mod Parses
mod Fields
mod Request
mod Body
pub mod RoundTrip
pub mod Accepted
mod Tests
