-- ===== src/XdmcpServer.antt =====
-- The XDMCP server: its sessions, its answers to each packet (src/xdmcp-server.c), and the session
-- object (src/xdmcp-session.c).
pub mod State
pub mod Address
pub mod Auth
pub mod Handlers
pub mod Dispatch
pub mod Sessions
pub mod Invariant
pub mod Run
pub mod Managed
pub mod Keys
pub mod Answers
pub mod Lifecycle
mod Tests
