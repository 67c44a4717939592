-- ===== src/SessionChild.antt =====
-- The dialogue of a session (src/session.c) with the session child that runs PAM and the command
-- (src/session-child.c), over two pipes.
pub mod Pipe
pub mod Reader
pub mod Child
pub mod Fields
pub mod RoundTrip
pub mod Stopping
pub mod Dialogue
pub mod Refinement
pub mod Login
mod Tests
