-- ===== src/XAuthorityFile.antt =====
-- The files of X authority records (src/x-authority.c).
pub mod Records
pub mod Write
pub mod RoundTrip
pub mod Effects
pub mod Termination
mod Tests
