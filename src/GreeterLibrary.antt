-- ===== src/GreeterLibrary.antt =====
-- The library that greeters are written with (liblightdm-gobject/greeter.c): its side of the
-- protocol with the daemon.
pub mod State
pub mod Requests
pub mod Receiving
pub mod Sending
pub mod Calls
pub mod Sent
pub mod Meaning
pub mod Exchange
pub mod Understanding
pub mod Login
pub mod History
mod Tests
