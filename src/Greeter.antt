-- ===== src/Greeter.antt =====
-- The daemon's end of the greeter protocol (src/greeter.c).
pub mod State
pub mod Writer
pub mod Reader
pub mod Handlers
pub mod Dispatch
pub mod Locked
pub mod LockedHandlers
pub mod Safety
pub mod Revocation
pub mod Login
pub mod Frame
pub mod Fields
pub mod Messages
pub mod Framing
pub mod Delivery
pub mod Fuel
mod Tests
