-- ===== src/Seat.antt =====
-- Seats (src/seat.c), the sessions and the display servers they run.
pub mod State
pub mod Objects
pub mod Properties
pub mod Find
pub mod Configure
pub mod Stop
pub mod Create
pub mod Switch
pub mod Callbacks
pub mod Requests
pub mod Run
pub mod Keeps
pub mod Stopping
pub mod StoppingObjects
pub mod StoppingSwitch
pub mod StoppingCallbacks
pub mod StoppingRun
pub mod Halting
pub mod Telling
pub mod Shutdown
pub mod Switching
mod Tests
