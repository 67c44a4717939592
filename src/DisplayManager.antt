-- ===== src/DisplayManager.antt =====
-- The display manager and its seats (src/display-manager.c).
pub mod Manager
pub mod Stopping
mod Tests
