-- ===== src/Session.antt =====
-- The daemon's side of a session while it is authenticated (src/session.c).
pub mod Authentication
