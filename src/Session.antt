-- ===== src/Session.antt =====
-- crates/lunaroute-session/src: the recorded sessions.
pub mod Search
pub mod SqliteWriter
pub mod Cleanup
