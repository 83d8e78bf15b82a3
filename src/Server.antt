-- ===== src/Server.antt =====
-- crates/lunaroute-server/src: the server.
pub mod SessionStats
