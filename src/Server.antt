-- ===== src/Server.antt =====
-- The server of a game: include/server and sources/server.
pub mod SessionInfo
pub mod Controller
mod Examples
