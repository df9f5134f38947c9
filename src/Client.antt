-- ===== src/Client.antt =====
-- The client library: include/client.
pub mod Controller
mod Examples
