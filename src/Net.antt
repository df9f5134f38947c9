-- ===== src/Net.antt =====
-- The network library: include/net.
pub mod Session
pub mod Server
pub mod Link
pub mod Client
mod Examples
