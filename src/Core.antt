-- ===== src/Core.antt =====
-- The game state and its updates: include/core and sources/core.
pub mod Platform
pub mod Types
pub mod Object
pub mod Snapshot
pub mod Delta
pub mod Action
pub mod Instance
pub mod Events
pub mod Exceptions
pub mod Player
pub mod Examples
