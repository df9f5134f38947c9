-- ===== src/Util.antt =====
-- include/util
pub mod Deque
mod Examples
