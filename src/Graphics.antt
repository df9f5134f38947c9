-- ===== src/Graphics.antt =====
-- The graphics library: include/graphics.
pub mod DrawInstance
pub mod Window
mod Examples
