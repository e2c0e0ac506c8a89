-- ===== src/Generation.antt =====
-- The control of a single generation (generation).
pub mod Control
mod Tests
