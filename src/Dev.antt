-- ===== src/Dev.antt =====
-- The generic device code.
pub mod Console
mod Tests
