-- ===== src/Forward/Outcomes.antt =====
-- internal/core/forward: what the operations give back, and what a caller sees afterwards.
pub mod Adding
pub mod Deleting
pub mod Starting
pub mod Stopping
