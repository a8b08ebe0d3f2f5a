-- ===== src/Forward/Operations.antt =====
-- internal/core/forward: the operations, each taken whole, and the invariant.
pub mod Rules
pub mod Starts
pub mod Loops
pub mod Rests
pub mod Restores
