-- ===== src/Forward.antt =====
-- internal/core/forward: the manager of forwarding rules and sessions. The definitions stand in the
-- first five modules, the proofs in the others.
pub mod State
pub mod Rules
pub mod Sessions
pub mod Lifecycle
pub mod Reconnect
pub mod Invariant
pub mod Operations
pub mod Requests
pub mod Interleaving
pub mod Outcomes
pub mod RoundTrip
pub mod Races
mod Examples
