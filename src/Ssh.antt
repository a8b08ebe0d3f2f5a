-- ===== src/Ssh.antt =====
-- internal/core/ssh: the manager of SSH hosts and connections.
pub mod State
pub mod Hosts
pub mod Lifecycle
pub mod Backoff
pub mod Reconnect
pub mod View
pub mod Agreement
pub mod Looping
pub mod Requests
pub mod Outcomes
pub mod Bounds
pub mod Races
pub mod Reloading
mod Examples
