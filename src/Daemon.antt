-- ===== src/Daemon.antt =====
-- internal/daemon: what the daemon does between the managers, its file and its start and end.
pub mod Routing
pub mod Startup
pub mod PidFile
pub mod Process
pub mod Loading
pub mod Loads
pub mod Restart
pub mod Starting
pub mod Resuming
mod Examples
pub mod Names
