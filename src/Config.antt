-- ===== src/Config.antt =====
-- internal/core/config.go and internal/ipc/handler/config: the configuration, kept in memory and on disk.
pub mod Memory
pub mod Manager
pub mod Params
pub mod Validation
pub mod Applying
pub mod Fields
pub mod Handler
pub mod Hosts
pub mod Updates
pub mod Durations
mod Examples
