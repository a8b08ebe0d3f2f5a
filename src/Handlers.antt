-- ===== src/Handlers.antt =====
-- internal/ipc/handler: the handlers of the methods for forwards, sessions, hosts and events.
pub mod Params
pub mod Forwards
pub mod Hosts
pub mod Subscriptions
pub mod Saving
pub mod Differences
pub mod Connections
pub mod Versions
pub mod Dispatch
mod Examples
