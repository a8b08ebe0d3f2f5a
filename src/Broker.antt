-- ===== src/Broker.antt =====
-- internal/ipc/broker.go: the subscriptions of the clients, and the delivery of events to them.
pub mod State
pub mod Events
pub mod Listed
pub mod Targets
mod Examples
