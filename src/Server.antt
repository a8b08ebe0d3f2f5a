-- ===== src/Server.antt =====
-- internal/ipc/server.go: the table of clients and the loop that reads the requests of one.
pub mod Messages
pub mod Clients
pub mod Reading
pub mod Replies
pub mod Table
mod Examples
