-- ===== src/Credentials.antt =====
-- internal/ipc/handler/handler_ssh.go with internal/ipc/server.go: the credentials that a connection asks
-- of the client that wants it.
pub mod Pending
pub mod Waiting
pub mod Senders
pub mod Alone
mod Examples
