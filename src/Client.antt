-- ===== src/Client.antt =====
-- internal/ipc/client: the calls of a client that wait for their responses, and the loop that reads those.
pub mod Calls
pub mod Running
pub mod Matching
pub mod Lost
pub mod Answers
mod Examples
