-- ===== src/Protocol.antt =====
-- internal/ipc/protocol: the texts and the records that go over the wire, and the errors' codes.
pub mod Wire
pub mod Infos
pub mod Codes
pub mod Roundtrip
pub mod Wrapping
mod Examples
