-- ===== src/Core.antt =====
-- internal/core: the types that the parts of the program share.
pub mod Enums
pub mod Models
pub mod Errors
pub mod Events
pub mod SshPort
pub mod Settings
