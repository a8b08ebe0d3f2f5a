-- ===== src/Socks5.antt =====
-- internal/core/socks5: the server's side of a SOCKS5 handshake.
pub mod Conn
pub mod Handshake
pub mod Reading
pub mod Replies
mod Examples
