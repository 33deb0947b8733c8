-- ===== src/Outbound/Shadowsocks.antt =====
-- src/outbound/shadowsocks: the client of a Shadowsocks server.
pub mod Cipher
pub mod Stream
pub mod Client
pub mod Sample
mod Tests
