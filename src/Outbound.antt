-- ===== src/Outbound.antt =====
-- src/outbound: the ways out of the gateway.
pub mod Address
pub mod Group
pub mod Shadowsocks
pub mod Manager
mod Tests
