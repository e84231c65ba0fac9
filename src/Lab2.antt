-- ===== src/Lab2.antt =====
-- The reliable UDP transport of lab2.
pub mod Packet
pub mod PacketType
pub mod Window
pub mod Reliability
pub mod Connection
pub mod Command
pub mod Server
pub mod Performance
pub mod Client
