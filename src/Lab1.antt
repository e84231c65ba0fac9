-- ===== src/Lab1.antt =====
-- lab1: a TCP server of commands and files, and its client.
pub mod Socket
pub mod Files
pub mod Server
pub mod Client
pub mod Transfer
mod Examples
