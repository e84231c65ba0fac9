-- ===== src/Lab4.antt =====
-- lab4: a UDP server of several services.
pub mod Pool
pub mod Registry
pub mod Server
pub mod Client
pub mod Services
pub mod Exchange
pub mod Start
