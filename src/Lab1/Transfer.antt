-- ===== src/Lab1/Transfer.antt =====
-- A transfer between the client and the server of lab1: what one end writes is the stream of the other.
pub mod Upload
pub mod Download
pub mod Request
pub mod Fetch
