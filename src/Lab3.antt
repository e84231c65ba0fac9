-- ===== src/Lab3.antt =====
-- lab3: a TCP server that multiplexes its connections by select.
pub mod Multiplexer
pub mod FdSet
pub mod Commands
