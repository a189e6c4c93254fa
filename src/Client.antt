-- ===== src/Client.antt =====
-- The client, InfoDumping/InfoDumping.cpp and InfoDumping/main.cpp.
pub mod Transfer
pub mod Files
pub mod Send
pub mod Session
pub mod Round
pub mod Args
pub mod Connection
pub mod Netstat
pub mod Registry
pub mod Dumps
pub mod Main
