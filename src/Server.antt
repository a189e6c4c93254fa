-- ===== src/Server.antt =====
-- The server, server_linux/server.cpp.
pub mod Transfer
pub mod Files
pub mod Receive
pub mod Session
pub mod Main
