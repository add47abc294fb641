-- ===== src/Server.antt =====
-- Server/src/Server.c: the IP exchange server.
pub mod Config
pub mod State
pub mod Accept
pub mod Conn
pub mod Threads
pub mod Sample
