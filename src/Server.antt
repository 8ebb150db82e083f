-- ===== src/Server.antt =====
-- server/server.go: the daemon's HTTP handlers, by concern.
pub mod Detect
pub mod Extension
pub mod Headers
pub mod Auth
pub mod Loopback
pub mod Response
pub mod Semaphore
pub mod Upload
pub mod Handler
pub mod Health
pub mod Construction
