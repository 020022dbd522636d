-- ===== src/Server.antt =====
-- backend/main.go: the relay server.
pub mod Query
pub mod Cookies
pub mod Gate
pub mod Handshake
pub mod Accounts
pub mod Front
