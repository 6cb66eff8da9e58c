-- ===== src/Server.antt =====
-- internal/server: the panel's HTTP server.
pub mod Guard
pub mod TwoFactor
pub mod Sessions
pub mod Account
pub mod Login
pub mod Nodes
pub mod Settings
