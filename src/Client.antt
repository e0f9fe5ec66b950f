-- ===== src/Client.antt =====
-- The package client: calls of a decision point over HTTPS and JSON.
pub mod Config
pub mod Issuer
pub mod Trust
pub mod Transport
pub mod Calls
pub mod Safety
pub mod Redirect
pub mod Reply
pub mod Hops
pub mod Tests
