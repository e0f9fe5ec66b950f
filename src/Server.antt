-- ===== src/Server.antt =====
-- The server package: server/server.go.
pub mod Pdp
pub mod Batch
pub mod Http
pub mod Handler
pub mod Endpoints
pub mod Routes
mod Tests
