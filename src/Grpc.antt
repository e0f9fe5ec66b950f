-- ===== src/Grpc.antt =====
-- The package grpc: the binding of the API to protobuf messages.
pub mod Proto
pub mod Convert
pub mod Struct
pub mod Entities
pub mod Evaluation
pub mod Batch
pub mod Page
pub mod Search
pub mod Carried
pub mod Resolved
pub mod Configuration
pub mod Status
pub mod Server
pub mod Client
pub mod Tests
