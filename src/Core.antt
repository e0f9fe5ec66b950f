-- ===== src/Core.antt =====
-- The information model of the root package: types.go, errors.go, evaluation.go, evaluations.go and
-- search.go.
pub mod Types
pub mod Errors
pub mod Evaluation
pub mod Batch
pub mod Codec
pub mod Search
mod Tests
