-- ===== src/AccessRequest.antt =====
-- The package accessrequest: the Access Request and Approval Profile.
pub mod Types
pub mod Errors
pub mod Denial
pub mod Submit
pub mod Tasks
pub mod ItemRules
pub mod Rules
pub mod TaskRules
mod Tests
