-- ===== src/Approval.antt =====
-- The package approval.
pub mod Types
pub mod Clone
pub mod Store
pub mod Records
pub mod Expiry
pub mod Moves
pub mod Decisions
pub mod Keyed
pub mod Counts
pub mod Sweeping
pub mod Remains
pub mod Births
pub mod Events
pub mod Heap
pub mod Invariants
pub mod Once
pub mod Finality
pub mod Outcomes
pub mod Poll
pub mod Notify
pub mod Ids
mod Tests
mod PollTests
mod HeapTests
