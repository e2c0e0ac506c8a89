-- ===== src/Batch.antt =====
-- The continuous-batching scheduler (continuous_batch.rs and continuous_batch).
pub mod Types
pub mod Views
pub mod Draft
pub mod Submit
pub mod Rows
pub mod Verify
pub mod Schedule
pub mod Complete
pub mod Cancel
pub mod Greedy
pub mod Select
pub mod Fenced
mod Tests
