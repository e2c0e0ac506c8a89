-- ===== src/PagedKv.antt =====
-- The paged KV cache manager (paged_kv.rs).
pub mod Types
pub mod Pool
pub mod Manager
pub mod Invariant
pub mod Store
pub mod Begin
pub mod Finish
pub mod Ending
pub mod Lifecycle
pub mod Sharing
pub mod Exclusive
pub mod Admission
pub mod Reuse
pub mod Matching
pub mod Register
pub mod Publishing
pub mod Run
pub mod Switch
pub mod RoundTrip
pub mod Groups
pub mod Samples
mod Tests
pub mod Commit
pub mod Prefix
