-- ===== src/Runtime.antt =====
-- The runtime contracts of src/runtime: errors and recovery, tensor layouts, memory sizes and
-- budgets.
pub mod Errors
pub mod Shape
pub mod Memory
pub mod Budget
mod Tests
