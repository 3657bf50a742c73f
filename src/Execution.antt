-- ===== src/Execution.antt =====
-- The execution of a transaction: src/execution.
pub mod Types
pub mod Executor
pub mod Finish
pub mod Fees
pub mod Moves
pub mod Outcome
pub mod Tests
