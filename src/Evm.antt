-- ===== src/Evm.antt =====
-- The interpreter: src/evm.
pub mod Instruction
pub mod Error
pub mod Cost
pub mod Stack
pub mod Requirements
pub mod Jumps
pub mod Arith
pub mod Gasometer
mod Tests
