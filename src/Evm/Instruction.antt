-- ===== src/Evm/Instruction.antt =====
-- Instructions: src/evm/instructions.rs.
pub mod Enum
pub mod Table
pub mod Queries
pub mod Laws
