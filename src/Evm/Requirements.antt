-- ===== src/Evm/Requirements.antt =====
-- What an instruction costs: `requirements` of src/evm/interpreter/gasometer.rs.
pub mod Types
pub mod Ask
pub mod Fulfil
pub mod Provides
pub mod Affords
