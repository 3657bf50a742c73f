-- ===== src/Evm/Requirements/Types.antt =====
-- The context of an instruction, and what `requirements` of src/evm/interpreter/gasometer.rs asks of it.
use cfx_evm.Base.{ℕ, Bool, List, Option}
use cfx_evm.Primitives.{Space}
use cfx_evm.Spec.{Spec}
use cfx_evm.Evm.Instruction.Enum
use cfx_evm.Evm.Instruction.Enum.{Instruction}
use cfx_evm.Evm.Error.{VmResult}

-- The operations of `vm::Context` that decide the price of an instruction: src/vm/context.rs.
pub record Context : Type 0 where
  pub spec : Spec
  pub space : Space
  pub storage_at : List ℕ → VmResult ℕ
  pub exists : ℕ → VmResult Bool
  pub exists_and_not_null : ℕ → VmResult Bool
  pub origin_balance : VmResult ℕ

pub data Request : Type 0 where
  gas : ℕ → Request
  gas_mem : ℕ → ℕ → Request
  gas_mem_provide : ℕ → ℕ → Option ℕ → Request
  gas_mem_copy : ℕ → ℕ → ℕ → Request

pub record InstructionRequirements : Type 0 where
  pub gas_cost : ℕ
  pub provide_gas : Option ℕ
  pub memory_total_gas : ℕ
  pub memory_required_size : ℕ

-- The arms of the `match` on the instruction.
pub data Arm : Type 0 where
  jumpdest sstore sload balance extcodesize extcodehash suicide word byte return sha3 copy
        extcodecopy log call delegate create exp blockhash other :
      Arm

unfoldable pub arm : Instruction → Arm
arm Enum.op_jumpdest = jumpdest
arm Enum.op_sstore = sstore
arm Enum.op_sload = sload
arm Enum.op_balance = balance
arm Enum.op_extcodesize = extcodesize
arm Enum.op_extcodehash = extcodehash
arm Enum.op_suicide = suicide
arm Enum.op_mstore = word
arm Enum.op_mload = word
arm Enum.op_mstore8 = byte
arm Enum.op_return = return
arm Enum.op_revert = return
arm Enum.op_sha3 = sha3
arm Enum.op_calldatacopy = copy
arm Enum.op_codecopy = copy
arm Enum.op_returndatacopy = copy
arm Enum.op_extcodecopy = extcodecopy
arm Enum.op_log0 = log
arm Enum.op_log1 = log
arm Enum.op_log2 = log
arm Enum.op_log3 = log
arm Enum.op_log4 = log
arm Enum.op_call = call
arm Enum.op_callcode = call
arm Enum.op_delegatecall = delegate
arm Enum.op_staticcall = delegate
arm Enum.op_create = create
arm Enum.op_create2 = create
arm Enum.op_exp = exp
arm Enum.op_blockhash = blockhash
arm _ = other
