-- ===== src/Evm/Requirements/Fulfil.antt =====
-- The requirements of an instruction: the end of `requirements` of
-- src/evm/interpreter/gasometer.rs.
use cfx_evm.Base.{ℕ, List, none, some, get_elem?}
use cfx_evm.Spec.{Spec}
use cfx_evm.Evm.Instruction.Enum.{Instruction}
use cfx_evm.Evm.Instruction.Table.{InstructionInfo, idx}
use cfx_evm.Evm.Error.{VmResult, ok, ◌>>=◌, overflowing}
use cfx_evm.Evm.Cost.{CostType, overflow_add, overflow_mul}
use cfx_evm.Evm.Stack.{or_panic}
use cfx_evm.Evm.Gasometer.{Gasometer, mem_gas_cost, gas_provided, to_word_size}
use cfx_evm.Evm.Requirements.Types.{
  Context, Request, gas, gas_mem, gas_mem_provide, gas_mem_copy, InstructionRequirements, arm,
}
use cfx_evm.Evm.Requirements.Ask.{request}

-- The requirements that follow from a request.
unfoldable pub fulfil : CostType → Spec → ℕ → Gasometer → Request → VmResult InstructionRequirements
unfolding mem_gas_cost gas_provided to_word_size overflow_add overflow_mul
fulfil c spec current_mem_size g (gas cost) = ok (record {
  gas_cost = cost;
  provide_gas = none;
  memory_total_gas = g.current_mem_gas;
  memory_required_size = 0;
})
fulfil c spec current_mem_size g (gas_mem cost mem_size) = do
  (mem_cost, new_mem_gas, new_mem_size) ← mem_gas_cost c spec current_mem_size mem_size g
  total ← overflowing (overflow_add c cost mem_cost)
  ok (record {
    gas_cost = total;
    provide_gas = none;
    memory_total_gas = new_mem_gas;
    memory_required_size = new_mem_size;
  })
fulfil c spec current_mem_size g (gas_mem_provide cost mem_size requested) = do
  (mem_cost, new_mem_gas, new_mem_size) ← mem_gas_cost c spec current_mem_size mem_size g
  needed ← overflowing (overflow_add c cost mem_cost)
  provided ← gas_provided c spec needed requested g
  total ← overflowing (overflow_add c needed provided)
  ok (record {
    gas_cost = total;
    provide_gas = some provided;
    memory_total_gas = new_mem_gas;
    memory_required_size = new_mem_size;
  })
fulfil c spec current_mem_size g (gas_mem_copy cost mem_size copied) = do
  (mem_cost, new_mem_gas, new_mem_size) ← mem_gas_cost c spec current_mem_size mem_size g
  words ← overflowing (to_word_size c copied)
  copy_gas ← overflowing (overflow_mul c spec.copy_gas words)
  partial ← overflowing (overflow_add c cost copy_gas)
  total ← overflowing (overflow_add c partial mem_cost)
  ok (record {
    gas_cost = total;
    provide_gas = none;
    memory_total_gas = new_mem_gas;
    memory_required_size = new_mem_size;
  })

unfoldable pub requirements :
    CostType
    → Context
    → Instruction
    → InstructionInfo
    → List ℕ
    → ℕ
    → Gasometer
    → VmResult InstructionRequirements
unfolding request fulfil arm idx
requirements c ctx i info stack current_mem_size g = do
  default_gas ← or_panic (get_elem? ctx.spec.tier_step_gas (idx info.tier))
  asked ← request c ctx stack default_gas i (arm i)
  fulfil c ctx.spec current_mem_size g asked
