-- ===== src/Evm/Error.antt =====
-- The errors of the virtual machine: src/vm/error.rs.
use Prim.Native.String.{String}
use cfx_evm.Base.{ℕ, Bool, true, false}
use cfx_evm.StateDb.{DbError}

pub data VmError : Type 0 where
  out_of_gas : VmError
  bad_jump_destination : (destination : ℕ) → VmError
  bad_instruction : (instruction : ℕ) → VmError
  stack_underflow : (instruction : String) (wanted on_stack : ℕ) → VmError
  out_of_stack : (instruction : String) (wanted limit : ℕ) → VmError
  sub_stack_underflow : (wanted on_stack : ℕ) → VmError
  out_of_sub_stack : (wanted limit : ℕ) → VmError
  invalid_sub_entry : VmError
  not_enough_balance_for_storage : (required got : ℕ) → VmError
  exceed_storage_limit : VmError
  built_in : String → VmError
  internal_contract : String → VmError
  mutable_call_in_static_context : VmError
  state_db_error : DbError → VmError
  wasm : String → VmError
  out_of_bounds : VmError
  reverted : VmError
  invalid_address : (address : ℕ) → VmError
  conflict_address : (address : ℕ) → VmError

-- `vm::Result`, with a constructor for the panics of the source.
pub data VmResult {ℓ} (A : Type ℓ) : Type ℓ where
  ok : A → VmResult A
  err : VmError → VmResult A
  panic : VmResult A

infixl 5 ◌>>=◌
unfoldable pub ◌>>=◌ {ℓ κ} : {A : Type ℓ} {B : Type κ} → VmResult A → (A → VmResult B) → VmResult B
ok a >>= f = f a
err e >>= f = err e
panic >>= f = panic

-- `overflowing!` of src/evm/interpreter/gasometer.rs.
abbrev pub overflowing {ℓ} : {A : Type ℓ} → A × Bool → VmResult A
overflowing (v, true) = err out_of_gas
overflowing (v, false) = ok v
