-- ===== src/Execution/Finish.antt =====
-- Refund, suicides and outcome: transact_postprocessing, kill_process and transact of
-- src/execution/executor.rs.
use cfx_evm.Base.{
  ℕ, ◌+◌, ◌-◌, ◌*◌, ◌/◌, Bool, true, false, not, ◌||◌, List, [], ◌∷◌, Option, none, some, ltb, leb,
  if◌then◌else◌,
}
use cfx_evm.Primitives.{⊤, u256_mod, AddressWithSpace, Keccak}
use cfx_evm.Spec.{Spec}
use cfx_evm.StateDb
use cfx_evm.StateDb.{Rlp, Result}
use cfx_evm.State
use cfx_evm.State.{State, Action, CleanupMode, ◌>>=◌, ◌>>◌, pure, lift}
use cfx_evm.Substate.{Substate, new_substate, cleanup_mode, write_back, accrue}
use cfx_evm.Vm.{Env, FinalizationResult, returned_bytes}
use cfx_evm.Evm.Error.{VmResult, ok, err, panic, state_db_error, reverted}
use cfx_evm.Frame.Program.{Machine}
use cfx_evm.Frame.Exec.{Shared}
use cfx_evm.Frame.Stack
use cfx_evm.Frame.Stack.{FrameStackOutput, new_stack, new_shared}
use cfx_evm.Execution.Types.{
  Transaction, TransactCheckSettings, Executed, ExecutionOutcome, execution_error_bump_nonce,
  finished, vm_error, saturating_mul, execution_error_fully_charged,
}
use cfx_evm.Execution.Executor.{PreCheckResult, pass, fail, base_gas, transact_preprocessing}

pub record Charge : Type 0 where
  pub gas_used : ℕ
  pub gas_charged : ℕ
  pub fees_value : ℕ
  pub refund_value : ℕ

-- Three quarters of the gas are charged if more than a quarter is left.
abbrev pub charge_of : ℕ → ℕ → ℕ → Bool → Charge
charge_of gas gas_left price true = record {
  gas_used = gas - gas_left;
  gas_charged = gas - gas / 4;
  fees_value = saturating_mul (gas - gas / 4) price;
  refund_value = saturating_mul (gas / 4) price;
}
charge_of gas gas_left price false = record {
  gas_used = gas - gas_left;
  gas_charged = gas - gas_left;
  fees_value = saturating_mul (gas - gas_left) price;
  refund_value = saturating_mul gas_left price;
}

-- `none` is a panic: the subtraction and the two sums are those of U256.
unfoldable pub charge : ℕ → ℕ → ℕ → Option Charge
charge gas gas_left price =
    if ltb gas gas_left || not (ltb (gas_left + gas_left + gas_left) u256_mod)
    then none
    else some (charge_of gas gas_left price (leb (gas - gas_left) (gas_left + gas_left + gas_left)))

abbrev pub gas_left_of : VmResult FinalizationResult → ℕ
gas_left_of (ok r) = r.gas_left
gas_left_of _ = 0

abbrev output_of : VmResult FinalizationResult → List ℕ
output_of (ok r) = returned_bytes r.return_data
output_of _ = []

abbrev estimated : Option ℕ → ℕ → Option ℕ
estimated none base = none
estimated (some g) base = some (g * 7 / 6 + base)

abbrev executed_with : Charge → Substate → List ℕ → Option ℕ → Executed
executed_with c s out limit = record {
  gas_used = c.gas_used;
  gas_charged = c.gas_charged;
  fee = c.fees_value;
  logs = s.logs;
  contracts_created = s.contracts_created;
  output = out;
  estimated_gas_limit = limit;
}

abbrev pub outcome : Transaction → VmResult FinalizationResult → Executed → Result ExecutionOutcome
outcome tx (err (state_db_error e)) executed = StateDb.err e
outcome tx (err e) executed =
    StateDb.ok (execution_error_bump_nonce (vm_error e) (execution_error_fully_charged tx))
outcome tx (ok r) executed = StateDb.ok (
    if r.apply_state
    then finished executed
    else execution_error_bump_nonce (vm_error reverted) executed)
outcome tx panic executed = StateDb.panic

module _ ⦃k : Keccak⦄ ⦃rlp : Rlp⦄ where
  unfoldable pub kill_process : List AddressWithSpace → Action ⊤
  kill_process [] = pure tt
  kill_process (a ∷ suicides) = State.balance a >>= λ held.
      State.remove_contract a >> (State.subtract_total_issued held >> kill_process suicides)

  abbrev pub settle :
      Transaction → Spec → Option ℕ → FrameStackOutput → Option Charge → Action ExecutionOutcome
  settle tx spec gas_man out none = λ s. (StateDb.panic, s)
  settle tx spec gas_man out (some c) =
      State.add_balance tx.sender c.refund_value (cleanup_mode out.substate spec)
        spec.account_start_nonce
      >>= λ mode.
          kill_process out.substate.suicides
          >> lift (
              outcome tx out.result (
                executed_with c (accrue (write_back mode out.substate) new_substate)
                  (output_of out.result) (estimated gas_man out.base_gas_required)))

  unfoldable pub transact_postprocessing :
      Transaction → Spec → Option ℕ → FrameStackOutput → Action ExecutionOutcome
  unfolding charge kill_process
  transact_postprocessing tx spec gas_man out =
      settle tx spec gas_man out (charge tx.gas (gas_left_of out.result) tx.gas_price)

module _ ⦃k : Keccak⦄ ⦃rlp : Rlp⦄ ⦃m : Machine⦄ where
  abbrev pub after_frames :
      Transaction
      → Spec
      → Option ℕ
      → Result FrameStackOutput × Shared
      → Result ExecutionOutcome × State
  after_frames tx spec gas_man (StateDb.ok out, sh) =
      transact_postprocessing tx spec gas_man out sh.state
  after_frames tx spec gas_man (StateDb.err e, sh) = (StateDb.err e, sh.state)
  after_frames tx spec gas_man (StateDb.panic, sh) = (StateDb.panic, sh.state)

  abbrev pub finish_frames :
      Transaction
      → Spec
      → Option ℕ
      → Option (Result FrameStackOutput × Shared)
      → Option (Result ExecutionOutcome × State)
  finish_frames tx spec gas_man none = none
  finish_frames tx spec gas_man (some x) = some (after_frames tx spec gas_man x)

  abbrev pub run_checked :
      ℕ
      → Transaction
      → Spec
      → Option ℕ
      → Result PreCheckResult × State
      → Option (Result ExecutionOutcome × State)
  run_checked n tx spec gas_man (StateDb.ok (fail out), s) = some (StateDb.ok out, s)
  run_checked n tx spec gas_man (StateDb.ok (pass top substate), s) =
      finish_frames tx spec gas_man
        (Stack.exec n top (new_stack substate (base_gas tx spec)) (new_shared s))
  run_checked n tx spec gas_man (StateDb.err e, s) = some (StateDb.err e, s)
  run_checked n tx spec gas_man (StateDb.panic, s) = some (StateDb.panic, s)

  -- `transact`, on fuel for the frames; `gas_man` is what the gas estimator says at the end.
  unfoldable pub transact :
      ℕ
      → Transaction
      → TransactCheckSettings
      → Env
      → Spec
      → Option ℕ
      → State
      → Option (Result ExecutionOutcome × State)
  unfolding transact_preprocessing transact_postprocessing Stack.exec
  transact n tx settings env spec gas_man s =
      run_checked n tx spec gas_man (transact_preprocessing tx settings env spec s)
