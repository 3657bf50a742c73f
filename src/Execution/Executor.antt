-- ===== src/Execution/Executor.antt =====
-- `TXExecutor` of src/execution/executor.rs. The tracing of the observers is left out; what its gas
-- estimator says is an argument. The `u64` sum of `gas_required_for` is exact here: it would take
-- more bytes than a transaction can hold to leave the type.
use cfx_evm.Base.{
  ℕ, ◌+◌, ◌-◌, ◌*◌, Bool, true, false, not, ◌&&◌, List, [], ◌∷◌, Option, none, some, min, ltb, ◌==◌,
  if◌then◌else◌,
}
use cfx_evm.Primitives.{u256_mod, Keccak, CodeInfo}
use cfx_evm.Spec.{Spec}
use cfx_evm.StateDb.{Rlp, panic}
use cfx_evm.State
use cfx_evm.State.{State, Action, CleanupMode, ◌>>=◌, ◌>>◌, pure, modify}
use cfx_evm.Substate.{Substate, new_substate, cleanup_mode, write_back}
use cfx_evm.Vm.{
  ActionParams, Env, FinalizationResult, from_sender_nonce, transfer, not_call, embedded, separate,
  returned_bytes,
}
use cfx_evm.Vm
use cfx_evm.Frame.Program.{Machine}
use cfx_evm.Frame.Context.{contract_address, code_bytes}
use cfx_evm.Frame.Types.{CallCreateFrame, new_call_raw, new_create_raw}
use cfx_evm.Execution.Types
use cfx_evm.Execution.Types.{
  Transaction, TransactCheckSettings, TxAction, Executed, ExecutionOutcome, not_executed_drop,
  not_executed_to_reconsider_packing, execution_error_bump_nonce, finished, old_nonce,
  not_enough_base_gas, invalid_nonce, sender_does_not_exist, not_enough_cash, vm_error,
  saturating_mul, not_enough_balance_fee_charged, execution_error_fully_charged,
}

abbrev byte_gas : Spec → ℕ → ℕ
byte_gas spec b = if b == 0 then spec.tx_data_zero_gas else spec.tx_data_non_zero_gas

unfoldable pub add_data_gas : Spec → ℕ → List ℕ → ℕ
add_data_gas spec g [] = g
add_data_gas spec g (b ∷ bytes) = add_data_gas spec (g + byte_gas spec b) bytes

unfoldable pub gas_required_for : Bool → List ℕ → Spec → ℕ
unfolding add_data_gas
gas_required_for is_create bytes spec =
    add_data_gas spec (if is_create then spec.tx_create_gas else spec.tx_gas) bytes

abbrev pub is_create_action : TxAction → Bool
is_create_action Types.TxAction.create = true
is_create_action (Types.TxAction.call _) = false

abbrev pub base_gas : Transaction → Spec → ℕ
base_gas tx spec = gas_required_for (is_create_action tx.action) tx.payload spec

-- `PreCheckResult`; of the frame stack it keeps the substate of the transaction.
pub data PreCheckResult : Type 0 where
  pass : CallCreateFrame → Substate → PreCheckResult
  fail : ExecutionOutcome → PreCheckResult

module _ ⦃k : Keccak⦄ ⦃rlp : Rlp⦄ where
  -- The product and the sum are those of U512, which they do not leave.
  abbrev pub gas_cost : Transaction → TransactCheckSettings → ℕ
  gas_cost tx settings = if settings.charge_gas then tx.gas * tx.gas_price else 0

  abbrev pub total_cost : Transaction → TransactCheckSettings → ℕ
  total_cost tx settings = tx.value + gas_cost tx settings

  -- The sender cannot pay: what it has goes to the fee.
  unfoldable pub charge_what_is_left :
      Transaction → TransactCheckSettings → Spec → ℕ → Action PreCheckResult
  charge_what_is_left tx settings spec balance = do
    there ← State.exists tx.sender
    if not there && settings.real_execution
        then pure (fail (not_executed_to_reconsider_packing sender_does_not_exist))
        else (do
          State.inc_nonce tx.sender spec.account_start_nonce
          _ ←
              State.sub_balance tx.sender (min (gas_cost tx settings) balance)
                (cleanup_mode new_substate spec)
          pure (
              fail (
                execution_error_bump_nonce
                  (not_enough_cash (total_cost tx settings) balance
                    (min (gas_cost tx settings) balance))
                  (not_enough_balance_fee_charged tx (min (gas_cost tx settings) balance)))))

  -- The gas is bought; `try_from` panics on a cost that is no U256.
  unfoldable pub buy_gas : Transaction → TransactCheckSettings → Spec → Action Substate
  buy_gas tx settings spec = do
    State.inc_nonce tx.sender spec.account_start_nonce
    if ltb (gas_cost tx settings) u256_mod
        then (do
          mode ← State.sub_balance tx.sender (gas_cost tx settings) (cleanup_mode new_substate spec)
          pure (write_back mode new_substate))
        else (λ s. (panic, s))

module _ ⦃k : Keccak⦄ ⦃rlp : Rlp⦄ ⦃m : Machine⦄ where
  abbrev create_params : Transaction → Spec → ℕ → ActionParams
  create_params tx spec nonce =
      let to = contract_address from_sender_nonce tx.sender nonce tx.payload in
      record {
        space = tx.sender.space;
        code_address = to.0.address;
        code_hash = none;
        address = to.0.address;
        sender = tx.sender.address;
        original_sender = tx.sender.address;
        gas = tx.gas - base_gas tx spec;
        gas_price = tx.gas_price;
        value = transfer tx.value;
        code = some tx.payload;
        input = none;
        call_type = not_call;
        create_type = Vm.CreateType.create;
        params_type = embedded;
      }

  abbrev call_params : Transaction → Spec → ℕ → Option CodeInfo → Option ℕ → ActionParams
  call_params tx spec to code code_hash = record {
    space = tx.sender.space;
    code_address = to;
    code_hash = code_hash;
    address = to;
    sender = tx.sender.address;
    original_sender = tx.sender.address;
    gas = tx.gas - base_gas tx spec;
    gas_price = tx.gas_price;
    value = transfer tx.value;
    code = code_bytes code;
    input = some tx.payload;
    call_type = Vm.CallType.call;
    create_type = Vm.CreateType.not_create;
    params_type = separate;
  }

  -- The frame of the transaction, at depth 0 and not static.
  unfoldable pub top_frame : Transaction → Env → Spec → ℕ → TxAction → Action CallCreateFrame
  unfolding contract_address
  top_frame tx env spec nonce Types.TxAction.create =
      pure (new_create_raw (create_params tx spec nonce) env spec 0 false)
  top_frame tx env spec nonce (Types.TxAction.call to) = do
    code ← State.account_code (record { address = to; space = tx.sender.space })
    code_hash ← State.code_hash (record { address = to; space = tx.sender.space })
    pure (new_call_raw (call_params tx spec to code code_hash) env spec 0 false)

  abbrev pub admit :
      Transaction → TransactCheckSettings → Env → Spec → ℕ → ℕ → Action PreCheckResult
  admit tx settings env spec nonce balance =
      if ltb balance (total_cost tx settings)
      then charge_what_is_left tx settings spec balance
      else (do
        substate ← buy_gas tx settings spec
        frame ← top_frame tx env spec nonce tx.action
        pure (pass frame substate))

  abbrev pub check_gas :
      Transaction → TransactCheckSettings → Env → Spec → ℕ → Action PreCheckResult
  check_gas tx settings env spec nonce =
      if ltb tx.gas (base_gas tx spec)
      then pure (fail (not_executed_drop (not_enough_base_gas (base_gas tx spec) tx.gas)))
      else (State.balance tx.sender >>= admit tx settings env spec nonce)

  abbrev pub check_nonce :
      Transaction → TransactCheckSettings → Env → Spec → ℕ → Action PreCheckResult
  check_nonce tx settings env spec nonce =
      if ltb tx.nonce nonce
      then pure (fail (not_executed_drop (old_nonce nonce tx.nonce)))
      else if ltb nonce tx.nonce
      then pure (fail (not_executed_to_reconsider_packing (invalid_nonce nonce tx.nonce)))
      else check_gas tx settings env spec nonce

  unfoldable pub transact_preprocessing :
      Transaction → TransactCheckSettings → Env → Spec → Action PreCheckResult
  unfolding charge_what_is_left buy_gas top_frame
  transact_preprocessing tx settings env spec =
      State.nonce tx.sender >>= check_nonce tx settings env spec
