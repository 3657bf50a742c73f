-- ===== src/Execution/Types.antt =====
-- Transactions, settings and outcomes: src/execution/transaction_info.rs, options.rs and executed.rs.
-- The trace of an observer is left out.
use cfx_evm.Base.{ℕ, ◌*◌, ◌/◌, ◌-◌, Bool, List, [], Option, none, min, ◌==◌, if◌then◌else◌}
use cfx_evm.Primitives.{u256_mod, AddressWithSpace}
use cfx_evm.Substate.{LogEntry}
use cfx_evm.Evm.Error.{VmError}

-- `Action` of utils/primitives/src/transaction.rs.
pub data TxAction : Type 0 where
  create : TxAction
  call : ℕ → TxAction

-- `TransactionInfo`
pub record Transaction : Type 0 where
  pub sender : AddressWithSpace
  pub nonce : ℕ
  pub gas : ℕ
  pub gas_price : ℕ
  pub payload : List ℕ
  pub action : TxAction
  pub value : ℕ

pub record TransactCheckSettings : Type 0 where
  pub charge_gas : Bool
  pub real_execution : Bool

pub record Executed : Type 0 where
  pub gas_used : ℕ
  pub fee : ℕ
  pub gas_charged : ℕ
  pub logs : List LogEntry
  pub contracts_created : List AddressWithSpace
  pub output : List ℕ
  pub estimated_gas_limit : Option ℕ

pub data ToRepackError : Type 0 where
  invalid_nonce : (expected got : ℕ) → ToRepackError
  sender_does_not_exist : ToRepackError

pub data TxDropError : Type 0 where
  old_nonce : ℕ → ℕ → TxDropError
  not_enough_base_gas : (expected actual : ℕ) → TxDropError

pub data ExecutionError : Type 0 where
  not_enough_cash : (required got actual_gas_cost : ℕ) → ExecutionError
  vm_error : VmError → ExecutionError

pub data ExecutionOutcome : Type 0 where
  not_executed_drop : TxDropError → ExecutionOutcome
  not_executed_to_reconsider_packing : ToRepackError → ExecutionOutcome
  execution_error_bump_nonce : ExecutionError → Executed → ExecutionOutcome
  finished : Executed → ExecutionOutcome

-- `saturating_mul`
abbrev pub saturating_mul : ℕ → ℕ → ℕ
saturating_mul a b = min (a * b) (u256_mod - 1)

unfoldable pub not_enough_balance_fee_charged : Transaction → ℕ → Executed
not_enough_balance_fee_charged tx fee = record {
  gas_used = tx.gas;
  gas_charged = if tx.gas_price == 0 then 0 else fee / tx.gas_price;
  fee = fee;
  logs = [];
  contracts_created = [];
  output = [];
  estimated_gas_limit = none;
}

unfoldable pub execution_error_fully_charged : Transaction → Executed
execution_error_fully_charged tx = record {
  gas_used = tx.gas;
  gas_charged = tx.gas;
  fee = saturating_mul tx.gas tx.gas_price;
  logs = [];
  contracts_created = [];
  output = [];
  estimated_gas_limit = none;
}
