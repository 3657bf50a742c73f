-- ===== src/Execution/Tests.antt =====
-- Runs of the model of src/execution on concrete inputs.
use cfx_evm.Base.{length, ℕ, ◌*◌, ◌≡◌, refl, true, List, [], Option, none, some}
use cfx_evm.Spec.{genesis_spec}
use cfx_evm.StateDb
use cfx_evm.StateDb.{Result}
use cfx_evm.State
use cfx_evm.State.{State, tail}
use cfx_evm.State.View.{IsValid}
use cfx_evm.State.Frames.{perform}
use cfx_evm.Execution.Types.{
  Transaction, TransactCheckSettings, TxAction, Executed, ExecutionOutcome,
  execution_error_bump_nonce, not_enough_cash,
}
use cfx_evm.Execution.Finish.{transact}
use cfx_evm.Evm.Error.{ok}
use cfx_evm.Vm.{empty_return_data}
use cfx_evm.Primitives.{ethereum}
use cfx_evm.Substate.{new_substate}
use cfx_evm.Frame.Stack.{FrameStackOutput}
use cfx_evm.Execution.Outcome.{transact_terminates, transact-IsValid}
use cfx_evm.Frame.Tests.{
  test_env, test_machine, test_machine-IsBounded, alice_with, funded, funded-IsValid,
}
use cfx_evm.Tests.{test_keccak, test_rlp, alice}

-- Alice sends three to the address 2, for free gas.
abbrev payment : Transaction
payment = record {
  sender = alice;
  nonce = 0;
  gas = 30000;
  gas_price = 0;
  payload = [];
  action = TxAction.call 2;
  value = 3;
}

abbrev all_checks : TransactCheckSettings
all_checks = record { charge_gas = true; real_execution = true }

-- Her frames leave 40 of the 100 gas that she bought at the price of three.
abbrev bought : Transaction
bought = record payment { gas = 100; gas_price = 3 }

abbrev left_over : FrameStackOutput
left_over = record {
  result = ok (record {
    space = ethereum;
    gas_left = 40;
    apply_state = true;
    return_data = empty_return_data;
  });
  substate = new_substate;
  base_gas_required = 0;
}

transact_terminates_example :
    (n : ℕ) × (x : Result ExecutionOutcome × State) × (transact n payment all_checks test_env
        genesis_spec none funded
      ≡ some x)
transact_terminates_example =
    transact_terminates test_machine-IsBounded payment all_checks test_env genesis_spec none funded

-- She cannot pay for gas at the price of one: what she has goes to the fee, and her nonce goes up.
abbrev charged_run : Option (Result ExecutionOutcome × State)
charged_run =
    transact 5 (record payment { gas_price = 1 }) all_checks test_env genesis_spec none funded

abbrev charged : State
charged = alice_with 0 1

abbrev receipt : ExecutionOutcome
receipt = execution_error_bump_nonce (not_enough_cash 30003 7 7) (record {
  gas_used = 30000;
  fee = 7;
  gas_charged = 7;
  logs = [];
  contracts_created = [];
  output = [];
  estimated_gas_limit = none;
})

charged_run_ends : charged_run ≡ some (StateDb.ok receipt, charged)
unfolding transact cfx_evm.Base.lookup genesis_spec perform State.add_balance State.loaded_account
    StateDb.get_account cfx_evm.Base.insert State.update_account_cache State.add_account_balance
    State.inc_nonce State.nonce State.balance State.sub_balance
    cfx_evm.Execution.Executor.gas_required_for State.inc_account_nonce
    cfx_evm.Substate.cleanup_mode State.sub_account_balance State.exists
    cfx_evm.Execution.Types.not_enough_balance_fee_charged
charged_run_ends = refl

transact-IsValid_example :
    IsValid charged
    × (charged.db ≡ funded.db)
    × (charged.world_statistics_checkpoints ≡ funded.world_statistics_checkpoints)
    × (length charged.checkpoints ≡ length funded.checkpoints)
    × (tail charged.checkpoints ≡ tail funded.checkpoints)
transact-IsValid_example =
    transact-IsValid 5 (record payment { gas_price = 1 }) all_checks test_env genesis_spec none
      funded receipt charged funded-IsValid charged_run_ends
