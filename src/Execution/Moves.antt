-- ===== src/Execution/Moves.antt =====
-- Before and after its frames a transaction changes the state by operations only:
-- src/execution/executor.rs.
use cfx_evm.Base.{
  ℕ, Bool, true, false, not, ◌&&◌, List, [], ◌∷◌, Option, none, some, min, ltb, if◌then◌else◌,
}
use cfx_evm.Primitives.{u256_mod, AddressWithSpace, Keccak}
use cfx_evm.Spec.{Spec}
use cfx_evm.StateDb
use cfx_evm.StateDb.{Rlp, Result}
use cfx_evm.State
use cfx_evm.State.{State, Action, ◌>>=◌, pure, lift}
use cfx_evm.State.Frames.{Runs, perform}
use cfx_evm.State.Frames
use cfx_evm.Substate.{new_substate, cleanup_mode}
use cfx_evm.Vm.{Env}
use cfx_evm.Frame.Program.{Machine}
use cfx_evm.Frame.Stack.{FrameStackOutput}
use cfx_evm.Frame.Acts.{Runs-trans}
use cfx_evm.Execution.Types.{Transaction, TransactCheckSettings, TxAction, ExecutionOutcome}
use cfx_evm.Execution.Types
use cfx_evm.Execution.Executor
use cfx_evm.Execution.Executor.{PreCheckResult, base_gas, gas_cost, total_cost}
use cfx_evm.Execution.Finish
use cfx_evm.Execution.Finish.{Charge, charge}

module _ ⦃k : Keccak⦄ ⦃rlp : Rlp⦄ where
  -- A method that leaves a state which operations reach.
  abbrev pub Moves : {A : Type 0} → Action A → Type 0
  Moves m = (s : State) → Runs s (m s).1

  pub >>=-Moves :
      {A B : Type 0} (m : Action A) (f : A → Action B)
      → Moves m
      → ((a : A) → Moves (f a))
      → Moves (m >>= f)
  >>=-Moves {A} m f h g s = go (m s) (h s)
    where
      go : (x : Result A × State) → Runs s x.1 → Runs s (State.continue f x).1
      go (StateDb.ok a, t) r = Runs-trans r (g a t)
      go (StateDb.err e, t) r = r
      go (StateDb.panic, t) r = r

  if-Moves :
      {A : Type 0} (b : Bool) (m n : Action A) → Moves m → Moves n → Moves (if b then m else n)
  if-Moves true m n p q = p
  if-Moves false m n p q = q

  step : (c : Frames.Call) (s : State) → Runs s (perform c s)
  step c s = Frames.call Frames.here c

  kill_process-Moves : (suicides : List AddressWithSpace) → Moves (Finish.kill_process suicides)
  unfolding Finish.kill_process perform
  kill_process-Moves [] = λ s. Frames.here
  kill_process-Moves (a ∷ rest) = >>=-Moves (State.balance a) _ (step (Frames.balance a)) λ held.
      >>=-Moves (State.remove_contract a) _ (step (Frames.remove_contract a)) λ _.
        >>=-Moves (State.subtract_total_issued held) _ (step (Frames.subtract_total_issued held))
          λ _. kill_process-Moves rest

  settle-Moves :
      (tx : Transaction) (spec : Spec) (g : Option ℕ) (out : FrameStackOutput) (c : Option Charge)
      → Moves (Finish.settle tx spec g out c)
  unfolding perform
  settle-Moves tx spec g out none = λ s. Frames.here
  settle-Moves tx spec g out (some c) =
      >>=-Moves
        (State.add_balance tx.sender c.refund_value (cleanup_mode out.substate spec)
          spec.account_start_nonce)
        _
        (step (
          Frames.add_balance tx.sender c.refund_value (cleanup_mode out.substate spec)
            spec.account_start_nonce))
        λ mode.
          >>=-Moves (Finish.kill_process out.substate.suicides) _
            (kill_process-Moves out.substate.suicides) (λ _ s. Frames.here)

  pub transact_postprocessing-Moves :
      (tx : Transaction) (spec : Spec) (g : Option ℕ) (out : FrameStackOutput)
      → Moves (Finish.transact_postprocessing tx spec g out)
  unfolding Finish.transact_postprocessing
  transact_postprocessing-Moves tx spec g out =
      settle-Moves tx spec g out (charge tx.gas (Finish.gas_left_of out.result) tx.gas_price)

  charge_what_is_left-Moves :
      (tx : Transaction) (settings : TransactCheckSettings) (spec : Spec) (balance : ℕ)
      → Moves (Executor.charge_what_is_left tx settings spec balance)
  unfolding Executor.charge_what_is_left perform
  charge_what_is_left-Moves tx settings spec balance =
      >>=-Moves (State.exists tx.sender) _ (step (Frames.exists tx.sender)) λ there.
        if-Moves (not there && settings.real_execution) _ _ (λ s. Frames.here)
          (>>=-Moves (State.inc_nonce tx.sender spec.account_start_nonce) _
            (step (Frames.inc_nonce tx.sender spec.account_start_nonce))
            λ _.
              >>=-Moves
                (State.sub_balance tx.sender (min (gas_cost tx settings) balance)
                  (cleanup_mode new_substate spec))
                _
                (step (
                  Frames.sub_balance tx.sender (min (gas_cost tx settings) balance)
                    (cleanup_mode new_substate spec)))
                (λ mode s. Frames.here))

  buy_gas-Moves :
      (tx : Transaction) (settings : TransactCheckSettings) (spec : Spec)
      → Moves (Executor.buy_gas tx settings spec)
  unfolding Executor.buy_gas perform
  buy_gas-Moves tx settings spec =
      >>=-Moves (State.inc_nonce tx.sender spec.account_start_nonce) _
        (step (Frames.inc_nonce tx.sender spec.account_start_nonce))
        λ _.
          if-Moves (ltb (gas_cost tx settings) u256_mod) _ _
            (>>=-Moves
              (State.sub_balance tx.sender (gas_cost tx settings) (cleanup_mode new_substate spec))
              _
              (step (
                Frames.sub_balance tx.sender (gas_cost tx settings)
                  (cleanup_mode new_substate spec)))
              (λ mode s. Frames.here))
            (λ s. Frames.here)

module _ ⦃k : Keccak⦄ ⦃rlp : Rlp⦄ ⦃m : Machine⦄ where
  top_frame-Moves :
      (tx : Transaction) (env : Env) (spec : Spec) (nonce : ℕ) (action : TxAction)
      → Moves (Executor.top_frame tx env spec nonce action)
  unfolding Executor.top_frame perform
  top_frame-Moves tx env spec nonce Types.TxAction.create = λ s. Frames.here
  top_frame-Moves tx env spec nonce (Types.TxAction.call to) =
      let a : AddressWithSpace = record { address = to; space = tx.sender.space } in
      >>=-Moves (State.account_code a) _ (step (Frames.account_code a))
        λ code. >>=-Moves (State.code_hash a) _ (step (Frames.code_hash a)) (λ hash s. Frames.here)

  admit-Moves :
      (tx : Transaction) (settings : TransactCheckSettings) (env : Env) (spec : Spec)
      (nonce balance : ℕ)
      → Moves (Executor.admit tx settings env spec nonce balance)
  admit-Moves tx settings env spec nonce balance =
      if-Moves (ltb balance (total_cost tx settings)) _ _
        (charge_what_is_left-Moves tx settings spec balance)
        (>>=-Moves (Executor.buy_gas tx settings spec) _ (buy_gas-Moves tx settings spec) λ sub.
          >>=-Moves (Executor.top_frame tx env spec nonce tx.action) _
            (top_frame-Moves tx env spec nonce tx.action) (λ f s. Frames.here))

  pub transact_preprocessing-Moves :
      (tx : Transaction) (settings : TransactCheckSettings) (env : Env) (spec : Spec)
      → Moves (Executor.transact_preprocessing tx settings env spec)
  unfolding Executor.transact_preprocessing perform
  transact_preprocessing-Moves tx settings env spec =
      >>=-Moves (State.nonce tx.sender) _ (step (Frames.nonce tx.sender)) λ nonce.
        if-Moves (ltb tx.nonce nonce) _ _ (λ s. Frames.here)
          (if-Moves (ltb nonce tx.nonce) _ _ (λ s. Frames.here)
            (if-Moves (ltb tx.gas (base_gas tx spec)) _ _ (λ s. Frames.here)
              (>>=-Moves (State.balance tx.sender) _ (step (Frames.balance tx.sender))
                (admit-Moves tx settings env spec nonce))))
