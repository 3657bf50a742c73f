-- ===== src/Execution/Outcome.antt =====
-- A transaction as a whole: transact of src/execution/executor.rs over the frames of
-- src/call_create_frame/stack.rs.
use cfx_evm.Base.{
  ℕ, ◌≡◌, refl, ap, length, Bool, true, false, not, ◌&&◌, Option, none, some, min, ltb,
  if◌then◌else◌, some-injective,
}
use mathlib.Core.Path.{subst}
use cfx_evm.Primitives.{AddressWithSpace, Keccak}
use cfx_evm.Spec.{Spec}
use cfx_evm.StateDb
use cfx_evm.StateDb.{Rlp, Result}
use cfx_evm.State
use cfx_evm.State.{State, Action, ◌>>=◌, pure, lift, tail}
use cfx_evm.State.View.{IsValid}
use cfx_evm.State.Frames.{Runs}
use cfx_evm.State.Frames.Atomic.{Runs-Steps, Runs-keep}
use cfx_evm.Substate.{Substate, new_substate, cleanup_mode}
use cfx_evm.Vm.{Env}
use cfx_evm.Frame.Program.{Machine, IsBounded}
use cfx_evm.Frame.Exec.{Shared}
use cfx_evm.Frame.Stack
use cfx_evm.Frame.Stack.{FrameStackOutput, new_stack, new_shared}
use cfx_evm.Frame.Types.{CallCreateFrame}
use cfx_evm.Frame.Acts.{Runs-trans}
use cfx_evm.Frame.Atomic.{exec-Runs}
use cfx_evm.Frame.Terminates.{exec_terminates}
use cfx_evm.Execution.Types.{Transaction, TransactCheckSettings, TxAction, ExecutionOutcome}
use cfx_evm.Execution.Types
use cfx_evm.Execution.Executor
use cfx_evm.Execution.Executor.{PreCheckResult, pass, fail, base_gas, gas_cost, total_cost}
use cfx_evm.Execution.Finish
use cfx_evm.Execution.Finish.{transact}
use cfx_evm.Execution.Moves.{transact_preprocessing-Moves, transact_postprocessing-Moves}

module _ ⦃k : Keccak⦄ ⦃rlp : Rlp⦄ ⦃m : Machine⦄ where
  -- The frames end, whatever they start on.
  abbrev EndsFrom : CallCreateFrame → Type 0
  EndsFrom top =
      (tx : Substate) (gas : ℕ) (s : State)
      → (n : ℕ) × (x : Result FrameStackOutput × Shared) × (Stack.exec n top (new_stack tx gas)
            (new_shared s)
          ≡ some x)

  abbrev EndsIf : PreCheckResult → Type 0
  EndsIf (pass top sub) = EndsFrom top
  EndsIf (fail out) = Unit

  abbrev Holds : {A : Type 0} → (A → Type 0) → Result A → Type 0
  Holds P (StateDb.ok a) = P a
  Holds P (StateDb.err e) = Unit
  Holds P StateDb.panic = Unit

  -- What every result of a method satisfies.
  record Gives {A : Type 0} (P : A → Type 0) (act : Action A) : Type 0 where
    gives : (s : State) → Holds P (act s).0

  >>=-Gives :
      {A B : Type 0} (P : B → Type 0) (act : Action A) (f : A → Action B)
      → ((a : A) → Gives P (f a))
      → Gives P (act >>= f)
  >>=-Gives {A} P act f h = record { gives = λ s. go (act s) }
    where
      go : (x : Result A × State) → Holds P (State.continue f x).0
      go (StateDb.ok a, t) = (h a).gives t
      go (StateDb.err e, t) = tt
      go (StateDb.panic, t) = tt

  if-Gives :
      {A : Type 0} (P : A → Type 0) (b : Bool) (x y : Action A)
      → Gives P x
      → Gives P y
      → Gives P (if b then x else y)
  if-Gives P true x y p q = p
  if-Gives P false x y p q = q

  map-Gives :
      {A B : Type 0} (P : A → Type 0) (Q : B → Type 0) (act : Action A) (g : A → B)
      → Gives P act
      → ((a : A) → P a → Q (g a))
      → Gives Q (act >>= λ a. pure (g a))
  map-Gives {A} {B} P Q act g h f = record { gives = λ s. go (act s) (h.gives s) }
    where
      go : (x : Result A × State) → Holds P x.0 → Holds Q (State.continue (λ a. pure (g a)) x).0
      go (StateDb.ok a, t) p = f a p
      go (StateDb.err e, t) p = tt
      go (StateDb.panic, t) p = tt

  module _ (bounded : IsBounded m) where
    top_frame-Gives :
        (tx : Transaction) (env : Env) (spec : Spec) (nonce : ℕ) (action : TxAction)
        → Gives EndsFrom (Executor.top_frame tx env spec nonce action)
    unfolding Executor.top_frame
    top_frame-Gives tx env spec nonce Types.TxAction.create = record {
      gives = λ s sub gas t. (exec_terminates bounded _ env spec 0 false sub gas t).1;
    }
    top_frame-Gives tx env spec nonce (Types.TxAction.call to) =
        let a : AddressWithSpace = record { address = to; space = tx.sender.space } in
        >>=-Gives EndsFrom (State.account_code a) _ λ code.
          >>=-Gives EndsFrom (State.code_hash a) _ λ hash. record {
            gives = λ s sub gas t. (exec_terminates bounded _ env spec 0 false sub gas t).0;
          }

    charge_what_is_left-Gives :
        (tx : Transaction) (settings : TransactCheckSettings) (spec : Spec) (balance : ℕ)
        → Gives EndsIf (Executor.charge_what_is_left tx settings spec balance)
    unfolding Executor.charge_what_is_left
    charge_what_is_left-Gives tx settings spec balance =
        >>=-Gives EndsIf (State.exists tx.sender) _ λ there.
          if-Gives EndsIf (not there && settings.real_execution) _ _ (record { gives = λ s. tt })
            (>>=-Gives EndsIf (State.inc_nonce tx.sender spec.account_start_nonce) _ λ _.
              >>=-Gives EndsIf
                (State.sub_balance tx.sender (min (gas_cost tx settings) balance)
                  (cleanup_mode new_substate spec))
                _ (λ mode. record { gives = λ s. tt }))

    preprocessing-Gives :
        (tx : Transaction) (settings : TransactCheckSettings) (env : Env) (spec : Spec)
        → Gives EndsIf (Executor.transact_preprocessing tx settings env spec)
    unfolding Executor.transact_preprocessing
    preprocessing-Gives tx settings env spec = >>=-Gives EndsIf (State.nonce tx.sender) _ λ nonce.
        if-Gives EndsIf (ltb tx.nonce nonce) _ _ (record { gives = λ s. tt })
          (if-Gives EndsIf (ltb nonce tx.nonce) _ _ (record { gives = λ s. tt })
            (if-Gives EndsIf (ltb tx.gas (base_gas tx spec)) _ _ (record { gives = λ s. tt })
              (>>=-Gives EndsIf (State.balance tx.sender) _ λ balance.
                if-Gives EndsIf (ltb balance (total_cost tx settings)) _ _
                  (charge_what_is_left-Gives tx settings spec balance)
                  (>>=-Gives EndsIf (Executor.buy_gas tx settings spec) _ λ sub.
                    map-Gives EndsFrom EndsIf (Executor.top_frame tx env spec nonce tx.action)
                      (λ f. pass f sub) (top_frame-Gives tx env spec nonce tx.action) (λ f h. h)))))

  -- The machine's interpreter and internal contracts refuse to call at the maximal depth. Then every
  -- transaction comes to a result from every state, with enough fuel for its frames.
  pub transact_terminates :
      IsBounded m
      → (tx : Transaction) (settings : TransactCheckSettings) (env : Env) (spec : Spec)
        (gas_man : Option ℕ) (s : State)
      → (n : ℕ) × (x : Result ExecutionOutcome × State) × (transact n tx settings env spec gas_man s
          ≡ some x)
  unfolding transact
  transact_terminates bounded tx settings env spec gas_man s =
      go (Executor.transact_preprocessing tx settings env spec s)
        ((preprocessing-Gives bounded tx settings env spec).gives s)
    where
      go :
          (p : Result PreCheckResult × State)
          → Holds EndsIf p.0
          → (n : ℕ) × (x : Result ExecutionOutcome × State) × (Finish.run_checked n tx spec gas_man
                p
              ≡ some x)
      go (StateDb.ok (fail out), t) h = (0, (StateDb.ok out, t), refl)
      go (StateDb.ok (pass top sub), t) h =
          let (n, x, e) = h sub (base_gas tx spec) t in
          (n, Finish.after_frames tx spec gas_man x, ap (Finish.finish_frames tx spec gas_man) e)
      go (StateDb.err e, t) h = (0, (StateDb.err e, t), refl)
      go (StateDb.panic, t) h = (0, (StateDb.panic, t), refl)

  pub transact-Runs :
      (n : ℕ) (tx : Transaction) (settings : TransactCheckSettings) (env : Env) (spec : Spec)
      (gas_man : Option ℕ) (s : State) (out : ExecutionOutcome) (t : State)
      → transact n tx settings env spec gas_man s ≡ some (StateDb.ok out, t)
      → Runs s t
  unfolding transact
  transact-Runs n tx settings env spec gas_man s out t q =
      go (Executor.transact_preprocessing tx settings env spec s)
        (transact_preprocessing-Moves tx settings env spec s) q
    where
      frames :
          (u v : State) (x : Option (Result FrameStackOutput × Shared))
          → ((o : FrameStackOutput) (sh : Shared) → x ≡ some (StateDb.ok o, sh) → Runs u sh.state)
          → Finish.finish_frames tx spec gas_man x ≡ some (StateDb.ok out, v)
          → Runs u v
      frames u v none h e = absurd (cc)
      frames u v (some (StateDb.ok o, sh)) h e = Runs-trans (h o sh refl) (
          subst (λ (y : Result ExecutionOutcome × State). Runs sh.state y.1) (some-injective e)
            (transact_postprocessing-Moves tx spec gas_man o sh.state))
      frames u v (some (StateDb.err _, sh)) h e = absurd (cc)
      frames u v (some (StateDb.panic, sh)) h e = absurd (cc)

      go :
          (p : Result PreCheckResult × State)
          → Runs s p.1
          → Finish.run_checked n tx spec gas_man p ≡ some (StateDb.ok out, t)
          → Runs s t
      go (StateDb.ok (fail o), u) r e =
          subst (λ (y : Result ExecutionOutcome × State). Runs s y.1) (some-injective e) r
      go (StateDb.ok (pass top sub), u) r e = Runs-trans r (
          frames u t (Stack.exec n top (new_stack sub (base_gas tx spec)) (new_shared u))
            (λ o sh. exec-Runs n top sub (base_gas tx spec) u o sh) e)
      go (StateDb.err _, u) r e = absurd (cc)
      go (StateDb.panic, u) r e = absurd (cc)

  -- From a valid state, a transaction with any outcome leaves a valid state, has not written the
  -- database, and has closed every checkpoint it opened: as many checkpoints are open as before, and
  -- the saved statistics and the checkpoints below the last one are as they were.
  pub transact-IsValid :
      (n : ℕ) (tx : Transaction) (settings : TransactCheckSettings) (env : Env) (spec : Spec)
      (gas_man : Option ℕ) (s : State) (out : ExecutionOutcome) (t : State)
      → IsValid s
      → transact n tx settings env spec gas_man s ≡ some (StateDb.ok out, t)
      → IsValid t
        × (t.db ≡ s.db)
        × (t.world_statistics_checkpoints ≡ s.world_statistics_checkpoints)
        × (length t.checkpoints ≡ length s.checkpoints)
        × (tail t.checkpoints ≡ tail s.checkpoints)
  transact-IsValid n tx settings env spec gas_man s out t h q =
      let r = transact-Runs n tx settings env spec gas_man s out t q in
      let (db, saved, open_ones, rest) = Runs-keep s t h r in
      ((Runs-Steps r h).valid, db, saved, open_ones, rest)
