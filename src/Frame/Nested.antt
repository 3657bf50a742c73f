-- ===== src/Frame/Nested.antt =====
-- The open frames of src/call_create_frame and the checkpoints of the state: what a frame leaves when
-- it traps or returns.
use cfx_evm.Base.{
  ℕ, zero, suc, ◌≡◌, refl, sym, Bool, true, false, List, [], ◌∷◌, ◌++◌, Option, none, some, length,
  if◌then◌else◌,
}
use mathlib.Core.Path.{subst}
use cfx_evm.Primitives.{AddressWithSpace, Keccak}
use cfx_evm.StateDb
use cfx_evm.StateDb.{Rlp, Result}
use cfx_evm.State
use cfx_evm.State.{State, Action, checkpoint, discard_checkpoint, revert_to_checkpoint}
use cfx_evm.State.Frames.{Runs, perform}
use cfx_evm.State.Frames
use cfx_evm.Substate.{Substate, FrameStackInfo, cleanup_mode}
use cfx_evm.Substate.Callstack.{IsConsistent}
use cfx_evm.Vm.{
  ActionParams, ActionValue, transfer, apparent, GasLeft, TrapError, returned, sub_call_create,
}
use cfx_evm.Vm
use cfx_evm.Spec.{Spec}
use cfx_evm.Evm.Error.{VmResult, ok, err, panic}
use cfx_evm.Frame.World.{FrameContext, World}
use cfx_evm.Frame.Program.{Program, finish, ask, trap_call, trap_create, Machine}
use cfx_evm.Frame.Context
use cfx_evm.Frame.Types.{FrameReturn, CallCreateFrame, FrameTrapResult, recipient}
use cfx_evm.Frame.Exec.{Shared, ExecTrapResult, after_answer, activate}
use cfx_evm.Frame.Exec
use cfx_evm.Frame.Run
use cfx_evm.Frame.Acts.{Runs-trans, answer-Acts}

module _ ⦃k : Keccak⦄ ⦃rlp : Rlp⦄ where
  -- The state a program leaves is reached by operations of the state.
  pub run-Runs :
      ⦃m : Machine⦄ (c : FrameContext) (cs : FrameStackInfo) (p : Program) (w : World)
      → Runs w.state (Run.run c cs p w).1.state
  unfolding Run.run
  run-Runs c cs (finish r) w = Frames.here
  run-Runs c cs (ask q go) w =
      then_runs (λ r v. Run.run c cs (go r) v) (λ r v. run-Runs c cs (go r) v)
        (Context.answer c cs q w) ((answer-Acts c cs q).runs w)
    where
      then_runs :
          {A : Type 0} (g : VmResult A → World → ExecTrapResult × World)
          → ((r : VmResult A) (v : World) → Runs v.state (g r v).1.state)
          → (x : VmResult A × World) → Runs w.state x.1.state
          → Runs w.state (after_answer g x).1.state
      then_runs g h (ok a, v) st = Runs-trans st (h (ok a) v)
      then_runs g h (err e, v) st = Runs-trans st (h (err e) v)
      then_runs g h (panic, v) st = st
  run-Runs c cs (trap_call params go) w = Frames.here
  run-Runs c cs (trap_create params go) w = Frames.here

  >>=-Runs :
      {A B : Type 0} (act : Action A) (f : A → Action B) (s : State)
      → Runs s (act s).1
      → ((a : A) (t : State) → Runs t (f a t).1)
      → Runs s ((State.◌>>=◌ act f) s).1
  >>=-Runs {A} act f s h g = go (act s) h
    where
      go : (x : Result A × State) → Runs s x.1 → Runs s (State.continue f x).1
      go (StateDb.ok a, t) r = Runs-trans r (g a t)
      go (StateDb.err e, t) r = r
      go (StateDb.panic, t) r = r

  call_step : (c : Frames.Call) (s : State) → Runs s (perform c s)
  call_step c s = Frames.call Frames.here c

  transfer_value-Runs :
      (v : ActionValue) (params : ActionParams) (spec : Spec) (start : ℕ) (w : World)
      → Runs w.state (Exec.transfer_value v params spec start w).1.state
  unfolding perform
  transfer_value-Runs (transfer v) params spec start w =
      call_step
        (Frames.transfer_balance (Exec.sender_of params) (Exec.receiver_of params) v
          (cleanup_mode w.substate spec) start)
        w.state
  transfer_value-Runs (apparent v) params spec start w = Frames.here

  endow_value-Runs :
      (v : ActionValue) (params : ActionParams) (spec : Spec) (layout : Option State.StorageLayout)
      (w : World)
      → Runs w.state (Exec.endow_value v params spec layout w).1.state
  unfolding perform
  endow_value-Runs (apparent v) params spec layout w = Frames.here
  endow_value-Runs (transfer v) params spec layout w = steps (cleanup_mode w.substate spec) w.state
    where
      to : AddressWithSpace
      to = Exec.receiver_of params

      steps :
          (mode : State.CleanupMode) (s : State)
          → Runs s (Exec.endow_contract params v layout mode s).1
      steps mode s = >>=-Runs (State.balance to) _ s (call_step (Frames.balance to) s) λ held t.
          >>=-Runs (State.sub_balance (Exec.sender_of params) v mode) _ t
            (call_step (Frames.sub_balance (Exec.sender_of params) v mode) t)
            λ mode' u.
              >>=-Runs (State.new_contract to (Exec.saturating_add v held) 1 layout)
                (λ _. State.pure mode') u
                (call_step (Frames.new_contract to (Exec.saturating_add v held) 1 layout) u)
                (λ _ x. Frames.here)

  -- The transfer before a frame's execution is made of operations of the state.
  pub pre_execution-Runs :
      (f : CallCreateFrame) (params : ActionParams) (w : World)
      → Runs w.state (Run.pre_execution f params w).1.state
  unfolding Run.pre_execution Exec.transfer_exec_balance
      Exec.transfer_exec_balance_and_init_contract
  pre_execution-Runs f params w = go f.context.is_create
    where
      go :
          (b : Bool)
          → Runs w.state
              ((if b
                  then Exec.endow_value params.value params f.context.spec (some (State.regular 0))
                  else Exec.transfer_value params.value params f.context.spec
                      f.context.spec.account_start_nonce)
                w).1.state
      go true = endow_value-Runs params.value params f.context.spec (some (State.regular 0)) w
      go false =
          transfer_value-Runs params.value params f.context.spec f.context.spec.account_start_nonce
            w

module _ ⦃k : Keccak⦄ ⦃rlp : Rlp⦄ where
  -- The state while `n` frames are open on `s`: each has its checkpoint, and its run so far.
  abbrev pub Open : State → ℕ → State → Type 0
  Open s zero t = s ≡ t
  Open s (suc n) t = (u : State) × Open s n u × Runs (checkpoint u).1 t

  -- The state when a frame has returned, with `n` frames still open on `s`: the last one was kept or
  -- taken back.
  abbrev pub Ended : State → Bool → ℕ → State → Type 0
  Ended s true zero t = (u : State) × Runs (checkpoint s).1 u × (t ≡ discard_checkpoint u)
  Ended s false zero t = (u : State) × Runs (checkpoint s).1 u × (revert_to_checkpoint u ≡ some t)
  Ended s true (suc n) t = Open s (suc n) t
  Ended s false (suc n) t = Open s (suc n) t

  abbrev pub mark : CallCreateFrame → AddressWithSpace × Bool
  mark f = (recipient f, f.context.is_create)

  abbrev pub marks : List CallCreateFrame → List (AddressWithSpace × Bool)
  marks [] = []
  marks (f ∷ fs) = mark f ∷ marks fs

  abbrev pub applied_return : VmResult FrameReturn → Bool
  applied_return (ok r) = r.apply_state
  applied_return (err e) = false
  applied_return panic = false

  abbrev pub substate_of : VmResult FrameReturn → Option Substate
  substate_of (ok r) = r.substate
  substate_of _ = none

  abbrev pub waiter : TrapError CallCreateFrame CallCreateFrame → CallCreateFrame
  waiter (Vm.TrapError.call params f) = f
  waiter (Vm.TrapError.create params f) = f

  -- `s` and `base` are the state and the call stack that the first frame found.
  module _ (s : State) (base : List (AddressWithSpace × Bool)) where
    pub record IsWaiting (frames : List CallCreateFrame) (sh : Shared) : Type 0 where
      pub open_frames : Open s (length frames) sh.state
      pub stack : sh.callstack.call_stack_recipient_addresses ≡ marks frames ++ base
      pub counted : IsConsistent sh.callstack

    pub record HasReturned (frames : List CallCreateFrame) (r : VmResult FrameReturn) (sh : Shared)
        : Type 0 where
      pub ended : Ended s (applied_return r) (length frames) sh.state
      pub stack : sh.callstack.call_stack_recipient_addresses ≡ marks frames ++ base
      pub counted : IsConsistent sh.callstack
      pub dropped : applied_return r ≡ false → substate_of r ≡ none

    -- What a frame leaves above `frames`.
    abbrev pub Fits : List CallCreateFrame → Result FrameTrapResult × Shared → Type 0
    Fits frames (StateDb.ok (returned r), sh) = HasReturned frames r sh
    Fits frames (StateDb.ok (sub_call_create e), sh) = IsWaiting (waiter e ∷ frames) sh
    Fits frames (StateDb.err e, sh) = Unit
    Fits frames (StateDb.panic, sh) = Unit

  pub Open-extend :
      (s : State) (n : ℕ) (t u : State) → Open s (suc n) t → Runs t u → Open s (suc n) u
  Open-extend s n t u (v, o, r) q = (v, o, Runs-trans r q)

  pub Ended-kept :
      (s : State) (n : ℕ) (t : State) → Open s (suc n) t → Ended s true n (discard_checkpoint t)
  Ended-kept s zero t (v, o, r) = (t, subst (λ x. Runs (checkpoint x).1 t) (sym o) r, refl)
  Ended-kept s (suc n) t (v, o, r) =
      Open-extend s n v (discard_checkpoint t) o (Frames.kept Frames.here r)

  pub Ended-reverted :
      (s : State) (n : ℕ) (t u : State)
      → Open s (suc n) t
      → revert_to_checkpoint t ≡ some u
      → Ended s false n u
  Ended-reverted s zero t u (v, o, r) e = (t, subst (λ x. Runs (checkpoint x).1 t) (sym o) r, e)
  Ended-reverted s (suc n) t u (v, o, r) e = Open-extend s n v u o (Frames.reverted Frames.here r e)
