-- ===== src/Frame/Stack.antt =====
-- The loop over the frames of a transaction: src/call_create_frame/stack.rs. Frames wait in a list
-- with the last one first. The loop takes fuel; `none` means that it ran out. The observer is left
-- out, and so is `FrameStack::resume`, whose result is not written yet.
use cfx_evm.Base.{ℕ, zero, suc, List, [], ◌∷◌, Option, none, some}
use cfx_evm.Primitives.{Keccak}
use cfx_evm.StateDb
use cfx_evm.StateDb.{Rlp, Result}
use cfx_evm.State.{State}
use cfx_evm.Substate.{Substate, new_frame_stack}
use cfx_evm.Vm.{FinalizationResult, returned, sub_call_create}
use cfx_evm.Evm.Error.{VmResult, ok, err, panic}
use cfx_evm.Frame.Program.{Machine}
use cfx_evm.Frame.Types.{
  FrameReturn, CallCreateFrame, FrameTrapResult, finalization_of, accrue_substate, from_trap_error,
}
use cfx_evm.Frame.Exec.{Shared}
use cfx_evm.Frame.Run
use cfx_evm.Frame.Run.{Do}

pub record FrameStack : Type 0 where
  pub frame_stack : List CallCreateFrame
  pub tx_substate : Substate
  pub base_gas_required : ℕ

-- `FrameStack::new`; the call stack that it makes is `new_frame_stack`.
abbrev pub new_stack : Substate → ℕ → FrameStack
new_stack top_substate gas = record {
  frame_stack = [];
  tx_substate = top_substate;
  base_gas_required = gas;
}

abbrev pub new_shared : State → Shared
new_shared s = record { state = s; callstack = new_frame_stack }

pub record FrameStackOutput : Type 0 where
  pub result : VmResult FinalizationResult
  pub substate : Substate
  pub base_gas_required : ℕ

abbrev pub finalization : VmResult FrameReturn → VmResult FinalizationResult
finalization (ok r) = ok (finalization_of r)
finalization (err e) = err e
finalization panic = panic

unfoldable pub process_return : VmResult FrameReturn → FrameStack → FrameStackOutput
unfolding accrue_substate
process_return result stack = record {
  result = finalization result;
  substate = accrue_substate stack.tx_substate result;
  base_gas_required = stack.base_gas_required;
}

-- One round of the loop ends it, or gives the next result and the frames that wait.
pub data Turn : Type 0 where
  finished : Result FrameStackOutput × Shared → Turn
  next : FrameTrapResult → FrameStack → Shared → Turn

abbrev pub go_on : FrameStack → Result FrameTrapResult × Shared → Turn
go_on stack (StateDb.ok r, sh) = next r stack sh
go_on stack (StateDb.err e, sh) = finished (StateDb.err e, sh)
go_on stack (StateDb.panic, sh) = finished (StateDb.panic, sh)

module _ ⦃k : Keccak⦄ ⦃rlp : Rlp⦄ ⦃m : Machine⦄ where
  -- The result of the last frame goes to the frame that waits for it, or out of the loop.
  abbrev pub turn_return : VmResult FrameReturn → FrameStack → List CallCreateFrame → Shared → Turn
  turn_return result stack [] sh = finished (StateDb.ok (process_return result stack), sh)
  turn_return result stack (parent ∷ rest) sh =
      go_on (record stack { frame_stack = rest }) (Run.resume parent result sh)

  -- The caller waits, and the callee is executed.
  abbrev pub turn_call : CallCreateFrame × CallCreateFrame → FrameStack → Shared → Turn
  turn_call (callee, caller) stack sh =
      go_on (record stack { frame_stack = caller ∷ stack.frame_stack }) (Run.exec callee sh)

  unfoldable pub turn : FrameTrapResult → FrameStack → Shared → Turn
  unfolding process_return from_trap_error Run.exec Run.resume
  turn (returned result) stack sh = turn_return result stack stack.frame_stack sh
  turn (sub_call_create e) stack sh = turn_call (from_trap_error e) stack sh

  unfoldable pub exec_stack :
      ℕ → FrameTrapResult → FrameStack → Shared → Option (Result FrameStackOutput × Shared)
  unfolding turn
  exec_stack zero last_res stack sh = none
  exec_stack (suc n) last_res stack sh = elim (turn last_res stack sh) [
    | finished out ↦ some out
    | next res stack' sh' ↦ exec_stack n res stack' sh'
  ]

  abbrev pub run_on : ℕ → Turn → Option (Result FrameStackOutput × Shared)
  run_on n (finished out) = some out
  run_on n (next res stack sh) = exec_stack n res stack sh

  -- `FrameStack::exec`
  unfoldable pub exec :
      ℕ → CallCreateFrame → FrameStack → Shared → Option (Result FrameStackOutput × Shared)
  unfolding exec_stack Run.exec
  exec n top_frame stack sh = run_on n (go_on stack (Run.exec top_frame sh))
