-- ===== src/Frame/Atomic.antt =====
-- The loop of src/call_create_frame/stack.rs closes every frame that it opens.
use cfx_evm.Base.{
  length, ℕ, zero, suc, ◌≡◌, refl, sym, ◌∙◌, ap, Bool, true, false, List, [], ◌∷◌, Option, none,
  some, length, some-injective,
}
use mathlib.Core.Path.{subst}
use cfx_evm.Primitives.{AddressWithSpace, Keccak}
use cfx_evm.StateDb
use cfx_evm.StateDb.{Rlp, Result}
use cfx_evm.State.{State, tail}
use cfx_evm.State.View.{IsValid, Same}
use cfx_evm.State.Frames.{Runs}
use cfx_evm.State.Frames
use cfx_evm.State.Frames.Atomic.{revert-checkpoint, Runs-keep}
use cfx_evm.Substate.{Substate, accrue}
use cfx_evm.Substate.Callstack.{IsConsistent, new_frame_stack-IsConsistent}
use cfx_evm.Vm.{TrapError, FinalizationResult, returned, sub_call_create}
use cfx_evm.Vm
use cfx_evm.Evm.Error.{VmResult, ok, err, panic}
use cfx_evm.Frame.Program.{Machine}
use cfx_evm.Frame.Types.{
  FrameReturn, CallCreateFrame, FrameTrapResult, accrue_substate, from_trap_error,
}
use cfx_evm.Frame.Exec.{Shared}
use cfx_evm.Frame.Run
use cfx_evm.Frame.Run.{is_applied}
use cfx_evm.Frame.Stack.{
  FrameStack, FrameStackOutput, Turn, finished, next, go_on, turn_return, turn_call, turn, run_on,
  exec_stack, finalization, process_return, new_stack, new_shared, exec,
}
use cfx_evm.Frame.Nested.{
  Open, Ended, applied_return, substate_of, waiter, IsWaiting, HasReturned, Fits,
}
use cfx_evm.Frame.Closing.{exec-Fits, resume-Fits}

module _ ⦃k : Keccak⦄ ⦃rlp : Rlp⦄ (s : State) (base : List (AddressWithSpace × Bool))
    (tx : Substate) where
  -- What the loop has left when it ends.
  record HasFinished (out : FrameStackOutput) (sh : Shared) : Type 0 where
    ended : Ended s (is_applied out.result) 0 sh.state
    stack : sh.callstack.call_stack_recipient_addresses ≡ base
    counted : IsConsistent sh.callstack
    dropped : is_applied out.result ≡ false → out.substate ≡ tx

  abbrev Finishes : Result FrameStackOutput × Shared → Type 0
  Finishes (StateDb.ok out, sh) = HasFinished out sh
  Finishes (StateDb.err e, sh) = Unit
  Finishes (StateDb.panic, sh) = Unit

  abbrev TurnFits : Turn → Type 0
  TurnFits (finished x) = Finishes x
  TurnFits (next r stack sh) =
      Fits s base stack.frame_stack (StateDb.ok r, sh) × (stack.tx_substate ≡ tx)

  go_on-TurnFits :
      (stack : FrameStack) (x : Result FrameTrapResult × Shared)
      → stack.tx_substate ≡ tx
      → Fits s base stack.frame_stack x
      → TurnFits (go_on stack x)
  go_on-TurnFits stack (StateDb.ok r, sh) e h = (h, e)
  go_on-TurnFits stack (StateDb.err _, sh) e h = tt
  go_on-TurnFits stack (StateDb.panic, sh) e h = tt

  returned_applied : (r : VmResult FrameReturn) → is_applied (finalization r) ≡ applied_return r
  returned_applied (ok r) = refl
  returned_applied (err e) = refl
  returned_applied panic = refl

  accrue_none :
      (parent : Substate) (r : VmResult FrameReturn)
      → substate_of r ≡ none
      → accrue_substate parent r ≡ parent
  unfolding accrue_substate
  accrue_none parent (ok r) h =
      ap (λ (o : Option Substate). elim o [ none ↦ parent | some t ↦ accrue parent t ]) h
  accrue_none parent (err e) h = refl
  accrue_none parent panic h = refl

  Open-of_Ended : (b : Bool) (n : ℕ) (t : State) → Ended s b (suc n) t → Open s (suc n) t
  Open-of_Ended true n t h = h
  Open-of_Ended false n t h = h

  module _ ⦃m : Machine⦄ where
    turn_return-TurnFits :
        (r : VmResult FrameReturn) (stack : FrameStack) (frames : List CallCreateFrame)
        (sh : Shared)
        → stack.tx_substate ≡ tx
        → HasReturned s base frames r sh
        → TurnFits (turn_return r stack frames sh)
    unfolding process_return
    turn_return-TurnFits r stack [] sh e h = record {
      ended = subst (λ b. Ended s b 0 sh.state) (sym (returned_applied r)) h.ended;
      stack = h.stack;
      counted = h.counted;
      dropped = λ q. accrue_none stack.tx_substate r (h.dropped (sym (returned_applied r) ∙ q)) ∙ e;
    }
    turn_return-TurnFits r stack (parent ∷ rest) sh e h =
        go_on-TurnFits (record stack { frame_stack = rest }) (Run.resume parent r sh) e
          (resume-Fits s base rest parent r sh (record {
            open_frames = Open-of_Ended (applied_return r) (length rest) sh.state h.ended;
            stack = h.stack;
            counted = h.counted;
          }))

    turn_call-TurnFits :
        (trap : TrapError CallCreateFrame CallCreateFrame) (stack : FrameStack) (sh : Shared)
        → stack.tx_substate ≡ tx
        → IsWaiting s base (waiter trap ∷ stack.frame_stack) sh
        → TurnFits (turn_call (from_trap_error trap) stack sh)
    unfolding from_trap_error
    turn_call-TurnFits (Vm.TrapError.call params f) stack sh e h = go_on-TurnFits _ _ e (
        exec-Fits s base (f ∷ stack.frame_stack) _ sh
          (record { open_frames = h.open_frames; stack = h.stack; counted = h.counted }))
    turn_call-TurnFits (Vm.TrapError.create params f) stack sh e h = go_on-TurnFits _ _ e (
        exec-Fits s base (f ∷ stack.frame_stack) _ sh
          (record { open_frames = h.open_frames; stack = h.stack; counted = h.counted }))

    turn-TurnFits :
        (r : FrameTrapResult) (stack : FrameStack) (sh : Shared)
        → stack.tx_substate ≡ tx
        → Fits s base stack.frame_stack (StateDb.ok r, sh)
        → TurnFits (turn r stack sh)
    unfolding turn
    turn-TurnFits (returned r) stack sh e h = turn_return-TurnFits r stack stack.frame_stack sh e h
    turn-TurnFits (sub_call_create trap) stack sh e h = turn_call-TurnFits trap stack sh e h

    run_on-Finishes :
        (n : ℕ) (x : Result FrameStackOutput × Shared)
        → ((r : FrameTrapResult) (stack : FrameStack) (sh : Shared)
            → stack.tx_substate ≡ tx
            → Fits s base stack.frame_stack (StateDb.ok r, sh)
            → exec_stack n r stack sh ≡ some x
            → Finishes x)
        → (t : Turn) → TurnFits t
        → run_on n t ≡ some x
        → Finishes x
    run_on-Finishes n x rec (finished y) h q = subst Finishes (some-injective q) h
    run_on-Finishes n x rec (next r stack sh) h q = rec r stack sh h.1 h.0 q

    exec_stack-Finishes :
        (n : ℕ) (x : Result FrameStackOutput × Shared) (r : FrameTrapResult) (stack : FrameStack)
        (sh : Shared)
        → stack.tx_substate ≡ tx
        → Fits s base stack.frame_stack (StateDb.ok r, sh)
        → exec_stack n r stack sh ≡ some x
        → Finishes x
    unfolding exec_stack
    exec_stack-Finishes zero x r stack sh e h q = absurd (cc)
    exec_stack-Finishes (suc n) x r stack sh e h q =
        run_on-Finishes n x (exec_stack-Finishes n x) (turn r stack sh)
          (turn-TurnFits r stack sh e h) q

module _ ⦃k : Keccak⦄ ⦃rlp : Rlp⦄ ⦃m : Machine⦄ where
  exec-Finishes :
      (n : ℕ) (top : CallCreateFrame) (tx : Substate) (gas : ℕ) (s : State)
      (x : Result FrameStackOutput × Shared)
      → exec n top (new_stack tx gas) (new_shared s) ≡ some x
      → Finishes s [] tx x
  unfolding exec
  exec-Finishes n top tx gas s x q =
      run_on-Finishes s [] tx n x (exec_stack-Finishes s [] tx n x)
        (go_on (new_stack tx gas) (Run.exec top (new_shared s)))
        (go_on-TurnFits s [] tx (new_stack tx gas) (Run.exec top (new_shared s)) refl (
          exec-Fits s [] [] top (new_shared s)
            (record { open_frames = refl; stack = refl; counted = new_frame_stack-IsConsistent })))
        q

  -- The stack of frames is started on a valid state, with a top frame and the substate of the
  -- transaction, over any machine. If it ends with an output whose result does not apply the state,
  -- because it is an error or a revert, then a caller cannot tell the state it leaves from the one it
  -- was given (the database, the statistics, the open checkpoints and at every address the account
  -- with the value that a read of each storage slot returns), and the substate of the transaction is the one it was given.
  pub exec-not_applied :
      (n : ℕ) (top : CallCreateFrame) (tx : Substate) (gas : ℕ) (s : State) (out : FrameStackOutput)
      (sh : Shared)
      → IsValid s
      → exec n top (new_stack tx gas) (new_shared s) ≡ some (StateDb.ok out, sh)
      → is_applied out.result ≡ false
      → Same s sh.state × (out.substate ≡ tx)
  exec-not_applied n top tx gas s out sh h q d =
      let f = exec-Finishes n top tx gas s (StateDb.ok out, sh) q in
      let (u, r, e) = subst (λ b. Ended s b 0 sh.state) d f.ended in
      let (v, p, same) = revert-checkpoint s u h r in
      (subst (Same s) (some-injective (sym p ∙ e)) same, f.dropped d)

  Ended-Runs : (s t : State) (b : Bool) → Ended s b 0 t → Runs s t
  Ended-Runs s t true (u, r, e) = subst (Runs s) (sym e) (Frames.kept Frames.here r)
  Ended-Runs s t false (u, r, e) = Frames.reverted Frames.here r e

  -- However the frames end, the state they leave is reached by operations and closed frames.
  pub exec-Runs :
      (n : ℕ) (top : CallCreateFrame) (tx : Substate) (gas : ℕ) (s : State) (out : FrameStackOutput)
      (sh : Shared)
      → exec n top (new_stack tx gas) (new_shared s) ≡ some (StateDb.ok out, sh)
      → Runs s sh.state
  exec-Runs n top tx gas s out sh q =
      let f = exec-Finishes n top tx gas s (StateDb.ok out, sh) q in
      Ended-Runs s sh.state (is_applied out.result) f.ended

  -- The stack of frames is started on a valid state over any machine. However its output ends, the
  -- database is not written, as many checkpoints are open as before, none below the last one and none
  -- of the saved statistics has changed, the call stack is empty again, and its counters agree with
  -- it.
  pub exec_balanced :
      (n : ℕ) (top : CallCreateFrame) (tx : Substate) (gas : ℕ) (s : State) (out : FrameStackOutput)
      (sh : Shared)
      → IsValid s
      → exec n top (new_stack tx gas) (new_shared s) ≡ some (StateDb.ok out, sh)
      → (sh.state.db ≡ s.db)
        × (sh.state.world_statistics_checkpoints ≡ s.world_statistics_checkpoints)
        × (length sh.state.checkpoints ≡ length s.checkpoints)
        × (tail sh.state.checkpoints ≡ tail s.checkpoints)
        × (sh.callstack.call_stack_recipient_addresses ≡ [])
        × IsConsistent sh.callstack
  exec_balanced n top tx gas s out sh h q =
      let f = exec-Finishes n top tx gas s (StateDb.ok out, sh) q in
      let (db, saved, open_ones, rest) =
        Runs-keep s sh.state h (exec-Runs n top tx gas s out sh q) in
      (db, saved, open_ones, rest, f.stack, f.counted)
