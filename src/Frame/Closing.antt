-- ===== src/Frame/Closing.antt =====
-- What exec and resume of src/call_create_frame/frame.rs leave of the open frames and checkpoints.
use cfx_evm.Base.{
  ◌≡◌, refl, sym, ap, Bool, true, false, not, inl, inr, List, ◌∷◌, ◌++◌, Option, none, some, length,
  if◌then◌else◌, Option-cases,
}
use mathlib.Core.Path.{subst}
use cfx_evm.Primitives.{⊤, AddressWithSpace, Keccak}
use cfx_evm.StateDb
use cfx_evm.StateDb.{Rlp, Result}
use cfx_evm.State.{State, discard_checkpoint, revert_to_checkpoint}
use cfx_evm.State.Frames.{Runs}
use cfx_evm.State.Frames
use cfx_evm.Substate.{Substate, pop, push}
use cfx_evm.Substate.Callstack.{IsConsistent, push-IsConsistent, pop_lem}
use cfx_evm.Vm.{ActionParams, GasLeft, FinalizationResult, TrapError, returned, sub_call_create}
use cfx_evm.Vm
use cfx_evm.Evm.Error.{VmResult, ok, err, panic, state_db_error}
use cfx_evm.Frame.World.{World}
use cfx_evm.Frame.Program.{Program, Machine}
use cfx_evm.Frame.Context
use cfx_evm.Frame.Types
use cfx_evm.Frame.Types.{
  FrameReturn, CallCreateFrame, FrameTrapResult, FrameStatus, input, running, accrue_substate,
  take_substate, check_static_flag,
}
use cfx_evm.Frame.Exec.{
  Shared, ExecTrapResult, activate, with_substate, with_status, process_trap, program_of,
}
use cfx_evm.Frame.Run
use cfx_evm.Frame.Run.{as_return, give, settle, executive_result, is_applied}
use cfx_evm.Frame.Acts.{finalize-Acts}
use cfx_evm.Frame.Nested.{
  run-Runs, pre_execution-Runs, Open, Ended, mark, marks, applied_return, substate_of, IsWaiting,
  Fits, Open-extend, Ended-kept, Ended-reverted,
}

module _ ⦃k : Keccak⦄ ⦃rlp : Rlp⦄ (s : State) (base : List (AddressWithSpace × Bool))
    (os : List CallCreateFrame) where
  module _ (f : CallCreateFrame) (a : VmResult FrameReturn)
      (dropped : applied_return a ≡ false → substate_of a ≡ none) (sh : Shared)
      (w : IsWaiting s base (f ∷ os) sh) where
    popped-Fits :
        (v : State)
        → Ended s (applied_return a) (length os) v
        → Fits s base os (as_return (give a (Run.pop_closed sh.callstack v (pop sh.callstack))))
    popped-Fits v h =
        let (t, pe, ve, ct, on) =
          pop_lem (mark f) (marks os ++ base) sh.callstack w.counted w.stack in
        subst (λ o. Fits s base os (as_return (give a (Run.pop_closed sh.callstack v o)))) (sym pe)
          (record { ended = h; stack = ve; counted = ct; dropped = dropped })

    close-Fits :
        (b : Bool) → applied_return a ≡ b → Fits s base os (as_return (give a (Run.close b sh)))
    unfolding Run.close Run.close_checkpoint
    close-Fits true e = popped-Fits (discard_checkpoint sh.state) (
        subst (λ c. Ended s c (length os) (discard_checkpoint sh.state)) (sym e)
          (Ended-kept s (length os) sh.state w.open_frames))
    close-Fits false e = elim (Option-cases (revert_to_checkpoint sh.state)) [
      | inl q ↦ subst (λ o. Fits s base os (as_return (give a (Run.closed sh o)))) (sym q) tt
      | inr (v, q) ↦
          subst (λ o. Fits s base os (as_return (give a (Run.closed sh o)))) (sym q)
            (popped-Fits v (
              subst (λ c. Ended s c (length os) v) (sym e)
                (Ended-reverted s (length os) sh.state v w.open_frames q)))
    ]

  confirmed_drop :
      (f : CallCreateFrame) (sub : Substate) (b : Bool) → b ≡ false → Run.confirmed b f sub ≡ none
  unfolding Run.confirmed
  confirmed_drop f sub true h = absurd (cc)
  confirmed_drop f sub false h = refl

  settle-Fits :
      (f : CallCreateFrame) (sub : Substate) (r : VmResult FinalizationResult) (sh : Shared)
      → IsWaiting s base (f ∷ os) sh
      → Fits s base os (as_return (settle f sub r sh))
  settle-Fits f sub (err (state_db_error e)) sh w = tt
  settle-Fits f sub panic sh w = tt
  settle-Fits f sub (ok r) sh w =
      close-Fits f (executive_result f sub (ok r)) (confirmed_drop f sub r.apply_state) sh w
        r.apply_state refl
  settle-Fits f sub (err e) sh w = close-Fits f (err e) (λ _. refl) sh w false refl

  -- Operations of the state keep what waits.
  pub moved :
      (f : CallCreateFrame) (sh : Shared) (t : State)
      → IsWaiting s base (f ∷ os) sh
      → Runs sh.state t
      → IsWaiting s base (f ∷ os) (record sh { state = t })
  moved f sh t w r = record {
    open_frames = Open-extend s (length os) sh.state t w.open_frames r;
    stack = w.stack;
    counted = w.counted;
  }

  pub process_return-Fits :
      (f : CallCreateFrame) (r : VmResult GasLeft) (sh : Shared)
      → IsWaiting s base (f ∷ os) sh
      → Fits s base os (as_return (Run.process_return f r sh))
  unfolding Run.process_return
  process_return-Fits f r sh w =
      let (fin, v) = Context.finalize f.context r (activate f sh) in
      settle-Fits f v.substate fin (record sh { state = v.state })
        (moved f sh v.state w ((finalize-Acts f.context r).runs (activate f sh)))

module _ ⦃k : Keccak⦄ ⦃rlp : Rlp⦄ ⦃m : Machine⦄ (s : State) (base : List (AddressWithSpace × Bool))
    (os : List CallCreateFrame) where
  process_output-Fits :
      (f : CallCreateFrame) (out : ExecTrapResult) (sh : Shared)
      → IsWaiting s base (f ∷ os) sh
      → Fits s base os (Run.process_output f out sh)
  unfolding Run.process_output process_trap
  process_output-Fits f (returned r) sh w = process_return-Fits s base os f r sh w
  process_output-Fits f (sub_call_create (Vm.TrapError.call params go)) sh w = record {
    open_frames = w.open_frames;
    stack = w.stack;
    counted = w.counted;
  }
  process_output-Fits f (sub_call_create (Vm.TrapError.create params go)) sh w = record {
    open_frames = w.open_frames;
    stack = w.stack;
    counted = w.counted;
  }

  execute-Fits :
      (f : CallCreateFrame) (p : Program) (sh : Shared)
      → IsWaiting s base (f ∷ os) sh
      → Fits s base os (Run.execute f p sh)
  unfolding Run.execute
  execute-Fits f p sh w =
      let (out, v) = Run.run f.context sh.callstack p (activate f sh) in
      let here =
        moved s base os f sh v.state w (run-Runs f.context sh.callstack p (activate f sh)) in
      process_output-Fits (with_substate f v.substate) out (record sh { state = v.state })
        (record { open_frames = here.open_frames; stack = here.stack; counted = here.counted })

  -- A frame that is resumed above `os` traps again, or returns and leaves `os` as they were.
  pub resume-Fits :
      (f : CallCreateFrame) (r : VmResult FrameReturn) (sh : Shared)
      → IsWaiting s base (f ∷ os) sh
      → Fits s base os (Run.resume f r sh)
  unfolding Run.resume
  resume-Fits f r sh w = go (Run.resumed_program f.status (take_substate r))
    where
      g : CallCreateFrame
      g = with_status (with_substate f (accrue_substate f.context.substate r)) running

      go : (o : Option Program) → Fits s base os (Run.execute_resumed g o sh)
      go none = tt
      go (some p) =
          execute-Fits g p sh
            (record { open_frames = w.open_frames; stack = w.stack; counted = w.counted })

  -- `open_frames` and `stack` before a frame is opened.
  pub record IsReady (sh : Shared) : Type 0 where
    pub open_frames : Open s (length os) sh.state
    pub stack : sh.callstack.call_stack_recipient_addresses ≡ marks os ++ base
    pub counted : IsConsistent sh.callstack

  opened-IsWaiting :
      (f : CallCreateFrame) (sh : Shared)
      → IsReady sh
      → IsWaiting s base (f ∷ os) (Run.open_frame f sh)
  unfolding Run.open_frame push
  opened-IsWaiting f sh w = record {
    open_frames = (sh.state, w.open_frames, Frames.here);
    stack = ap (λ fs. mark f ∷ fs) w.stack;
    counted = push-IsConsistent (mark f).0 f.context.is_create sh.callstack w.counted;
  }

  exec_with-Fits :
      (f : CallCreateFrame) (params : ActionParams) (sh : Shared)
      → IsReady sh
      → Fits s base os (Run.exec_with f params sh)
  unfolding Run.exec_with
  exec_with-Fits f params sh w =
      if-Fits (not (Run.same_flag (Run.is_creation f) f.context.is_create)) _ tt (
        if-Fits
          (not
            (Run.is_allowed (check_static_flag params f.context.static_flag (Run.is_creation f))))
          _ tt (run_kind-Fits (Run.pre_execution f params (activate f opened)) ready))
    where
      opened : Shared
      opened = Run.open_frame f sh

      ready :
          IsWaiting s base
            (f ∷ os)
            (record opened { state = (Run.pre_execution f params (activate f opened)).1.state })
      ready =
          moved s base os f opened _ (opened-IsWaiting f sh w)
            (pre_execution-Runs f params (activate f opened))

      if-Fits :
          (b : Bool) (x : Result FrameTrapResult × Shared)
          → Unit {0}
          → Fits s base os x
          → Fits s base os (if b then (StateDb.panic, sh) else x)
      if-Fits true x u h = tt
      if-Fits false x u h = h

      run_kind-Fits :
          (x : Result ⊤ × World)
          → IsWaiting s base (f ∷ os) (record opened { state = x.1.state })
          → Fits s base os (Run.run_kind f params opened.callstack x)
      run_kind-Fits (StateDb.ok _, v) h =
          execute-Fits (with_substate f v.substate)
            (program_of f.kind params (with_substate f v.substate).context)
            (record opened { state = v.state })
            (record { open_frames = h.open_frames; stack = h.stack; counted = h.counted })
      run_kind-Fits (StateDb.err e, v) h = tt
      run_kind-Fits (StateDb.panic, v) h = tt

  -- A frame that is executed above `os` traps, or returns and leaves `os` as they were.
  pub exec-Fits : (f : CallCreateFrame) (sh : Shared) → IsReady sh → Fits s base os (Run.exec f sh)
  unfolding Run.exec
  exec-Fits f sh w = go f.status
    where
      go : (status : FrameStatus) → Fits s base os (Run.exec_input f status sh)
      go (input params) = exec_with-Fits (with_status f running) params sh w
      go running = tt
      go Types.done = tt
      go (Types.resume_call p) = tt
      go (Types.resume_create p) = tt
