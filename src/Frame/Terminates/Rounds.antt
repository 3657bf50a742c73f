-- ===== src/Frame/Terminates/Rounds.antt =====
-- One round of the loop of src/call_create_frame/stack.rs ends if the rounds after it end.
use cfx_evm.Base.{
  ℕ, suc, ◌+◌, ◌≤◌, ◌≡◌, refl, Bool, true, false, not, Option, none, some, if◌then◌else◌, nat_eq,
}
use cfx_evm.Primitives.{⊤, Keccak}
use cfx_evm.StateDb
use cfx_evm.StateDb.{Rlp, Result}
use cfx_evm.Substate.{FrameStackInfo}
use cfx_evm.Vm.{ActionParams, returned}
use cfx_evm.Evm.Error.{VmResult}
use cfx_evm.Frame.World.{FrameContext, World}
use cfx_evm.Frame.Program.{Program, IsTrapless, Machine}
use cfx_evm.Frame.Types
use cfx_evm.Frame.Types.{
  FrameReturn, CallCreateFrame, FrameKind, FrameStatus, FrameTrapResult, input, running,
  accrue_substate, take_substate, check_static_flag, from_trap_error, new_call_raw, new_create_raw,
  is_plain_call,
}
use cfx_evm.Frame.Exec.{Shared, ExecTrapResult, activate, with_substate, with_status, program_of}
use cfx_evm.Frame.Run
use cfx_evm.Frame.Run.{as_return}
use cfx_evm.Frame.Stack.{FrameStack, FrameStackOutput, Turn, next, go_on, turn, run_on, exec_stack}

module _ ⦃k : Keccak⦄ ⦃rlp : Rlp⦄ ⦃m : Machine⦄ where
  -- With some fuel the loop goes on from here to its end.
  abbrev pub Ends : Turn → Type 0
  Ends t = (n : ℕ) × (x : Result FrameStackOutput × Shared) × (run_on n t ≡ some x)

  pub turn-Ends :
      (r : FrameTrapResult) (stack : FrameStack) (sh : Shared)
      → Ends (turn r stack sh)
      → Ends (next r stack sh)
  unfolding exec_stack
  turn-Ends r stack sh (n, x, e) = (suc n, x, e)

  -- The loop ends if the frames that wait are given any result.
  abbrev pub Waits : FrameStack → Type 0
  Waits stack = (r : VmResult FrameReturn) (sh : Shared) → Ends (next (returned r) stack sh)

  pub as_return-Ends :
      (stack : FrameStack) (x : Result (VmResult FrameReturn) × Shared)
      → Waits stack
      → Ends (go_on stack (as_return x))
  as_return-Ends stack (StateDb.ok r, sh) h = h r sh
  as_return-Ends stack (StateDb.err e, sh) h = (0, _, refl)
  as_return-Ends stack (StateDb.panic, sh) h = (0, _, refl)

  -- What `execute` does with the output of a program.
  abbrev pub output :
      CallCreateFrame → FrameStackInfo → ExecTrapResult × World → Result FrameTrapResult × Shared
  output f cs (out, v) =
      Run.process_output (with_substate f v.substate) out
        (record { state = v.state; callstack = cs })

  -- A program ends within `j` more levels of calls, whatever frame executes it.
  abbrev pub Halts : ℕ → Program → Type 0
  Halts j p =
      (f : CallCreateFrame) (c : FrameContext) (cs : FrameStackInfo) (w : World)
      (stack : FrameStack)
      → f.context.spec.max_depth ≤ f.context.depth + j
      → (f.context.spec.max_depth ≤ f.context.depth → IsTrapless p)
      → Waits stack
      → Ends (go_on stack (output f cs (Run.run c cs p w)))

  pub execute-Ends :
      (j : ℕ) (p : Program) (f : CallCreateFrame) (sh : Shared) (stack : FrameStack)
      → Halts j p
      → f.context.spec.max_depth ≤ f.context.depth + j
      → (f.context.spec.max_depth ≤ f.context.depth → IsTrapless p)
      → Waits stack
      → Ends (go_on stack (Run.execute f p sh))
  unfolding Run.execute
  execute-Ends j p f sh stack h b t w = h f f.context sh.callstack (activate f sh) stack b t w

  -- What a frame of this kind executes does not trap at the maximal depth.
  abbrev pub IsTame : FrameKind → Type 0
  IsTame kind =
      (params : ActionParams) (c : FrameContext)
      → c.spec.max_depth ≤ c.depth
      → IsTrapless (program_of kind params c)

  pub exec-Ends :
      (j : ℕ) (f : CallCreateFrame) (sh : Shared) (stack : FrameStack)
      → ((p : Program) → Halts j p)
      → f.context.spec.max_depth ≤ f.context.depth + j
      → IsTame f.kind
      → Waits stack
      → Ends (go_on stack (Run.exec f sh))
  unfolding Run.exec Run.exec_with
  exec-Ends j f sh stack h b tame w = go f.status
    where
      failed :
          (x : Result FrameTrapResult × Shared)
          → (c : Bool) → Ends (go_on stack x)
          → Ends (go_on stack (if c then (StateDb.panic, sh) else x))
      failed x true e = (0, _, refl)
      failed x false e = e

      kinds :
          (params : ActionParams) (cs : FrameStackInfo) (x : Result ⊤ × World)
          → Ends (go_on stack (Run.run_kind (with_status f running) params cs x))
      kinds params cs (StateDb.ok _, v) =
          execute-Ends j _ (with_substate (with_status f running) v.substate)
            (record { state = v.state; callstack = cs }) stack (h _) b (tame params _) w
      kinds params cs (StateDb.err e, v) = (0, _, refl)
      kinds params cs (StateDb.panic, v) = (0, _, refl)

      go : (status : FrameStatus) → Ends (go_on stack (Run.exec_input f status sh))
      go (input params) = failed _ (not (Run.same_flag (Run.is_creation f) f.context.is_create)) (
          failed _
            (not
              (Run.is_allowed (check_static_flag params f.context.static_flag (Run.is_creation f))))
            (kinds params _ _))
      go running = (0, _, refl)
      go Types.done = (0, _, refl)
      go (Types.resume_call p) = (0, _, refl)
      go (Types.resume_create p) = (0, _, refl)

  -- The frames below a waiting caller are given its result if they are given any.
  pub resume-Ends :
      {R : Type 0} (j : ℕ) (f : CallCreateFrame) (go : R → Program) (o : Option R) (sh : Shared)
      (stack : FrameStack)
      → ((r : R) → Halts j (go r))
      → f.context.spec.max_depth ≤ f.context.depth + j
      → ((r : R) → f.context.spec.max_depth ≤ f.context.depth → IsTrapless (go r))
      → Waits stack
      → Ends (go_on stack (Run.execute_resumed f (Run.resumed_with o go) sh))
  resume-Ends j f go none sh stack h b t w = (0, _, refl)
  resume-Ends j f go (some r) sh stack h b t w = execute-Ends j (go r) f sh stack (h r) b (t r) w
