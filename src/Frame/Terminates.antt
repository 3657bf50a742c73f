-- ===== src/Frame/Terminates.antt =====
-- The loop of src/call_create_frame/stack.rs ends: frames nest at most to the depth at which the
-- interpreter refuses to call, and each program ends.
pub mod Rounds
use cfx_evm.Base.{
  ℕ, zero, suc, ◌+◌, ◌≤◌, ◌≡◌, refl, sym, arith, Bool, true, false, not, List, ◌∷◌, Option, none,
  some, if◌then◌else◌, lookup, nat_eq,
}
use mathlib.Core.Path.{subst}
use cfx_evm.Primitives.{⊤, Keccak}
use cfx_evm.Spec.{Spec}
use cfx_evm.StateDb
use cfx_evm.StateDb.{Rlp, Result}
use cfx_evm.State.{State}
use cfx_evm.Substate.{Substate, FrameStackInfo}
use cfx_evm.Vm.{
  ActionParams, Env, TrapError, MessageCallResult, ContractCreateResult, returned, sub_call_create,
}
use cfx_evm.Vm
use cfx_evm.Evm.Error.{VmResult, ok, err, panic}
use cfx_evm.Frame.World.{FrameContext, World}
use cfx_evm.Frame.Program.{
  Answer, Program, finish, ask, trap_call, trap_create, IsTrapless, InternalContract, Builtin,
  Machine, IsBounded,
}
use cfx_evm.Frame.Context.{answer, active_contract}
use cfx_evm.Frame.Types
use cfx_evm.Frame.Types.{
  FrameReturn, CallCreateFrame, FrameKind, FrameStatus, FrameTrapResult, input, running,
  accrue_substate, take_substate, check_static_flag, from_trap_error, new_call_raw, new_create_raw,
  is_plain_call,
}
use cfx_evm.Frame.Exec.{
  Shared, ExecTrapResult, after_answer, activate, with_substate, with_status, process_trap,
  program_of, internal_contract_exec,
}
use cfx_evm.Frame.Run
use cfx_evm.Frame.Run.{as_return}
use cfx_evm.Frame.Stack
use cfx_evm.Frame.Stack.{
  FrameStack, FrameStackOutput, Turn, finished, next, go_on, turn, run_on, exec_stack, new_stack,
  new_shared, exec,
}
use cfx_evm.Frame.Terminates.Rounds.{
  Ends, turn-Ends, Waits, as_return-Ends, output, Halts, execute-Ends, IsTame, exec-Ends,
  resume-Ends,
}

module _ ⦃k : Keccak⦄ ⦃rlp : Rlp⦄ ⦃m : Machine⦄ where
  module _ (bounded : IsBounded m) where
    contract-IsTame :
        (a : ℕ) (x : InternalContract)
        → lookup a m.internal_contracts ≡ some x
        → IsTame (Types.call_internal_contract x)
    unfolding program_of internal_contract_exec
    contract-IsTame a x e params c d = go (is_plain_call params.call_type)
      where
        go :
            (b : Bool)
            → IsTrapless (
                if b
                then x.execute params c
                else finish (err (cfx_evm.Evm.Error.internal_contract "Incorrect call type.")))
        go true = bounded.internal a x params c e d
        go false = tt

    found_contract :
        (c : FrameContext) (a : ℕ) (x : InternalContract)
        → active_contract c a ≡ some x
        → lookup a m.internal_contracts ≡ some x
    unfolding active_contract
    found_contract c a x h = go (lookup a m.internal_contracts) h
      where
        go :
            (o : Option InternalContract)
            → (elim o as (λ _. Option InternalContract) [
              | none ↦ none
              | some contract ↦ if contract.is_active c.spec then some contract else none
            ])
              ≡ some x
            → o ≡ some x
        go none q = absurd (cc)
        go (some y) q = ground (arith, q)

    kind-IsTame :
        (b : Option Builtin) (o : Option InternalContract) (code : Option (List ℕ))
        → ((x : InternalContract) → o ≡ some x → IsTame (Types.call_internal_contract x))
        → IsTame (Types.kind_for b o code)
    unfolding program_of
    kind-IsTame (some x) o code h params c d = tt
    kind-IsTame none (some x) code h params c d = h x refl params c d
    kind-IsTame none none none h params c d = tt
    kind-IsTame none none (some x) h params c d = bounded.interpreter params c d

    call-IsTame :
        (params : ActionParams) (env : Env) (spec : Spec) (depth : ℕ) (static : Bool)
        → IsTame (new_call_raw params env spec depth static).kind
    unfolding new_call_raw
    call-IsTame params env spec depth static = kind-IsTame _ _ params.code (λ x e.
        contract-IsTame params.code_address x (
          found_contract (new_call_raw params env spec depth static).context params.code_address x
            e))

    create-IsTame :
        (params : ActionParams) (env : Env) (spec : Spec) (depth : ℕ) (static : Bool)
        → IsTame (new_create_raw params env spec depth static).kind
    unfolding new_create_raw program_of
    create-IsTame params env spec depth static p c d = bounded.interpreter p c d

    -- The trap of a frame above `stack`: its callee, one level deeper, ends, and then the frame goes
    -- on, if the programs it may go on with end.
    trap-Ends :
        (j : ℕ) (e : TrapError CallCreateFrame CallCreateFrame) (f callee : CallCreateFrame)
        (stack : FrameStack) (sh : Shared)
        → from_trap_error e ≡ (callee, f)
        → ((p : Program) → Halts j p)
        → callee.context.spec.max_depth ≤ callee.context.depth + j
        → IsTame callee.kind
        → ((r : VmResult FrameReturn) (sh' : Shared) → Ends (go_on stack (Run.resume f r sh')))
        → Ends (next (sub_call_create e) stack sh)
    unfolding turn
    trap-Ends j e f callee stack sh q h b tame w = turn-Ends (sub_call_create e) stack sh (
        subst (λ x. Ends (Stack.turn_call x stack sh)) (sym q)
          (exec-Ends j callee sh (record stack { frame_stack = f ∷ stack.frame_stack }) h b tame
            λ r sh'. turn-Ends (returned r) _ sh' (w r sh')))

    Halts-all : (j : ℕ) (p : Program) → Halts j p
    unfolding Run.run Run.process_output Run.resume Run.resumed_program process_trap from_trap_error
        new_call_raw new_create_raw
    Halts-all j (finish r) f c cs w stack b t h = as_return-Ends stack _ h
    Halts-all j (ask q go) f c cs w stack b t h =
        answered (λ r v. Halts-all j (go r) f c cs v stack b (λ d. t d r) h) (answer c cs q w)
      where
        answered :
            ((r : VmResult (Answer q)) (v : World)
              → Ends (go_on stack (output f cs (Run.run c cs (go r) v))))
            → (x : VmResult (Answer q) × World)
            → Ends (go_on stack (output f cs (after_answer (λ r v. Run.run c cs (go r) v) x)))
        answered ih (ok a, v) = ih (ok a) v
        answered ih (err e, v) = ih (err e) v
        answered ih (panic, v) = as_return-Ends stack _ h
    Halts-all zero (trap_call params go) f c cs w stack b t h = absurd (t (omega (arith, b)))
    Halts-all zero (trap_create params go) f c cs w stack b t h = absurd (t (omega (arith, b)))
    Halts-all (suc j) (trap_call params go) f c cs w stack b t h =
        let f' : CallCreateFrame =
          with_status (with_substate f w.substate) (Types.resume_call go) in
        trap-Ends j (Vm.TrapError.call params f') f'
          (new_call_raw params f.context.env f.context.spec (f.context.depth + 1)
            f.context.static_flag)
          stack (record { state = w.state; callstack = cs }) refl (λ p. Halts-all j p) (omega arith)
          (call-IsTame params f.context.env f.context.spec (f.context.depth + 1)
            f.context.static_flag)
          λ r sh'.
            resume-Ends (suc j)
              (with_status (with_substate f' (accrue_substate w.substate r)) running) go
              (Types.into_message_call_result (take_substate r)) sh' stack
              (λ a. Halts-all (suc j) (go a)) b (λ a d. absurd (t d)) h
    Halts-all (suc j) (trap_create params go) f c cs w stack b t h =
        let f' : CallCreateFrame =
          with_status (with_substate f w.substate) (Types.resume_create go) in
        trap-Ends j (Vm.TrapError.create params f') f'
          (new_create_raw params f.context.env f.context.spec (f.context.depth + 1)
            f.context.static_flag)
          stack (record { state = w.state; callstack = cs }) refl (λ p. Halts-all j p) (omega arith)
          (create-IsTame params f.context.env f.context.spec (f.context.depth + 1)
            f.context.static_flag)
          λ r sh'.
            resume-Ends (suc j)
              (with_status (with_substate f' (accrue_substate w.substate r)) running) go
              (Types.into_contract_create_result (take_substate r)) sh' stack
              (λ a. Halts-all (suc j) (go a)) b (λ a d. absurd (t d)) h

  top_Waits : (tx : Substate) (gas : ℕ) → Waits (new_stack tx gas)
  unfolding turn
  top_Waits tx gas r sh = turn-Ends (returned r) (new_stack tx gas) sh (0, _, refl)

  deep_call :
      (params : ActionParams) (env : Env) (spec : Spec) (depth : ℕ) (static : Bool)
      → let f = new_call_raw params env spec depth static in
        f.context.spec.max_depth ≤ f.context.depth + spec.max_depth
  unfolding new_call_raw
  deep_call params env spec depth static = omega arith

  deep_create :
      (params : ActionParams) (env : Env) (spec : Spec) (depth : ℕ) (static : Bool)
      → let f = new_create_raw params env spec depth static in
        f.context.spec.max_depth ≤ f.context.depth + spec.max_depth
  unfolding new_create_raw
  deep_create params env spec depth static = omega arith

  -- The machine's interpreter and internal contracts refuse to call at the maximal depth. Then the
  -- stack of frames, started with the frame of any call or of any creation, on any state, with any
  -- substate, ends: there is fuel with which its loop comes to a result.
  pub exec_terminates :
      (bounded : IsBounded m) (params : ActionParams) (env : Env) (spec : Spec) (depth : ℕ)
      (static_flag : Bool) (tx : Substate) (gas : ℕ) (s : State)
      → ((n : ℕ) × (x : Result FrameStackOutput × Shared) × (exec n
              (new_call_raw params env spec depth static_flag)
              (new_stack tx gas)
              (new_shared s)
            ≡ some x))
        × ((n : ℕ) × (x : Result FrameStackOutput × Shared) × (exec n
                (new_create_raw params env spec depth static_flag)
                (new_stack tx gas)
                (new_shared s)
              ≡ some x))
  unfolding exec
  exec_terminates bounded params env spec depth static_flag tx gas s = (
    exec-Ends spec.max_depth (new_call_raw params env spec depth static_flag) (new_shared s)
        (new_stack tx gas) (Halts-all bounded spec.max_depth)
        (deep_call params env spec depth static_flag)
        (call-IsTame bounded params env spec depth static_flag) (top_Waits tx gas),
    exec-Ends spec.max_depth (new_create_raw params env spec depth static_flag) (new_shared s)
        (new_stack tx gas) (Halts-all bounded spec.max_depth)
        (deep_create params env spec depth static_flag)
        (create-IsTame bounded params env spec depth static_flag) (top_Waits tx gas),
  )
