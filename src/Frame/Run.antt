-- ===== src/Frame/Run.antt =====
-- The life of a frame: exec, resume, process_output and process_return of
-- src/call_create_frame/frame.rs.
use cfx_evm.Base.{ℕ, Bool, true, false, not, [], ◌∷◌, ◌++◌, Option, none, some, if◌then◌else◌}
use cfx_evm.Primitives.{⊤, AddressWithSpace, Keccak}
use cfx_evm.StateDb
use cfx_evm.StateDb.{Rlp, Result, Result_map}
use cfx_evm.State.{State, regular, checkpoint, discard_checkpoint, revert_to_checkpoint}
use cfx_evm.Substate.{Substate, FrameStackInfo, push, pop}
use cfx_evm.Vm
use cfx_evm.Vm.{
  ActionParams, GasLeft, FinalizationResult, MessageCallResult, ContractCreateResult, returned,
  sub_call_create,
}
use cfx_evm.Evm.Error.{VmResult, ok, err, panic, state_db_error}
use cfx_evm.Frame.World.{FrameContext, World}
use cfx_evm.Frame.Program.{Program, finish, ask, trap_call, trap_create, Machine}
use cfx_evm.Frame.Context.{answer, finalize}
use cfx_evm.Frame.Types.{
  FrameReturn, new_frame_return, accrue_substate, take_substate, into_message_call_result,
  into_contract_create_result, FrameStatus, input, running, resume_call, resume_create,
  CallCreateFrame, FrameTrapResult, recipient, check_static_flag,
}
use cfx_evm.Frame.Exec.{
  Shared, ExecTrapResult, after_answer, activate, with_substate, with_status, process_trap,
  transfer_exec_balance, transfer_exec_balance_and_init_contract, program_of,
}

-- A method of a frame: it fails with an error of the database, or panics, or gives a result.
abbrev pub Do : Type 0 → Type 0
Do A = Shared → Result A × Shared

-- The state after the frame's checkpoint is closed; `none` is a panic.
unfoldable pub close_checkpoint : Bool → State → Option State
close_checkpoint true s = some (discard_checkpoint s)
close_checkpoint false s = revert_to_checkpoint s

abbrev pub pop_closed :
    FrameStackInfo
    → State
    → Option (Option (AddressWithSpace × Bool) × FrameStackInfo)
    → Result ⊤ × Shared
pop_closed cs s none = (StateDb.panic, record { state = s; callstack = cs })
pop_closed cs s (some (top, rest)) = (StateDb.ok tt, record { state = s; callstack = rest })

abbrev pub closed : Shared → Option State → Result ⊤ × Shared
closed sh none = (StateDb.panic, sh)
closed sh (some s) = pop_closed sh.callstack s (pop sh.callstack)

-- The checkpoint is kept or taken back, then the frame leaves the call stack.
unfoldable pub close : Bool → Do ⊤
close apply_state sh = closed sh (close_checkpoint apply_state sh.state)

abbrev pub is_applied : VmResult FinalizationResult → Bool
is_applied (ok r) = r.apply_state
is_applied (err e) = false
is_applied panic = false

abbrev record_created : Option ℕ → FrameContext → Substate → Substate
record_created none c s = s
record_created (some a) c s = record s {
  contracts_created = s.contracts_created ++ record { address = a; space = c.space } ∷ [];
}

-- `maybe_substate`: an applied frame hands on its substate, with the contract it created.
unfoldable pub confirmed : Bool → CallCreateFrame → Substate → Option Substate
confirmed true f s = some (record_created f.create_address f.context s)
confirmed false f s = none

abbrev pub executive_result :
    CallCreateFrame → Substate → VmResult FinalizationResult → VmResult FrameReturn
executive_result f s (ok r) = ok (new_frame_return r f.create_address (confirmed r.apply_state f s))
executive_result f s (err e) = err e
executive_result f s panic = panic

-- The frame's result, once its checkpoint is closed.
abbrev pub give : {A : Type 0} → A → Result ⊤ × Shared → Result A × Shared
give a (r, sh) = (Result_map (λ _. a) r, sh)

-- `separate_out_db_error`, and what follows it in `process_return`.
abbrev pub settle :
    CallCreateFrame → Substate → VmResult FinalizationResult → Do (VmResult FrameReturn)
settle f s (err (state_db_error e)) sh = (StateDb.err e, sh)
settle f s panic sh = (StateDb.panic, sh)
settle f s (ok r) sh = give (executive_result f s (ok r)) (close (is_applied (ok r)) sh)
settle f s (err e) sh = give (executive_result f s (err e)) (close false sh)

abbrev pub as_return : Result (VmResult FrameReturn) × Shared → Result FrameTrapResult × Shared
as_return (r, sh) = (Result_map returned r, sh)

abbrev pub is_creation : CallCreateFrame → Bool
is_creation f = elim f.create_address [ none ↦ false | some _ ↦ true ]

abbrev pub same_flag : Bool → Bool → Bool
same_flag true b = b
same_flag false b = not b

abbrev pub is_allowed : VmResult ⊤ → Bool
is_allowed (ok _) = true
is_allowed _ = false

-- The program that a waiting frame goes on with; `none` is a panic.
abbrev pub resumed_with : {R : Type 0} → Option R → (R → Program) → Option Program
resumed_with none go = none
resumed_with (some r) go = some (go r)

unfoldable pub resumed_program : FrameStatus → VmResult FrameReturn → Option Program
unfolding into_message_call_result into_contract_create_result
resumed_program (resume_call go) result = resumed_with (into_message_call_result result) go
resumed_program (resume_create go) result = resumed_with (into_contract_create_result result) go
resumed_program _ result = none

module _ ⦃k : Keccak⦄ ⦃rlp : Rlp⦄ where
  unfoldable pub process_return : CallCreateFrame → VmResult GasLeft → Do (VmResult FrameReturn)
  unfolding confirmed close close_checkpoint finalize
  process_return f result sh =
      let (r, w) = finalize f.context result (activate f sh) in
      settle f w.substate r (record sh { state = w.state })

  unfoldable pub pre_execution : CallCreateFrame → ActionParams → World → Result ⊤ × World
  unfolding transfer_exec_balance transfer_exec_balance_and_init_contract
  pre_execution f params =
      if f.context.is_create
      then transfer_exec_balance_and_init_contract params f.context.spec (some (regular 0))
      else transfer_exec_balance params f.context.spec f.context.spec.account_start_nonce

-- `state.checkpoint()` and the push on the call stack.
unfoldable pub open_frame : CallCreateFrame → Shared → Shared
open_frame f sh = record {
  state = (checkpoint sh.state).1;
  callstack = push (recipient f) f.context.is_create sh.callstack;
}

module _ ⦃k : Keccak⦄ ⦃rlp : Rlp⦄ ⦃m : Machine⦄ where
  -- `Exec::exec`: the program runs until it ends or traps.
  unfoldable pub run : FrameContext → FrameStackInfo → Program → World → ExecTrapResult × World
  run c cs (finish r) w = (returned r, w)
  run c cs (ask q go) w = after_answer (λ r v. run c cs (go r) v) (answer c cs q w)
  run c cs (trap_call params go) w = (sub_call_create (Vm.TrapError.call params go), w)
  run c cs (trap_create params go) w = (sub_call_create (Vm.TrapError.create params go), w)

  unfoldable pub process_output : CallCreateFrame → ExecTrapResult → Do FrameTrapResult
  unfolding process_return process_trap
  process_output f (returned r) sh = as_return (process_return f r sh)
  process_output f (sub_call_create e) sh = (StateDb.ok (sub_call_create (process_trap e f)), sh)

  -- The frame executes a program, and its output is processed.
  unfoldable pub execute : CallCreateFrame → Program → Do FrameTrapResult
  unfolding run process_output
  execute f p sh =
      let (output, w) = run f.context sh.callstack p (activate f sh) in
      process_output (with_substate f w.substate) output (record sh { state = w.state })

  abbrev pub run_kind :
      CallCreateFrame
      → ActionParams
      → FrameStackInfo
      → Result ⊤ × World
      → Result FrameTrapResult × Shared
  run_kind f params cs (StateDb.ok _, w) =
      let f' = with_substate f w.substate in
      execute f' (program_of f'.kind params f'.context) (record { state = w.state; callstack = cs })
  run_kind f params cs (StateDb.err e, w) =
      (StateDb.err e, record { state = w.state; callstack = cs })
  run_kind f params cs (StateDb.panic, w) =
      (StateDb.panic, record { state = w.state; callstack = cs })

  -- `exec`, once the frame's parameters are taken from its status.
  unfoldable pub exec_with : CallCreateFrame → ActionParams → Do FrameTrapResult
  unfolding execute pre_execution open_frame check_static_flag program_of
  exec_with f params sh =
      if not (same_flag (is_creation f) f.context.is_create)
      then (StateDb.panic, sh)
      else if not (is_allowed (check_static_flag params f.context.static_flag (is_creation f)))
      then (StateDb.panic, sh)
      else (let opened = open_frame f sh in
          run_kind f params opened.callstack (pre_execution f params (activate f opened)))

  abbrev pub exec_input : CallCreateFrame → FrameStatus → Do FrameTrapResult
  exec_input f (input params) = exec_with (with_status f running) params
  exec_input f _ = λ sh. (StateDb.panic, sh)

  unfoldable pub exec : CallCreateFrame → Do FrameTrapResult
  unfolding exec_with
  exec f = exec_input f f.status

  abbrev pub execute_resumed : CallCreateFrame → Option Program → Do FrameTrapResult
  execute_resumed f none sh = (StateDb.panic, sh)
  execute_resumed f (some p) sh = execute f p sh

  unfoldable pub resume : CallCreateFrame → VmResult FrameReturn → Do FrameTrapResult
  unfolding execute resumed_program accrue_substate
  resume f result =
      execute_resumed
        (with_status (with_substate f (accrue_substate f.context.substate result)) running)
        (resumed_program f.status (take_substate result))
