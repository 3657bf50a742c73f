-- ===== src/Frame/Exec.antt =====
-- How a frame is executed, resumed and closed: src/call_create_frame/frame.rs, and executive.rs for
-- what it executes. The observer is left out.
use cfx_evm.Base.{ℕ, ◌+◌, ◌-◌, true, List, [], Option, none, some, min, leb, if◌then◌else◌, length}
use cfx_evm.Primitives.{⊤, u256_mod, AddressWithSpace, Keccak}
use cfx_evm.Spec.{Spec}
use cfx_evm.StateDb
use cfx_evm.StateDb.{Rlp, Result, Result_map}
use cfx_evm.State
use cfx_evm.State.{
  State, Action, CleanupMode, StorageLayout, regular, checkpoint, discard_checkpoint,
  revert_to_checkpoint, ◌>>=◌, ◌>>◌, pure,
}
use cfx_evm.Substate.{Substate, FrameStackInfo, cleanup_mode}
use cfx_evm.Vm
use cfx_evm.Vm.{
  ActionParams, ActionValue, GasLeft, TrapResult, TrapError, FinalizationResult, MessageCallResult,
  ContractCreateResult, known, needs_return, returned, sub_call_create, transfer, apparent,
}
use cfx_evm.Evm.Error.{VmResult, ok, err, panic, out_of_gas, built_in, internal_contract}
use cfx_evm.Frame.World.{FrameContext, World, after_mode}
use cfx_evm.Frame.Program.{
  Program, finish, Machine, Builtin, InternalContract, BuiltinResult, output, failure,
}
use cfx_evm.Frame.Types.{
  FrameReturn, new_frame_return, accrue_substate, take_substate, into_message_call_result,
  into_contract_create_result, FrameKind, FrameStatus, input, running, resume_call, resume_create,
  CallCreateFrame, FrameTrapResult, is_plain_call, recipient, check_static_flag,
}
use cfx_evm.Frame.Types

-- What all frames share: `&mut state` and `&mut callstack`.
pub record Shared : Type 0 where
  pub state : State
  pub callstack : FrameStackInfo

-- `ExecTrapResult`
abbrev pub ExecTrapResult : Type 0
ExecTrapResult = TrapResult GasLeft (MessageCallResult → Program) (ContractCreateResult → Program)

-- A panic in the context ends the execution; any other answer is handed to the program.
abbrev pub after_answer :
    {A : Type 0}
    → (VmResult A → World → ExecTrapResult × World)
    → VmResult A × World
    → ExecTrapResult × World
after_answer go (panic, w) = (returned panic, w)
after_answer go (ok a, w) = go (ok a) w
after_answer go (err e, w) = go (err e) w

-- `self.context.activate(state, callstack)`
abbrev pub activate : CallCreateFrame → Shared → World
activate f sh = record { state = sh.state; substate = f.context.substate }

abbrev pub with_substate : CallCreateFrame → Substate → CallCreateFrame
with_substate f s = record f { context = record f.context { substate = s } }

abbrev pub with_status : CallCreateFrame → FrameStatus → CallCreateFrame
with_status f status = record f { status = status }

-- What `process_trap` makes of a trap: the frame waits with its status set.
unfoldable pub process_trap :
    TrapError (MessageCallResult → Program) (ContractCreateResult → Program)
    → CallCreateFrame
    → TrapError CallCreateFrame CallCreateFrame
process_trap (Vm.TrapError.call params go) f =
    Vm.TrapError.call params (with_status f (resume_call go))
process_trap (Vm.TrapError.create params go) f =
    Vm.TrapError.create params (with_status f (resume_create go))

-- `saturating_add`
abbrev pub saturating_add : ℕ → ℕ → ℕ
saturating_add a b = min (a + b) (u256_mod - 1)

abbrev pub sender_of : ActionParams → AddressWithSpace
sender_of params = record { address = params.sender; space = params.space }

abbrev pub receiver_of : ActionParams → AddressWithSpace
receiver_of params = record { address = params.address; space = params.space }

abbrev pub with_mode : Spec → (CleanupMode → Action CleanupMode) → World → Result ⊤ × World
with_mode spec m w =
    let (r, s) = m (cleanup_mode w.substate spec) w.state in
    (Result_map (λ _. tt) r, record { state = s; substate = after_mode r w.substate })

module _ ⦃k : Keccak⦄ ⦃rlp : Rlp⦄ where
  abbrev pub transfer_value : ActionValue → ActionParams → Spec → ℕ → World → Result ⊤ × World
  transfer_value (transfer v) params spec start =
      with_mode spec
        λ mode. State.transfer_balance (sender_of params) (receiver_of params) v mode start
  transfer_value (apparent v) params spec start = λ w. (StateDb.ok tt, w)

  unfoldable pub transfer_exec_balance : ActionParams → Spec → ℕ → World → Result ⊤ × World
  transfer_exec_balance params = transfer_value params.value params

  abbrev pub endow_contract :
      ActionParams → ℕ → Option StorageLayout → CleanupMode → Action CleanupMode
  endow_contract params v layout mode = do
    prev_balance ← State.balance (receiver_of params)
    mode' ← State.sub_balance (sender_of params) v mode
    State.new_contract (receiver_of params) (saturating_add v prev_balance) 1 layout
    pure mode'

  abbrev pub endow_value :
      ActionValue → ActionParams → Spec → Option StorageLayout → World → Result ⊤ × World
  endow_value (transfer v) params spec layout = with_mode spec (endow_contract params v layout)
  endow_value (apparent v) params spec layout = λ w. (StateDb.panic, w)

  unfoldable pub transfer_exec_balance_and_init_contract :
      ActionParams → Spec → Option StorageLayout → World → Result ⊤ × World
  transfer_exec_balance_and_init_contract params = endow_value params.value params

-- `BuiltinExec::exec`
abbrev builtin_output : ℕ → BuiltinResult → VmResult GasLeft
builtin_output gas (output bytes) =
    ok (needs_return gas (record { mem = bytes; offset = 0; size = length bytes }) true)
builtin_output gas (failure e) = err (built_in e)

abbrev bytes_or_empty : Option (List ℕ) → List ℕ
bytes_or_empty none = []
bytes_or_empty (some bytes) = bytes

unfoldable pub builtin_exec : Builtin → ActionParams → VmResult GasLeft
builtin_exec b params =
    let bytes = bytes_or_empty params.input in
    let cost = b.cost bytes in
    if leb cost params.gas
    then builtin_output (params.gas - cost) (b.execute bytes)
    else err out_of_gas

-- `InternalContractExec::exec`
unfoldable pub internal_contract_exec : InternalContract → ActionParams → FrameContext → Program
internal_contract_exec contract params c =
    if is_plain_call params.call_type
    then contract.execute params c
    else finish (err (internal_contract "Incorrect call type."))

-- What a frame of this kind executes.
unfoldable pub program_of : ⦃m : Machine⦄ → FrameKind → ActionParams → FrameContext → Program
unfolding builtin_exec internal_contract_exec
program_of Types.transfer params c = finish (ok (known params.gas))
program_of (Types.call_builtin b) params c = finish (builtin_exec b params)
program_of (Types.call_internal_contract contract) params c =
    internal_contract_exec contract params c
program_of ⦃m⦄ Types.exec_call params c = m.create_interpreter params c
program_of ⦃m⦄ Types.exec_create params c = m.create_interpreter params c
