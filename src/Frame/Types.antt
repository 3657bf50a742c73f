-- ===== src/Frame/Types.antt =====
-- Frames, what they return, and how results are handed over: src/call_create_frame/frame.rs and
-- result.rs.
use cfx_evm.Base.{
  ℕ, ◌+◌, Bool, true, false, ◌&&◌, ◌||◌, Option, none, some, List, lookup, nat_eq, leb, ltb,
  if◌then◌else◌,
}
use cfx_evm.Primitives.{⊤, Space, AddressWithSpace}
use cfx_evm.Spec.{Spec}
use cfx_evm.Substate.{Substate, new_substate, accrue}
use cfx_evm.Vm
use cfx_evm.Vm.{
  ActionParams, CallType, Env, ReturnData, TrapError, TrapResult, FinalizationResult,
  MessageCallResult, ContractCreateResult, static_call, success, created, value_of, not_call,
  call_code, delegate_call,
}
use cfx_evm.Evm.Error.{VmResult, ok, err, panic, mutable_call_in_static_context}
use cfx_evm.Frame.World.{origin_from, FrameContext}
use cfx_evm.Frame.Program.{Program, Builtin, InternalContract, Machine}
use cfx_evm.Frame.Context.{active_contract}

pub record FrameReturn : Type 0 where
  pub space : Space
  pub gas_left : ℕ
  pub apply_state : Bool
  pub return_data : ReturnData
  pub create_address : Option ℕ
  pub substate : Option Substate

-- `Into<FinalizationResult>`
abbrev pub finalization_of : FrameReturn → FinalizationResult
finalization_of r = record {
  space = r.space;
  gas_left = r.gas_left;
  apply_state = r.apply_state;
  return_data = r.return_data;
}

-- `FrameReturn::new`
abbrev pub new_frame_return : FinalizationResult → Option ℕ → Option Substate → FrameReturn
new_frame_return result create_address substate = record {
  space = result.space;
  gas_left = result.gas_left;
  apply_state = result.apply_state;
  return_data = result.return_data;
  create_address = create_address;
  substate = substate;
}

abbrev accrue_returned : Substate → Option Substate → Substate
accrue_returned parent none = parent
accrue_returned parent (some s) = accrue parent s

-- The parent's substate after it took the substate of the result.
unfoldable pub accrue_substate : Substate → VmResult FrameReturn → Substate
accrue_substate parent (ok r) = accrue_returned parent r.substate
accrue_substate parent (err e) = parent
accrue_substate parent panic = parent

-- The result without the substate that was taken.
abbrev pub take_substate : VmResult FrameReturn → VmResult FrameReturn
take_substate (ok r) = ok (record r { substate = none })
take_substate (err e) = err e
take_substate panic = panic

abbrev message_result : Bool → ℕ → ReturnData → MessageCallResult
message_result true gas bytes = success gas bytes
message_result false gas bytes = Vm.MessageCallResult.reverted gas bytes

-- `none` is a panic, here and below.
unfoldable pub into_message_call_result : VmResult FrameReturn → Option MessageCallResult
into_message_call_result (ok r) = some (message_result r.apply_state r.gas_left r.return_data)
into_message_call_result (err e) = some (Vm.MessageCallResult.failed e)
into_message_call_result panic = none

abbrev create_result : Bool → Option ℕ → Space → ℕ → ReturnData → Option ContractCreateResult
create_result true none space gas bytes = none
create_result true (some a) space gas bytes =
    some (created (record { address = a; space = space }) gas)
create_result false _ space gas bytes = some (Vm.ContractCreateResult.reverted gas bytes)

unfoldable pub into_contract_create_result : VmResult FrameReturn → Option ContractCreateResult
into_contract_create_result (ok r) =
    create_result r.apply_state r.create_address r.space r.gas_left r.return_data
into_contract_create_result (err e) = some (Vm.ContractCreateResult.failed e)
into_contract_create_result panic = none

pub data FrameKind : Type 0 where
  transfer exec_call exec_create : FrameKind
  call_builtin : Builtin → FrameKind
  call_internal_contract : InternalContract → FrameKind

pub data FrameStatus : Type 0 where
  input : ActionParams → FrameStatus
  running done : FrameStatus
  resume_call : (MessageCallResult → Program) → FrameStatus
  resume_create : (ContractCreateResult → Program) → FrameStatus

pub record CallCreateFrame : Type 0 where
  pub context : FrameContext
  pub status : FrameStatus
  pub create_address : Option ℕ
  pub kind : FrameKind

-- `FrameTrapResult`; what a trap carries on is the frame that waits.
abbrev pub FrameTrapResult : Type 0
FrameTrapResult = TrapResult FrameReturn CallCreateFrame CallCreateFrame

abbrev pub is_static_call : CallType → Bool
is_static_call static_call = true
is_static_call _ = false

-- `call_type == StaticCall || call_type == Call`
abbrev pub is_plain_call : CallType → Bool
is_plain_call static_call = true
is_plain_call Vm.CallType.call = true
is_plain_call _ = false

abbrev active_builtin : ℕ → Option Builtin → Option Builtin
active_builtin number none = none
active_builtin number (some b) = if leb b.activate_at number then some b else none

-- `Machine::builtin`
unfoldable pub builtin : ⦃m : Machine⦄ → ℕ → ℕ → Option Builtin
builtin ⦃m⦄ a number = active_builtin number (lookup a m.builtins)

abbrev code_kind : Option (List ℕ) → FrameKind
code_kind none = transfer
code_kind (some _) = exec_call

abbrev pub kind_for : Option Builtin → Option InternalContract → Option (List ℕ) → FrameKind
kind_for (some b) _ _ = call_builtin b
kind_for none (some contract) _ = call_internal_contract contract
kind_for none none code = code_kind code

unfoldable pub new_call_raw : ⦃m : Machine⦄ → ActionParams → Env → Spec → ℕ → Bool → CallCreateFrame
unfolding origin_from builtin active_contract
new_call_raw params env spec depth parent_static_flag =
    let context : FrameContext = record {
      space = params.space;
      env = env;
      depth = depth;
      is_create = false;
      origin = origin_from params;
      substate = new_substate;
      spec = spec;
      static_flag = parent_static_flag || is_static_call params.call_type;
    } in
    record {
      context = context;
      status = input params;
      create_address = none;
      kind =
          kind_for (builtin params.code_address env.number)
            (active_contract context params.code_address) params.code;
    }

unfoldable pub new_create_raw : ActionParams → Env → Spec → ℕ → Bool → CallCreateFrame
unfolding origin_from
new_create_raw params env spec depth static_flag = record {
  context = record {
    space = params.space;
    env = env;
    depth = depth;
    is_create = true;
    origin = origin_from params;
    substate = new_substate;
    spec = spec;
    static_flag = static_flag;
  };
  status = input params;
  create_address = some params.code_address;
  kind = exec_create;
}

-- The callee and the caller.
unfoldable pub from_trap_error :
    ⦃m : Machine⦄ → TrapError CallCreateFrame CallCreateFrame → CallCreateFrame × CallCreateFrame
unfolding new_call_raw new_create_raw
from_trap_error (Vm.TrapError.call params parent) = (
  new_call_raw params parent.context.env parent.context.spec (parent.context.depth + 1)
      parent.context.static_flag,
  parent,
)
from_trap_error (Vm.TrapError.create params parent) = (
  new_create_raw params parent.context.env parent.context.spec (parent.context.depth + 1)
      parent.context.static_flag,
  parent,
)

-- `get_recipient`, with its space.
abbrev pub recipient : CallCreateFrame → AddressWithSpace
recipient f = record { address = f.context.origin.address; space = f.context.space }

unfoldable pub check_static_flag : ActionParams → Bool → Bool → VmResult ⊤
check_static_flag params static_flag is_create =
    if static_flag
      && (if is_create
          then true
          else is_plain_call params.call_type && ltb 0 (value_of params.value))
    then err mutable_call_in_static_context
    else ok tt
