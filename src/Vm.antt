-- ===== src/Vm.antt =====
-- The data that the virtual machine and its callers exchange: src/vm/action_params.rs,
-- call_create_type.rs, return_data.rs, env.rs, context.rs, and the traps of error.rs.
use cfx_evm.Base.{ℕ, Bool, List, [], Option, take, drop}
use cfx_evm.Primitives.{AddressWithSpace, Space}
use cfx_evm.Evm.Error.{VmError, VmResult}

pub data ActionValue : Type 0 where
  transfer : ℕ → ActionValue
  apparent : ℕ → ActionValue

-- `ActionValue::value`
abbrev pub value_of : ActionValue → ℕ
value_of (transfer x) = x
value_of (apparent x) = x

pub data ParamsType : Type 0 where
  embedded separate : ParamsType

pub data CallType : Type 0 where
  not_call call call_code delegate_call static_call : CallType

pub data CreateType : Type 0 where
  not_create create create2 : CreateType

pub data CreateContractAddress : Type 0 where
  from_sender_nonce : CreateContractAddress
  from_sender_salt_and_code_hash : ℕ → CreateContractAddress

abbrev pub from_address_scheme : CreateContractAddress → CreateType
from_address_scheme from_sender_nonce = create
from_address_scheme (from_sender_salt_and_code_hash _) = create2

pub record ActionParams : Type 0 where
  pub space : Space
  pub code_address : ℕ
  pub code_hash : Option ℕ
  pub address : ℕ
  pub sender : ℕ
  pub original_sender : ℕ
  pub gas : ℕ
  pub gas_price : ℕ
  pub value : ActionValue
  pub code : Option (List ℕ)
  pub input : Option (List ℕ)
  pub call_type : CallType
  pub create_type : CreateType
  pub params_type : ParamsType

pub record Env : Type 0 where
  pub number : ℕ
  pub author : ℕ
  pub timestamp : ℕ
  pub difficulty : ℕ
  pub gas_limit : ℕ
  pub last_hash : ℕ
  pub accumulated_gas_used : ℕ
  pub epoch_height : ℕ

pub record ReturnData : Type 0 where
  pub mem : List ℕ
  pub offset : ℕ
  pub size : ℕ

abbrev pub empty_return_data : ReturnData
empty_return_data = record { mem = []; offset = 0; size = 0 }

-- `Deref for ReturnData`, where the slice lies within the buffer.
abbrev pub returned_bytes : ReturnData → List ℕ
returned_bytes d = take d.size (drop d.offset d.mem)

pub data GasLeft : Type 0 where
  known : ℕ → GasLeft
  needs_return : (gas_left : ℕ) (bytes : ReturnData) (apply_state : Bool) → GasLeft

pub data ContractCreateResult : Type 0 where
  created : AddressWithSpace → ℕ → ContractCreateResult
  failed : VmError → ContractCreateResult
  reverted : ℕ → ReturnData → ContractCreateResult

pub data MessageCallResult : Type 0 where
  success : ℕ → ReturnData → MessageCallResult
  failed : VmError → MessageCallResult
  reverted : ℕ → ReturnData → MessageCallResult

pub data TrapKind : Type 0 where
  call : ActionParams → TrapKind
  create : ActionParams → TrapKind

-- `TrapError`, over what resumes a call and what resumes a creation.
pub data TrapError {ℓ} (C D : Type ℓ) : Type ℓ where
  call : ActionParams → C → TrapError C D
  create : ActionParams → D → TrapError C D

pub data TrapResult {ℓ} (T C D : Type ℓ) : Type ℓ where
  returned : VmResult T → TrapResult T C D
  sub_call_create : TrapError C D → TrapResult T C D

-- `FinalizationResult` of src/evm/evm.rs.
pub record FinalizationResult : Type 0 where
  pub space : Space
  pub gas_left : ℕ
  pub apply_state : Bool
  pub return_data : ReturnData
