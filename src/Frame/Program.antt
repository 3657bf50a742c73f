-- ===== src/Frame/Program.antt =====
-- What a frame executes. A boxed `Exec` is a program: it asks its context, and ends with a result or
-- with a trap that says how it goes on. The context's questions are the methods of `Context` in
-- src/vm/context.rs and of `InternalRefContext` in src/internal_contract/components/context.rs. The
-- interpreter and the internal contracts are fields of the machine.
use Prim.Native.String.{String}
use cfx_evm.Base.{ℕ, ◌≡◌, ◌≤◌, Bool, Option, some, List, HashMap, lookup, nat_eq}
use cfx_evm.Primitives.{⊤, AddressWithSpace}
use cfx_evm.Spec.{Spec}
use cfx_evm.State.{StorageLayout}
use cfx_evm.Substate.{FrameStackInfo}
use cfx_evm.Vm.{
  ActionParams, CallType, CreateContractAddress, TrapKind, GasLeft, MessageCallResult,
  ContractCreateResult,
}
use cfx_evm.Evm.Error.{VmResult}
use cfx_evm.Frame.World.{FrameContext}

pub data Ask : Type 0 where
  storage_at : List ℕ → Ask
  set_storage : List ℕ → ℕ → Ask
  exists exists_and_not_null balance extcode extcodehash extcodesize : ℕ → Ask
  origin_balance callstack : Ask
  blockhash : ℕ → Ask
  create : (gas value : ℕ) → List ℕ → CreateContractAddress → Ask
  call :
      (gas sender_address receive_address : ℕ)
      → Option ℕ
      → List ℕ
      → (code_address : ℕ) → CallType
      → Ask
  log : List ℕ → List ℕ → Ask
  suicide : (refund_address account_start_nonce : ℕ) → Ask
  internal_log : ActionParams → List ℕ → List ℕ → Ask
  internal_set_storage : ActionParams → List ℕ → ℕ → Ask
  internal_storage_at : ActionParams → List ℕ → Ask
  internal_exists_and_not_null internal_balance internal_nonce internal_code internal_code_hash
        internal_is_contract_with_code internal_created :
      AddressWithSpace → Ask
  internal_inc_nonce : AddressWithSpace → ℕ → Ask
  internal_init_code : AddressWithSpace → List ℕ → Ask
  internal_new_contract : AddressWithSpace → ℕ → ℕ → Option StorageLayout → Ask
  internal_transfer_balance : (from to : AddressWithSpace) → ℕ → ℕ → Ask

abbrev pub Answer : Ask → Type 0
Answer (storage_at _) = ℕ
Answer (set_storage _ _) = ⊤
Answer (exists _) = Bool
Answer (exists_and_not_null _) = Bool
Answer (balance _) = ℕ
Answer (extcode _) = Option (List ℕ)
Answer (extcodehash _) = Option ℕ
Answer (extcodesize _) = Option ℕ
Answer origin_balance = ℕ
Answer callstack = FrameStackInfo
Answer (blockhash _) = ℕ
Answer (create _ _ _ _) = TrapKind
Answer (call _ _ _ _ _ _ _) = TrapKind
Answer (log _ _) = ⊤
Answer (suicide _ _) = ⊤
Answer (internal_log _ _ _) = ⊤
Answer (internal_set_storage _ _ _) = ⊤
Answer (internal_storage_at _ _) = ℕ
Answer (internal_exists_and_not_null _) = Bool
Answer (internal_balance _) = ℕ
Answer (internal_nonce _) = ℕ
Answer (internal_code _) = Option (List ℕ)
Answer (internal_code_hash _) = Option ℕ
Answer (internal_is_contract_with_code _) = Bool
Answer (internal_created _) = ⊤
Answer (internal_inc_nonce _ _) = ⊤
Answer (internal_init_code _ _) = ⊤
Answer (internal_new_contract _ _ _ _) = ⊤
Answer (internal_transfer_balance _ _ _ _) = ⊤

pub data Program : Type 0 where
  finish : VmResult GasLeft → Program
  ask : (q : Ask) → (VmResult (Answer q) → Program) → Program
  trap_call : ActionParams → (MessageCallResult → Program) → Program
  trap_create : ActionParams → (ContractCreateResult → Program) → Program

-- A program that ends without a trap, whatever it is answered.
abbrev pub IsTrapless : Program → Type 0
IsTrapless (finish r) = Unit
IsTrapless (ask q go) = (r : VmResult (Answer q)) → IsTrapless (go r)
IsTrapless (trap_call params go) = ⊥
IsTrapless (trap_create params go) = ⊥

-- `Builtin` of src/builtin/mod.rs: what it costs, and its output or an error.
pub data BuiltinResult : Type 0 where
  output : List ℕ → BuiltinResult
  failure : String → BuiltinResult

pub record Builtin : Type 0 where
  pub cost : List ℕ → ℕ
  pub execute : List ℕ → BuiltinResult
  pub activate_at : ℕ

-- `InternalContractTrait`
pub record InternalContract : Type 0 where
  pub is_active : Spec → Bool
  pub code : List ℕ
  pub code_hash : ℕ
  pub execute : ActionParams → FrameContext → Program

-- `Machine`, with the factory of interpreters and the encoding of the `rlp` crate from which the
-- address of a created contract is derived.
pub record Machine : Type 0 where
  pub builtins : HashMap ℕ Builtin
  pub internal_contracts : HashMap ℕ InternalContract
  pub create_interpreter : ActionParams → FrameContext → Program
  pub encode_sender_nonce : ℕ → ℕ → List ℕ

-- The interpreter and the internal contracts refuse to call and to create at the maximal depth.
pub record IsBounded (m : Machine) : Type 0 where
  pub interpreter :
      (params : ActionParams) (c : FrameContext)
      → c.spec.max_depth ≤ c.depth
      → IsTrapless (m.create_interpreter params c)
  pub internal :
      (a : ℕ) (contract : InternalContract) (params : ActionParams) (c : FrameContext)
      → lookup a m.internal_contracts ≡ some contract
      → c.spec.max_depth ≤ c.depth
      → IsTrapless (contract.execute params c)
