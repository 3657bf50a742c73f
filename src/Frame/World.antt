-- ===== src/Frame/World.antt =====
-- What a running frame may change, the state and its own substate, and actions on it. The rest of
-- `FrameContext` in src/call_create_frame/context.rs stays as it is while the frame lives.
use cfx_evm.Base.{ℕ, Bool}
use cfx_evm.Primitives.{⊤, Space}
use cfx_evm.Spec.{Spec}
use cfx_evm.StateDb
use cfx_evm.StateDb.{Result}
use cfx_evm.State.{State, Action, CleanupMode}
use cfx_evm.Substate.{Substate, cleanup_mode, write_back}
use cfx_evm.Vm.{ActionParams, Env, value_of}
use cfx_evm.Evm.Error.{VmError, VmResult, ok, err, panic, state_db_error}

pub record OriginInfo : Type 0 where
  pub address : ℕ
  pub original_sender : ℕ
  pub gas_price : ℕ
  pub value : ℕ

-- `OriginInfo::from`
unfoldable pub origin_from : ActionParams → OriginInfo
origin_from params = record {
  address = params.address;
  original_sender = params.original_sender;
  gas_price = params.gas_price;
  value = value_of params.value;
}

-- The machine is an instance argument of what uses it.
pub record FrameContext : Type 0 where
  pub space : Space
  pub env : Env
  pub depth : ℕ
  pub is_create : Bool
  pub origin : OriginInfo
  pub substate : Substate
  pub spec : Spec
  pub static_flag : Bool

pub record World : Type 0 where
  pub state : State
  pub substate : Substate

abbrev pub Act : Type 0 → Type 0
Act A = World → VmResult A × World

abbrev pub continue : {A B : Type 0} → (A → Act B) → VmResult A × World → VmResult B × World
continue f (ok a, w) = f a w
continue f (err e, w) = (err e, w)
continue f (panic, w) = (panic, w)

infixl 5 ◌>>=◌ ◌>>◌
unfoldable pub ◌>>=◌ : {A B : Type 0} → Act A → (A → Act B) → Act B
◌>>=◌ m f w = continue f (m w)

abbrev pub ◌>>◌ : {A B : Type 0} → Act A → Act B → Act B
m >> k = m >>= λ _. k

unfoldable pub pure : {A : Type 0} → A → Act A
pure a w = (ok a, w)

unfoldable pub fail : {A : Type 0} → VmError → Act A
fail e w = (err e, w)

unfoldable pub crash : {A : Type 0} → Act A
crash w = (panic, w)

unfoldable pub update : (Substate → Substate) → Act ⊤
update f w = (ok tt, record w { substate = f w.substate })

-- A database error as an error of the virtual machine.
abbrev pub to_vm : {A : Type 0} → Result A → VmResult A
to_vm (StateDb.ok a) = ok a
to_vm (StateDb.err e) = err (state_db_error e)
to_vm StateDb.panic = panic

-- A method of the state.
unfoldable pub of_state : {A : Type 0} → Action A → Act A
of_state m w = let (r, s) = m w.state in (to_vm r, record w { state = s })

abbrev pub after_mode : Result CleanupMode → Substate → Substate
after_mode (StateDb.ok mode) s = write_back mode s
after_mode _ s = s

abbrev pub forget : Result CleanupMode → VmResult ⊤
forget (StateDb.ok mode) = ok tt
forget (StateDb.err e) = err (state_db_error e)
forget StateDb.panic = panic

-- A method of the state that is given `cleanup_mode(substate, spec)`.
unfoldable pub with_cleanup : Spec → (CleanupMode → Action CleanupMode) → Act ⊤
with_cleanup spec m w =
    let (r, s) = m (cleanup_mode w.substate spec) w.state in
    (forget r, record { state = s; substate = after_mode r w.substate })
