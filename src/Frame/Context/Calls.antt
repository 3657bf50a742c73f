-- ===== src/Frame/Context/Calls.antt =====
-- The context of a frame: creations, calls and the code of accounts (src/call_create_frame/context.rs).
use cfx_evm.Base.{
  ℕ, ◌-◌, ◌^◌, not, ◌&&◌, ◌||◌, List, Option, none, some, ◌==◌, if◌then◌else◌, length, nat_eq,
}
use cfx_evm.Primitives.{⊤, address_eq, Keccak}
use cfx_evm.StateDb.{Rlp}
use cfx_evm.State
use cfx_evm.State.{set_insert}
use cfx_evm.Vm.{
  ActionParams, ReturnData, GasLeft, FinalizationResult, CallType, CreateContractAddress, TrapKind,
  from_sender_nonce, from_sender_salt_and_code_hash, transfer, apparent, not_call, not_create,
  embedded, separate, from_address_scheme, known, needs_return, returned_bytes, empty_return_data,
}
use cfx_evm.Vm
use cfx_evm.Frame.World.{FrameContext, Act, ◌>>=◌, ◌>>◌, pure, of_state}
use cfx_evm.Frame.Program.{Machine, InternalContract}
use cfx_evm.Frame.Context.Basics.{caller, here, code_bytes, contract_address, active_contract}

-- `UNSIGNED_SENDER`
abbrev pub unsigned_sender : ℕ
unsigned_sender = 2 ^ 160 - 1

module _ ⦃k : Keccak⦄ ⦃rlp : Rlp⦄ ⦃m : Machine⦄ where
  abbrev pub created_params :
      FrameContext → ℕ → ℕ → List ℕ → CreateContractAddress → ℕ × Option ℕ → ActionParams
  created_params c gas value bytes scheme to = record {
    space = c.space;
    code_address = to.0;
    code_hash = to.1;
    address = to.0;
    sender = c.origin.address;
    original_sender = c.origin.original_sender;
    gas = gas;
    gas_price = c.origin.gas_price;
    value = transfer value;
    code = some bytes;
    input = none;
    call_type = not_call;
    create_type = from_address_scheme scheme;
    params_type = embedded;
  }

  -- The nonce of the creator goes up, except in a static context and for the unsigned sender.
  abbrev pub spend_nonce : FrameContext → Act ⊤
  spend_nonce c =
      if not c.static_flag
        && (not c.spec.keep_unsigned_nonce || not (c.origin.address == unsigned_sender))
      then of_state (State.inc_nonce (caller c) c.spec.contract_start_nonce)
      else pure tt

  unfoldable pub create : FrameContext → ℕ → ℕ → List ℕ → CreateContractAddress → Act TrapKind
  unfolding contract_address
  create c gas value bytes scheme = do
    nonce ← of_state (State.nonce (caller c))
    let to = contract_address scheme (caller c) nonce bytes
    spend_nonce c
    pure (Vm.TrapKind.create (created_params c gas value bytes scheme (to.0.address, to.1)))

  abbrev value_for : FrameContext → Option ℕ → Vm.ActionValue
  value_for c none = apparent c.origin.value
  value_for c (some v) = transfer v

  -- The code of an internal contract, or the code and its hash in the state.
  abbrev pub code_at : FrameContext → ℕ → Option InternalContract → Act (Option (List ℕ) × Option ℕ)
  code_at c a (some contract) = pure (some contract.code, some contract.code_hash)
  code_at c a none = do
    found ← of_state (State.account_code (here c a))
    hash ← of_state (State.code_hash (here c a))
    pure (code_bytes found, hash)

  unfoldable pub call : FrameContext → ℕ → ℕ → ℕ → Option ℕ → List ℕ → ℕ → CallType → Act TrapKind
  unfolding active_contract
  call c gas sender receive value bytes code_address call_type = do
    found ← code_at c code_address (active_contract c code_address)
    pure (
        Vm.TrapKind.call (record {
          space = c.space;
          sender = sender;
          address = receive;
          value = value_for c value;
          code_address = code_address;
          original_sender = c.origin.original_sender;
          gas = gas;
          gas_price = c.origin.gas_price;
          code = found.0;
          code_hash = found.1;
          input = some bytes;
          call_type = call_type;
          create_type = not_create;
          params_type = separate;
        }))

  -- The answer of an internal contract, or that of the state.
  abbrev pub contract_or :
      {A : Type 0} → Option InternalContract → (InternalContract → A) → Act A → Act A
  contract_or (some contract) f other = pure (f contract)
  contract_or none f other = other

  unfoldable pub extcode : FrameContext → ℕ → Act (Option (List ℕ))
  unfolding active_contract
  extcode c a =
      contract_or (active_contract c a) (λ contract. some contract.code)
        (do found ← of_state (State.account_code (here c a)); pure (code_bytes found))

  unfoldable pub extcodehash : FrameContext → ℕ → Act (Option ℕ)
  unfolding active_contract
  extcodehash c a =
      contract_or (active_contract c a) (λ contract. some contract.code_hash)
        (of_state (State.code_hash (here c a)))

  unfoldable pub extcodesize : FrameContext → ℕ → Act (Option ℕ)
  unfolding active_contract
  extcodesize c a =
      contract_or (active_contract c a) (λ contract. some (length contract.code))
        (of_state (State.account_code_size (here c a)))
