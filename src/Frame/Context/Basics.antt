-- ===== src/Frame/Context/Basics.antt =====
-- The context of a frame: its addresses, the last block and the logs (src/call_create_frame/context.rs),
-- and `contract_address` of frame.rs.
use cfx_evm.Base.{
  ℕ, ◌+◌, ◌^◌, ◌%◌, List, [], ◌∷◌, ◌++◌, Option, none, some, ltb, ◌==◌, if◌then◌else◌, lookup,
  nat_eq,
}
use cfx_evm.Primitives.{⊤, u256_mod, AddressWithSpace, address_eq, Keccak, CodeInfo, be_bytes}
use cfx_evm.Substate.{Substate, LogEntry}
use cfx_evm.Vm.{CreateContractAddress, from_sender_nonce, from_sender_salt_and_code_hash}
use cfx_evm.Evm.Error.{mutable_call_in_static_context}
use cfx_evm.Frame.World.{FrameContext, Act, pure, fail, crash, update}
use cfx_evm.Frame.Program.{Machine, InternalContract}

-- `origin.address.with_space(space)`
abbrev pub caller : FrameContext → AddressWithSpace
caller c = record { address = c.origin.address; space = c.space }

-- `with_space`
abbrev pub here : FrameContext → ℕ → AddressWithSpace
here c a = record { address = a; space = c.space }

abbrev pub code_bytes : Option CodeInfo → Option (List ℕ)
code_bytes none = none
code_bytes (some c) = some c.code

-- `self.is_static()` before a change.
abbrev pub unless_static : {A : Type 0} → FrameContext → Act A → Act A
unless_static c m = if c.static_flag then fail mutable_call_in_static_context else m

-- `U256::from(n) == number + 1`, whose sum panics if it leaves the type.
abbrev pub hash_if_last : ℕ → ℕ → ℕ → Act ℕ
hash_if_last n number hash =
    if ltb (number + 1) u256_mod then pure (if n == number + 1 then hash else 0) else crash

unfoldable pub blockhash : FrameContext → ℕ → Act ℕ
blockhash c number =
    if c.spec.cip98
    then hash_if_last c.env.epoch_height number c.env.last_hash
    else hash_if_last c.env.number number c.env.last_hash

abbrev pub append_log : LogEntry → Substate → Substate
append_log e s = record s { logs = s.logs ++ e ∷ [] }

unfoldable pub log : FrameContext → List ℕ → List ℕ → Act ⊤
log c topics bytes = unless_static c (
    update (
      append_log (record {
        address = c.origin.address;
        topics = topics;
        log_data = bytes;
        space = c.space;
      })))

module _ ⦃k : Keccak⦄ ⦃m : Machine⦄ where
  -- `Address::from(H256)` keeps the low 20 bytes.
  unfoldable pub contract_address :
      CreateContractAddress → AddressWithSpace → ℕ → List ℕ → AddressWithSpace × Option ℕ
  contract_address from_sender_nonce sender nonce bytes = (
    record {
      address = k.keccak (m.encode_sender_nonce sender.address nonce) % 2 ^ 160;
      space = sender.space;
    },
    some (k.keccak bytes),
  )
  contract_address (from_sender_salt_and_code_hash salt) sender nonce bytes = (
    record {
      address =
          k.keccak (
            0xff
            ∷ (be_bytes 20 sender.address ++ (be_bytes 32 salt ++ be_bytes 32 (k.keccak bytes))))
          % 2 ^ 160;
      space = sender.space;
    },
    some (k.keccak bytes),
  )

module _ ⦃m : Machine⦄ where
  -- `internal_contracts().contract(address, spec)`
  unfoldable pub active_contract : FrameContext → ℕ → Option InternalContract
  active_contract c a = elim (lookup a m.internal_contracts) [
    | none ↦ none
    | some contract ↦ if contract.is_active c.spec then some contract else none
  ]
