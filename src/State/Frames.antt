-- ===== src/State/Frames.antt =====
-- Runs of the state: operations, and frames that open a checkpoint and then keep it or revert to it.
-- The code is src/state/mod.rs, as the frames of src/evm drive it: one checkpoint for each frame.
use cfx_evm.Base.{ℕ, ◌≡◌, List, some}
use cfx_evm.Primitives.{AddressWithSpace, Keccak}
use cfx_evm.StateDb.{Rlp}
use cfx_evm.State.Account.{StorageLayout}
use cfx_evm.State.Types.{State}
use cfx_evm.State.Ops
use cfx_evm.State.Checkpoint.{checkpoint, discard_checkpoint, revert_to_checkpoint}
use cfx_evm.Base.{Option}
mod Slots
mod Calls
pub mod Close
mod Restore
pub mod Atomic

-- The operations of `StateOpsTrait`, with their arguments.
pub data Call : Type 0 where
  new_contract : AddressWithSpace → ℕ → ℕ → Option StorageLayout → Call
  balance is_contract_with_code nonce code_hash account_code_size account_code clean_account exists
        exists_and_not_null remove_contract :
      AddressWithSpace → Call
  init_account_code : AddressWithSpace → List ℕ → Call
  inc_nonce set_nonce : AddressWithSpace → ℕ → Call
  sub_balance : AddressWithSpace → ℕ → Ops.CleanupMode → Call
  add_balance : AddressWithSpace → ℕ → Ops.CleanupMode → ℕ → Call
  transfer_balance : AddressWithSpace → AddressWithSpace → ℕ → Ops.CleanupMode → ℕ → Call
  storage_at : AddressWithSpace → List ℕ → Call
  set_storage : AddressWithSpace → List ℕ → ℕ → Call
  get_system_storage : List ℕ → Call
  set_system_storage : List ℕ → ℕ → Call
  add_total_issued subtract_total_issued : ℕ → Call

module _ ⦃k : Keccak⦄ ⦃rlp : Rlp⦄ where
  -- The state that an operation leaves, also where it fails.
  unfoldable pub perform : Call → State → State
  perform (new_contract a b n l) s = (Ops.new_contract a b n l s).1
  perform (init_account_code a c) s = (Ops.init_account_code a c s).1
  perform (inc_nonce a n) s = (Ops.inc_nonce a n s).1
  perform (set_nonce a n) s = (Ops.set_nonce a n s).1
  perform (sub_balance a v m) s = (Ops.sub_balance a v m s).1
  perform (add_balance a v m n) s = (Ops.add_balance a v m n s).1
  perform (transfer_balance a b v m n) s = (Ops.transfer_balance a b v m n s).1
  perform (storage_at a k) s = (Ops.storage_at a k s).1
  perform (set_storage a k v) s = (Ops.set_storage a k v s).1
  perform (get_system_storage k) s = (Ops.get_system_storage k s).1
  perform (set_system_storage k v) s = (Ops.set_system_storage k v s).1
  perform (add_total_issued v) s = (Ops.add_total_issued v s).1
  perform (subtract_total_issued v) s = (Ops.subtract_total_issued v s).1
  perform (balance a) s = (Ops.balance a s).1
  perform (is_contract_with_code a) s = (Ops.is_contract_with_code a s).1
  perform (nonce a) s = (Ops.nonce a s).1
  perform (code_hash a) s = (Ops.code_hash a s).1
  perform (account_code_size a) s = (Ops.account_code_size a s).1
  perform (account_code a) s = (Ops.account_code a s).1
  perform (clean_account a) s = (Ops.clean_account a s).1
  perform (exists a) s = (Ops.exists a s).1
  perform (exists_and_not_null a) s = (Ops.exists_and_not_null a s).1
  perform (remove_contract a) s = (Ops.remove_contract a s).1

  -- What a frame may do to the state before it ends.
  pub data Runs : State → State → Type 0 where
    here : {s : State} → Runs s s
    call : {s t : State} → Runs s t → (c : Call) → Runs s (perform c t)
    kept : {s t u : State} → Runs s t → Runs (checkpoint t).1 u → Runs s (discard_checkpoint u)
    reverted :
        {s t u v : State}
        → Runs s t
        → Runs (checkpoint t).1 u
        → revert_to_checkpoint u ≡ some v
        → Runs s v
