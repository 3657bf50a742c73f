-- ===== src/State/Frames/Calls.antt =====
-- Every operation of a frame is taken back by a revert.
use cfx_evm.Primitives.{Keccak, with_evm_space}
use cfx_evm.StateDb.{Rlp}
use cfx_evm.State.Types.{nothing, code, State}
use cfx_evm.State.Ops
use cfx_evm.State.Step.{Steps}
use cfx_evm.State.Loads.{storage_at-IsUndoable, ensure_account_loaded-IsUndoable}
use cfx_evm.State.Methods.{
  new_contract-IsUndoable, remove_contract-IsUndoable, init_account_code-IsUndoable,
  clean_account-IsUndoable, inc_nonce-IsUndoable, set_nonce-IsUndoable, sub_balance-IsUndoable,
  add_balance-IsUndoable, transfer_balance-IsUndoable, set_storage-IsUndoable,
  add_total_issued-IsUndoable, subtract_total_issued-IsUndoable,
}
use cfx_evm.State.Frames.{
  Call, perform, new_contract, init_account_code, inc_nonce, set_nonce, sub_balance, add_balance,
  transfer_balance, storage_at, set_storage, get_system_storage, set_system_storage,
  add_total_issued, subtract_total_issued, balance, is_contract_with_code, nonce, code_hash,
  account_code_size, account_code, clean_account, exists, exists_and_not_null, remove_contract,
}

module _ ⦃k : Keccak⦄ ⦃rlp : Rlp⦄ where
  -- An operation leaves a state that a revert takes back to where the operation started.
  pub perform-Steps : (c : Call) (s : State) → Steps s (perform c s)
  unfolding perform Ops.balance Ops.is_contract_with_code Ops.nonce Ops.code_hash
      Ops.account_code_size Ops.account_code Ops.exists Ops.exists_and_not_null
      Ops.get_system_storage Ops.set_system_storage
  perform-Steps (new_contract a b n l) s = new_contract-IsUndoable a b n l s
  perform-Steps (init_account_code a c) s = init_account_code-IsUndoable a c s
  perform-Steps (inc_nonce a n) s = inc_nonce-IsUndoable a n s
  perform-Steps (set_nonce a n) s = set_nonce-IsUndoable a n s
  perform-Steps (sub_balance a v m) s = sub_balance-IsUndoable a v m s
  perform-Steps (add_balance a v m n) s = add_balance-IsUndoable a v m n s
  perform-Steps (transfer_balance a b v m n) s = transfer_balance-IsUndoable a b v m n s
  perform-Steps (storage_at a k) s = storage_at-IsUndoable a k s
  perform-Steps (set_storage a k v) s = set_storage-IsUndoable a k v s
  perform-Steps (get_system_storage k) s =
      storage_at-IsUndoable (with_evm_space Ops.system_storage_address) k s
  perform-Steps (set_system_storage k v) s =
      set_storage-IsUndoable (with_evm_space Ops.system_storage_address) k v s
  perform-Steps (add_total_issued v) s = add_total_issued-IsUndoable v s
  perform-Steps (subtract_total_issued v) s = subtract_total_issued-IsUndoable v s
  perform-Steps (balance a) s = ensure_account_loaded-IsUndoable a nothing Ops.balance_or_zero s
  perform-Steps (is_contract_with_code a) s =
      ensure_account_loaded-IsUndoable a nothing Ops.has_code s
  perform-Steps (nonce a) s = ensure_account_loaded-IsUndoable a nothing Ops.nonce_or_zero s
  perform-Steps (code_hash a) s = ensure_account_loaded-IsUndoable a nothing Ops.code_hash_of s
  perform-Steps (account_code_size a) s = ensure_account_loaded-IsUndoable a code Ops.code_size_of s
  perform-Steps (account_code a) s = ensure_account_loaded-IsUndoable a code Ops.code_of s
  perform-Steps (clean_account a) s = clean_account-IsUndoable a s
  perform-Steps (exists a) s = ensure_account_loaded-IsUndoable a nothing Ops.is_some s
  perform-Steps (exists_and_not_null a) s =
      ensure_account_loaded-IsUndoable a nothing Ops.is_not_null s
  perform-Steps (remove_contract a) s = remove_contract-IsUndoable a s
