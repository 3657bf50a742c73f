-- ===== src/State/Commit.antt =====
-- The commit of the state: `commit`, `recycle_storage` and `commit_world_statistics` of
-- src/state/mod.rs, `OverlayAccount::commit` of src/state/account_entry.rs and `commit` of
-- backend/statedb/src/impls.rs and backend/storage/src/in_memory.rs. The debug records are left
-- out, and so is the assertion that no clone of an account shares its pending changes.
pub mod Puts
pub mod Stored
pub mod Sorted
pub mod Entries
pub mod Killed
pub mod Database
pub mod Reads
pub mod Tests
use cfx_evm.Base.{
  ℕ, ltb, Bool, true, false, List, [], ◌∷◌, ◌++◌, Option, none, some, ◌==◌, ◌||◌, not,
  if◌then◌else◌, HashMap,
}
use cfx_evm.Primitives.{⊤, AddressWithSpace, CodeInfo, Keccak}
use cfx_evm.Primitives.Keys.{account_key, storage_key}
use cfx_evm.StateDb.{
  Result, ok, err, panic, Rlp, StateDb, delete, set_storage_value, set_code, set_account,
  set_total_issued_tokens,
}
use cfx_evm.State.Account.{AccountEntry, OverlayAccount, as_account, removed_without_update}
use cfx_evm.State.Types.{State, Cache, Notice, updated, deleted}
use cfx_evm.State.Monad.{Action, ◌>>=◌, ◌>>◌, pure, modify}

-- What a write of the database returns, and the state with the database that it leaves.
abbrev pub written_db : Result StateDb → State → Result ⊤ × State
written_db (ok db) s = (ok tt, record s { db = db })
written_db (err e) s = (err e, s)
written_db panic s = (panic, s)

abbrev pub on_db : (StateDb → Result StateDb) → Action ⊤
on_db f s = written_db (f s.db) s

-- Only the account is deleted: the deletions of the storage and of the code are commented out.
unfoldable pub recycle_storage : List AddressWithSpace → Action ⊤
unfolding delete
recycle_storage [] = pure tt
recycle_storage (a ∷ killed) = on_db (delete (account_key a)) >> recycle_storage killed

module _ ⦃k : Keccak⦄ ⦃rlp : Rlp⦄ where
  abbrev pub commit_slot : AddressWithSpace → List ℕ → ℕ → StateDb → Result StateDb
  commit_slot a key v db =
      if v == 0 then delete (storage_key a key) db else set_storage_value a key v db

  unfoldable pub commit_storage : AddressWithSpace → HashMap (List ℕ) ℕ → Action ⊤
  unfolding delete set_storage_value
  commit_storage a [] = pure tt
  commit_storage a ((key, v) ∷ m) = on_db (commit_slot a key v) >> commit_storage a m

  abbrev pub commit_code : AddressWithSpace → Option CodeInfo → Action ⊤
  commit_code a none = pure tt
  commit_code a (some c) = on_db (set_code a c)

  -- `OverlayAccount::commit`
  unfoldable pub commit_account : AddressWithSpace → OverlayAccount → Action ⊤
  unfolding recycle_storage commit_storage set_code set_account as_account
  commit_account a acc =
      (if acc.invalidated_storage then recycle_storage (acc.address ∷ []) else pure tt)
      >> commit_storage acc.address acc.storage_value_write_cache
      >> commit_code acc.address acc.code
      >> on_db (set_account a (as_account acc))

  abbrev pub notify : Notice → Action ⊤
  notify n = modify (λ s. record s { accounts_to_notify = s.accounts_to_notify ++ n ∷ [] })

  -- An entry of the drained cache; the addresses of the killed accounts are collected.
  abbrev pub commit_present :
      AddressWithSpace
      → OverlayAccount
      → Bool
      → List AddressWithSpace
      → Action (List AddressWithSpace)
  commit_present a acc true killed = notify (deleted a) >> pure (killed ++ a ∷ [])
  commit_present a acc false killed =
      commit_account a acc >> notify (updated (as_account acc)) >> pure killed

  abbrev pub commit_entry :
      AddressWithSpace
      → Option OverlayAccount
      → List AddressWithSpace
      → Action (List AddressWithSpace)
  commit_entry a none killed = pure killed
  commit_entry a (some acc) killed = commit_present a acc (removed_without_update acc) killed

  unfoldable pub commit_entries : Cache → List AddressWithSpace → Action (List AddressWithSpace)
  unfolding commit_account removed_without_update
  commit_entries [] killed = pure killed
  commit_entries ((a, e) ∷ m) killed =
      commit_entry a e.account killed >>= λ killed'. commit_entries m killed'

-- `sort_by(|a, b| a.0.cmp(&b.0))`: there is one space, so the addresses decide.
unfoldable pub insert_sorted : AddressWithSpace → AccountEntry → Cache → Cache
insert_sorted a e [] = (a, e) ∷ []
insert_sorted a e ((b, f) ∷ m) =
    let rest = insert_sorted a e m in
    if ltb b.address a.address then (b, f) ∷ rest else (a, e) ∷ (b, f) ∷ m

unfoldable pub sort_entries : Cache → Cache
unfolding insert_sorted
sort_entries [] = []
sort_entries ((a, e) ∷ m) = insert_sorted a e (sort_entries m)

abbrev pub is_empty {ℓ} : {A : Type ℓ} → List A → Bool
is_empty [] = true
is_empty (x ∷ xs) = false

module _ ⦃k : Keccak⦄ ⦃rlp : Rlp⦄ where
  unfoldable pub commit_world_statistics : Action ⊤
  unfolding set_total_issued_tokens
  commit_world_statistics s =
      on_db (set_total_issued_tokens s.world_statistics.total_issued_tokens) s

  abbrev pub commit_drained : Cache → Action ⊤
  commit_drained m = commit_entries (sort_entries m) [] >>= λ killed.
      recycle_storage killed >> commit_world_statistics

  -- The storage in memory has nothing to do for an epoch.
  unfoldable pub commit : Action ⊤
  unfolding sort_entries commit_entries recycle_storage commit_world_statistics
  commit s =
      if not (is_empty s.checkpoints) || not (is_empty s.world_statistics_checkpoints)
      then (panic, s)
      else commit_drained s.cache (record s { cache = [] })
