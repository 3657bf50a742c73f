-- ===== src/State/Commit/Stored.antt =====
-- What `commit` does to a state, without the monad: the database, the notices and the killed
-- accounts as functions of the cache.
use cfx_evm.Base.{
  ℕ, ◌≡◌, refl, sym, ap, ◌∙◌, Bool, true, false, List, [], ◌∷◌, ◌++◌, Option, none, some,
  if◌then◌else◌, HashMap, drain_into, lookup, Unique, bytes_eq,
}
use mathlib.Core.Path.{subst}
use mathlib.Core.List.{append-nil, append_assoc}
use cfx_evm.Primitives.{AddressWithSpace, address_eq, CodeInfo, Keccak}
use cfx_evm.Primitives.Keys.{account_key, storage_key, IsH160}
use cfx_evm.StateDb.{Result, ok, Rlp, StateDb, delete, set_code, set_account}
use cfx_evm.State.{
  State, Cache, Notice, updated, deleted, OverlayAccount, as_account, removed_without_update,
  commit_storage, commit_code, commit_account, commit_entry, commit_present, commit_entries,
  recycle_storage, written_db, on_db, continue, pure, notify,
}
use cfx_evm.State.Commit.Puts.{
  put, slot_value, account_value, commit_slot-put, set-put, store_slots, store_code, store_account,
  forget,
}

unfoldable pub recycled : List AddressWithSpace → StateDb → StateDb
recycled [] db = db
recycled (a ∷ killed) db = recycled killed (put (account_key a) none db)

pub recycle_storage-eq :
    (killed : List AddressWithSpace) (s : State)
    → recycle_storage killed s ≡ (ok tt, record s { db = recycled killed s.db })
unfolding recycle_storage recycled delete
recycle_storage-eq [] s = refl
recycle_storage-eq (a ∷ killed) s =
    recycle_storage-eq killed (record s { db = put (account_key a) none s.db })

module _ ⦃k : Keccak⦄ ⦃rlp : Rlp⦄ where
  commit_storage-eq :
      (a : AddressWithSpace) (m : HashMap (List ℕ) ℕ) (s : State)
      → commit_storage a m s ≡ (ok tt, record s { db = store_slots a m s.db })
  unfolding commit_storage store_slots drain_into
  commit_storage-eq a [] s = refl
  commit_storage-eq a ((key, v) ∷ m) s =
      ap (λ r. continue (λ _. commit_storage a m) (written_db r s)) (commit_slot-put a key v s.db)
      ∙ commit_storage-eq a m (record s { db = put (storage_key a key) (slot_value v) s.db })

  commit_code-eq :
      (a : AddressWithSpace) (c : Option CodeInfo) (s : State)
      → commit_code a c s ≡ (ok tt, record s { db = store_code a c s.db })
  unfolding set_code
  commit_code-eq a none s = refl
  commit_code-eq a (some c) s = ap (λ r. written_db r s) (set-put _ _ _ s.db)

  forget-eq :
      (a : AddressWithSpace) (b : Bool) (s : State)
      → (if b then recycle_storage (a ∷ []) else pure tt) s
        ≡ (ok tt, record s { db = forget a b s.db })
  unfolding recycled
  forget-eq a true s = recycle_storage-eq (a ∷ []) s
  forget-eq a false s = refl

  set_account-eq :
      (a : AddressWithSpace) (acc : OverlayAccount) (s : State)
      → on_db (set_account a (as_account acc)) s
        ≡ (ok tt, record s { db = put (account_key a) (account_value acc) s.db })
  unfolding set_account
  set_account-eq a acc s = ap (λ r. written_db r s) (set-put _ _ _ s.db)

  commit_own-eq :
      (acc : OverlayAccount) (s : State)
      → commit_account acc.address acc s
        ≡ (ok tt, record s { db = store_account acc.address acc s.db })
  unfolding commit_account store_account set_account
  commit_own-eq acc s =
      ap
        (λ r.
          continue (λ _. on_db (set_account acc.address (as_account acc)))
            (continue (λ _. commit_code acc.address acc.code)
              (continue (λ _. commit_storage acc.address acc.storage_value_write_cache) r)))
        (forget-eq acc.address acc.invalidated_storage s)
      ∙ ap
          (λ r.
            continue (λ _. on_db (set_account acc.address (as_account acc)))
              (continue (λ _. commit_code acc.address acc.code) r))
          (commit_storage-eq acc.address acc.storage_value_write_cache _)
      ∙ ap (continue (λ _. on_db (set_account acc.address (as_account acc))))
          (commit_code-eq acc.address acc.code _)
      ∙ set_account-eq acc.address acc _

  -- An account in the slot of its own address.
  abbrev pub IsOwn : AddressWithSpace → Option OverlayAccount → Type 0
  IsOwn a none = IsH160 a
  IsOwn a (some acc) = IsH160 a × (acc.address ≡ a) × Unique acc.storage_value_write_cache

  pub commit_account-eq :
      (a : AddressWithSpace) (acc : OverlayAccount) (s : State)
      → acc.address ≡ a
      → commit_account a acc s ≡ (ok tt, record s { db = store_account a acc s.db })
  commit_account-eq a acc s h =
      subst (λ b. commit_account b acc s ≡ (ok tt, record s { db = store_account b acc s.db })) h
        (commit_own-eq acc s)

  abbrev pub store_entry : AddressWithSpace → Option OverlayAccount → StateDb → StateDb
  store_entry a none db = db
  store_entry a (some acc) db = if removed_without_update acc then db else store_account a acc db

  unfoldable pub store_entries : Cache → StateDb → StateDb
  store_entries [] db = db
  store_entries ((a, e) ∷ m) db = store_entries m (store_entry a e.account db)

  abbrev pub is_killed : Option OverlayAccount → Bool
  is_killed none = false
  is_killed (some acc) = removed_without_update acc

  unfoldable pub killed_of : Cache → List AddressWithSpace
  killed_of [] = []
  killed_of ((a, e) ∷ m) = let rest = killed_of m in if is_killed e.account then a ∷ rest else rest

  abbrev pub notices_of_entry : AddressWithSpace → Option OverlayAccount → List Notice
  notices_of_entry a none = []
  notices_of_entry a (some acc) =
      (if removed_without_update acc then deleted a else updated (as_account acc)) ∷ []

  unfoldable pub notices_of : Cache → List Notice
  notices_of [] = []
  notices_of ((a, e) ∷ m) = notices_of_entry a e.account ++ notices_of m

  -- Every key of the cache stands once, fits in twenty bytes and holds its own account.
  abbrev pub IsCommittable : Cache → Type 0
  IsCommittable [] = Unit
  IsCommittable ((a, e) ∷ m) = (lookup a m ≡ none) × IsOwn a e.account × IsCommittable m

  abbrev committed_entry : AddressWithSpace → Option OverlayAccount → State → State
  committed_entry a o s = record s {
    db = store_entry a o s.db;
    accounts_to_notify = s.accounts_to_notify ++ notices_of_entry a o;
  }

  with_notices :
      (killed killed' : List AddressWithSpace) (db : StateDb) (ns ns' : List Notice) (s : State)
      → killed ≡ killed'
      → ns ≡ ns'
      → ◌≡◌ {A = Result (List AddressWithSpace) × State}
          (ok killed, record s { db = db; accounts_to_notify = ns })
          (ok killed', record s { db = db; accounts_to_notify = ns' })
  with_notices killed killed' db ns ns' s h g = cc

  commit_entry-eq :
      (a : AddressWithSpace) (o : Option OverlayAccount) (killed : List AddressWithSpace)
      (s : State)
      → IsOwn a o
      → commit_entry a o killed s
        ≡ (ok (if is_killed o then killed ++ a ∷ [] else killed), committed_entry a o s)
  commit_entry-eq a none killed s h =
      with_notices killed killed s.db _ _ s refl (sym (append-nil s.accounts_to_notify))
  commit_entry-eq a (some acc) killed s h =
      elim (removed_without_update acc)
        as (λ b. commit_present a acc b killed s ≡ (
          ok (if b then killed ++ a ∷ [] else killed),
          record s {
            db = if b then s.db else store_account a acc s.db;
            accounts_to_notify =
                s.accounts_to_notify ++ (if b then deleted a else updated (as_account acc)) ∷ [];
          },
        )) [
          | true ↦ refl
          | false ↦
              ap
                (λ r.
                  continue (λ _. pure killed) (continue (λ _. notify (updated (as_account acc))) r))
                (commit_account-eq a acc s h.1)
        ]

  pub commit_entries-eq :
      (m : Cache) (killed : List AddressWithSpace) (s : State)
      → IsCommittable m
      → commit_entries m killed s ≡ (
        ok (killed ++ killed_of m),
        record s {
          db = store_entries m s.db;
          accounts_to_notify = s.accounts_to_notify ++ notices_of m;
        },
      )
  unfolding commit_entries killed_of notices_of store_entries
  commit_entries-eq [] killed s h =
      with_notices _ _ s.db _ _ s (sym (append-nil killed)) (sym (append-nil s.accounts_to_notify))
  commit_entries-eq ((a, e) ∷ m) killed s h =
      ap (continue (commit_entries m)) (commit_entry-eq a e.account killed s h.1)
      ∙ commit_entries-eq m _ (committed_entry a e.account s) h.2
      ∙ with_notices _ _ _ _ _ s (killed_cons (is_killed e.account))
          (append_assoc s.accounts_to_notify (notices_of_entry a e.account) (notices_of m))
    where
      killed_cons :
          (b : Bool)
          → (if b then killed ++ a ∷ [] else killed) ++ killed_of m
            ≡ killed ++ (if b then a ∷ killed_of m else killed_of m)
      killed_cons true = append_assoc killed (a ∷ []) (killed_of m)
      killed_cons false = refl
