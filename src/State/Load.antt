-- ===== src/State/Load.antt =====
-- How the state loads accounts from the database and hands them out: `ensure_account_loaded`,
-- `require_or_set` and their helpers in src/state/mod.rs. The locks are not modelled: one thread uses
-- a state at a time.
use cfx_evm.Base.{
  ℕ, Bool, true, false, not, List, [], ◌∷◌, Option, none, some, if◌then◌else◌, lookup, insert,
  or_insert, contains_key,
}
use cfx_evm.Primitives.{⊤, AddressWithSpace, address_eq, Keccak}
use cfx_evm.StateDb.{Result, ok, err, panic, incomplete_database, Rlp, StateDb, get_account}
use cfx_evm.State.Account.{
  OverlayAccount, AccountEntry, dirty, from_loaded, new_basic, is_code_loaded, cache_code, is_dirty,
  clone_dirty_entry, new_clean,
}
use cfx_evm.State.Types.{RequireCache, nothing, code, Cache, Saved, State}
use cfx_evm.State.Monad.{Action, ◌>>◌}

abbrev pub set_cache : Cache → State → State
set_cache c s = record s { cache = c }

-- `insert_cache_if_fresh_account`
unfoldable pub insert_cache_if_fresh_account :
    Cache → AddressWithSpace → Option OverlayAccount → Cache
unfolding contains_key new_clean
insert_cache_if_fresh_account cache a account =
    if contains_key a cache then cache else insert a (new_clean account) cache

-- The entry that a write replaces is kept in the last checkpoint, if that has none yet.
abbrev pub save : AddressWithSpace → Option AccountEntry → List Saved → List Saved
save a old [] = []
save a old (m ∷ ms) = or_insert a old m ∷ ms

unfoldable pub update_cache : AddressWithSpace → AccountEntry → State → State
unfolding is_dirty
update_cache a entry s = record s {
  cache = insert a entry s.cache;
  checkpoints = if is_dirty entry then save a (lookup a s.cache) s.checkpoints else s.checkpoints;
}

module _ ⦃k : Keccak⦄ where
  unfoldable pub needs_update : RequireCache → OverlayAccount → Bool
  unfolding is_code_loaded
  needs_update nothing acc = false
  needs_update code acc = not (is_code_loaded acc)

  -- `db.get_account(address)?.map(from_loaded)`
  unfoldable pub loaded_account :
      ⦃rlp : Rlp⦄ → AddressWithSpace → StateDb → Result (Option OverlayAccount)
  unfolding from_loaded
  loaded_account a db = elim (get_account a db) [
    | ok none ↦ ok none
    | ok (some account) ↦ ok (some (from_loaded a account))
    | err e ↦ err e
    | panic ↦ panic
  ]

module _ ⦃k : Keccak⦄ ⦃rlp : Rlp⦄ where
  unfoldable pub update_account_cache :
      RequireCache → OverlayAccount → StateDb → Result Bool × OverlayAccount
  unfolding cache_code
  update_account_cache nothing acc db = (ok true, acc)
  update_account_cache code acc db = cache_code acc db

  -- The entry of an account just loaded, after the attempt to load its code. That the code was not
  -- found is ignored here.
  abbrev pub store_loaded_code : AddressWithSpace → Result Bool × OverlayAccount → Action ⊤
  store_loaded_code a (ok _, acc) s =
      (ok tt, set_cache (insert_cache_if_fresh_account s.cache a (some acc)) s)
  store_loaded_code a (err e, acc) s = (err e, s)
  store_loaded_code a (panic, acc) s = (panic, s)

  abbrev pub store_loaded :
      AddressWithSpace → RequireCache → Result (Option OverlayAccount) → Action ⊤
  store_loaded a require (ok none) s =
      (ok tt, set_cache (insert_cache_if_fresh_account s.cache a none) s)
  store_loaded a require (ok (some acc)) s =
      store_loaded_code a (update_account_cache require acc s.db) s
  store_loaded a require (err e) s = (err e, s)
  store_loaded a require panic s = (panic, s)

  -- What `ensure_account_loaded` does with an address that the cache does not hold.
  unfoldable pub load_required : AddressWithSpace → RequireCache → Action ⊤
  unfolding insert_cache_if_fresh_account
  load_required a require s = store_loaded a require (loaded_account a s.db) s

  -- What follows an attempt to load the code of an account.
  abbrev pub code_found : {A : Type 0} → AddressWithSpace → A → Result Bool → Result A
  code_found a x (ok true) = ok x
  code_found a x (ok false) = err (incomplete_database a.address)
  code_found a x (err e) = err e
  code_found a x panic = panic

  -- The end of `ensure_account_loaded`, on the entry of an address.
  abbrev pub answer_account :
      {A : Type 0}
      → AddressWithSpace
      → RequireCache
      → (Option OverlayAccount → A)
      → AccountEntry
      → Option OverlayAccount
      → Action A
  answer_account a require f e none s = (ok (f none), s)
  answer_account a require f e (some acc) s =
      let (r, acc') = update_account_cache require acc s.db in
      (
        code_found a (f (some acc')) r,
        set_cache (insert a (record e { account = some acc' }) s.cache) s,
      )

  abbrev pub answer_slot :
      {A : Type 0}
      → AddressWithSpace
      → RequireCache
      → (Option OverlayAccount → A)
      → Option AccountEntry
      → Action A
  answer_slot a require f none s = (panic, s)
  answer_slot a require f (some e) s = answer_account a require f e e.account s

  unfoldable pub answer_from_cache :
      {A : Type 0} → AddressWithSpace → RequireCache → (Option OverlayAccount → A) → Action A
  answer_from_cache a require f s = answer_slot a require f (lookup a s.cache) s

  -- "Return immediately when there is no need to have db operation."
  abbrev pub answer_at_once :
      {A : Type 0}
      → AddressWithSpace
      → RequireCache
      → (Option OverlayAccount → A)
      → Option OverlayAccount
      → Action A
  answer_at_once a require f none s = (ok (f none), s)
  answer_at_once a require f (some acc) s =
      if needs_update require acc then answer_from_cache a require f s else (ok (f (some acc)), s)

  abbrev pub ensure_slot :
      {A : Type 0}
      → AddressWithSpace
      → RequireCache
      → (Option OverlayAccount → A)
      → Option AccountEntry
      → Action A
  ensure_slot a require f none = load_required a require >> answer_from_cache a require f
  ensure_slot a require f (some e) = answer_at_once a require f e.account

  unfoldable pub ensure_account_loaded :
      {A : Type 0} → AddressWithSpace → RequireCache → (Option OverlayAccount → A) → Action A
  unfolding needs_update load_required answer_from_cache
  ensure_account_loaded a require f s = ensure_slot a require f (lookup a s.cache) s

  -- The first part of `require_or_set`.
  unfoldable pub load_account : AddressWithSpace → Action ⊤
  unfolding contains_key load_required
  load_account a s = if contains_key a s.cache then (ok tt, s) else load_required a nothing s

  -- "Save the value before modification into the checkpoint."
  unfoldable pub save_to_checkpoint : AddressWithSpace → State → State
  unfolding clone_dirty_entry
  save_to_checkpoint a s = record s {
    checkpoints =
        save a (elim (lookup a s.cache) [ none ↦ none | some e ↦ some (clone_dirty_entry e) ])
          s.checkpoints;
  }

  abbrev pub account_or : Result OverlayAccount → Option OverlayAccount → Result OverlayAccount
  account_or default none = default
  account_or default (some acc) = ok acc

  -- The account of a dirty entry is stored, with its code if that is asked for.
  abbrev pub store_required :
      AddressWithSpace → Bool → AccountEntry → OverlayAccount → Action OverlayAccount
  store_required a require_code e acc s =
      let (r, acc') = update_account_cache (if require_code then code else nothing) acc s.db in
      (
        code_found a acc' r,
        set_cache (insert a (record e { state = dirty; account = some acc' }) s.cache) s,
      )

  abbrev pub fill_entry :
      AddressWithSpace → Bool → AccountEntry → Result OverlayAccount → Action OverlayAccount
  fill_entry a require_code e (ok acc) s = store_required a require_code e acc s
  fill_entry a require_code e (err x) s =
      (err x, set_cache (insert a (record e { state = dirty }) s.cache) s)
  fill_entry a require_code e panic s = (panic, s)

  -- The rest of `require_or_set`: the entry becomes dirty, and gets the default account if it has
  -- none.
  abbrev pub take_slot :
      AddressWithSpace → Bool → Result OverlayAccount → Option AccountEntry → Action OverlayAccount
  take_slot a require_code default none s = (panic, s)
  take_slot a require_code default (some e) s =
      fill_entry a require_code e (account_or default e.account) s

  unfoldable pub take_entry :
      AddressWithSpace → Bool → Result OverlayAccount → Action OverlayAccount
  take_entry a require_code default s = take_slot a require_code default (lookup a s.cache) s

  unfoldable pub require_or_set :
      AddressWithSpace → Bool → Result OverlayAccount → Action OverlayAccount
  unfolding load_account save_to_checkpoint take_entry
  require_or_set a require_code default =
      load_account a >> λ s. take_entry a require_code default (save_to_checkpoint a s)

  unfoldable pub require_exists : AddressWithSpace → Bool → Action OverlayAccount
  unfolding require_or_set
  require_exists a require_code =
      require_or_set a require_code (err (incomplete_database a.address))

  unfoldable pub require_or_new_basic_account : AddressWithSpace → ℕ → Action OverlayAccount
  unfolding require_or_set new_basic
  require_or_new_basic_account a start_nonce =
      require_or_set a false (ok (new_basic a 0 start_nonce))

abbrev pub put_slot : AddressWithSpace → OverlayAccount → Option AccountEntry → Action ⊤
put_slot a acc none s = (panic, s)
put_slot a acc (some e) s =
    (ok tt, set_cache (insert a (record e { account = some acc }) s.cache) s)

-- What a caller writes through the guard that `require_or_set` returns.
unfoldable pub put_account : AddressWithSpace → OverlayAccount → Action ⊤
put_account a acc s = put_slot a acc (lookup a s.cache) s
