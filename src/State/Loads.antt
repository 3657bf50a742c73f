-- ===== src/State/Loads.antt =====
-- Loading an account, and taking one for a write, are steps that a revert takes back.
use cfx_evm.Base.{
  ℕ, ◌≡◌, refl, sym, ap, ◌∙◌, Bool, true, false, List, [], Option, none, some, if◌then◌else◌, arith,
  lookup, insert, contains_key, HashMap,
}
use mathlib.Core.Path.{subst}
use cfx_evm.Primitives.{AddressWithSpace, address_eq, Keccak, CodeInfo}
use cfx_evm.StateDb.{Result, Result_map, ok, err, panic, Rlp, StateDb}
use cfx_evm.State.Account.{
  account_storage_at, OverlayAccount, AccountEntry, from_loaded, is_code_loaded, cache_code,
  is_dirty, new_clean,
}
use cfx_evm.State.Types.{RequireCache, nothing, code, Cache, State}
use cfx_evm.State.Load.{
  set_cache, insert_cache_if_fresh_account, needs_update, loaded_account, update_account_cache,
  store_loaded, store_loaded_code, load_required, answer_account, answer_slot, answer_at_once,
  ensure_slot, answer_from_cache, ensure_account_loaded,
}
use cfx_evm.State.Ops.{storage_account, storage_slot, read_storage, storage_at}
use cfx_evm.State.Reads.{
  IsCached, empty-IsCached, account_storage_at-IsCached, storage-code, account_storage_at-shape,
  storage-account_storage_at,
}
use cfx_evm.State.View.{effective_code, core, account_view, db_view, slot_view, IsHomed, IsGood}
use cfx_evm.State.Step.{Steps, IsUndoable, if-Steps, Step_refl, >>=-IsUndoable, set_slot-Step}

module _ ⦃k : Keccak⦄ ⦃rlp : Rlp⦄ where
  -- Loading the code of an account changes nothing that a caller can tell.
  cache_code-shape :
      (acc : OverlayAccount) (db : StateDb)
      → (cache_code acc db).1 ≡ record acc { code = (cache_code acc db).1.code }
  unfolding cache_code is_code_loaded
  cache_code-shape acc db = ground arith

  effective-cache_code :
      (acc : OverlayAccount) (db : StateDb)
      → effective_code db (cache_code acc db).1 ≡ effective_code db acc
  unfolding cache_code effective_code is_code_loaded
  effective-cache_code acc db = ground arith

  core-cache_code :
      (acc : OverlayAccount) (db : StateDb) → core db (cache_code acc db).1 ≡ core db acc
  unfolding effective_code
  core-cache_code acc db = ap (core db) (cache_code-shape acc db) ∙ same
    where
      c : Option CodeInfo
      c = (cache_code acc db).1.code

      code_same : effective_code db (record acc { code = c }) ≡ effective_code db acc
      code_same =
          sym (ap (effective_code db) (cache_code-shape acc db)) ∙ effective-cache_code acc db

      same : core db (record acc { code = c }) ≡ core db acc
      same i = record (core db acc) {
        code = code_same i;
        storage = λ key. storage-code db key c acc i;
      }

  pub core-update_account_cache :
      (require : RequireCache) (acc : OverlayAccount) (db : StateDb)
      → core db (update_account_cache require acc db).1 ≡ core db acc
  unfolding update_account_cache
  core-update_account_cache nothing acc db = refl
  core-update_account_cache code acc db = core-cache_code acc db

  pub update_account_cache-IsHomed :
      (require : RequireCache) (a : AddressWithSpace) (acc : OverlayAccount) (db : StateDb)
      → IsHomed db a (some acc)
      → IsHomed db a (some (update_account_cache require acc db).1)
  unfolding update_account_cache
  update_account_cache-IsHomed nothing a acc db h = h
  update_account_cache-IsHomed code a acc db h =
      subst (λ x. IsHomed db a (some x)) (sym (cache_code-shape acc db)) h

  -- An account that comes from the database has the address that was asked for.
  loaded-IsHomed :
      (a : AddressWithSpace) (db : StateDb) (o : Option OverlayAccount)
      → loaded_account a db ≡ ok o
      → IsHomed db a o
  unfolding loaded_account from_loaded
  loaded-IsHomed a db none h = tt
  loaded-IsHomed a db (some acc) h =
      (ground arith, subst (IsCached db a) (sym empty) (empty-IsCached db a))
    where
      empty : acc.storage_value_read_cache ≡ []
      empty = ground arith

  clean_entry-IsGood :
      (a : AddressWithSpace) (db : StateDb) (o : Option OverlayAccount)
      → IsHomed db a o
      → db_view db a ≡ ok (account_view db o)
      → IsGood db a (new_clean o)
  unfolding new_clean
  clean_entry-IsGood a db o h same = record { homed = h; clean = λ _. sym same }

  lookup_of_contains_key :
      (a : AddressWithSpace) (c : Cache) → contains_key a c ≡ false → lookup a c ≡ none
  unfolding contains_key
  lookup_of_contains_key a c h = ground arith

  -- A clean entry may be put where the cache had none.
  insert_fresh-Step :
      (s : State) (a : AddressWithSpace) (o : Option OverlayAccount)
      → IsHomed s.db a o
      → db_view s.db a ≡ ok (account_view s.db o)
      → Steps s (set_cache (insert_cache_if_fresh_account s.cache a o) s)
  unfolding insert_cache_if_fresh_account new_clean
  insert_fresh-Step s a o h same = go (contains_key a s.cache) refl
    where
      go :
          (b : Bool)
          → contains_key a s.cache ≡ b
          → Steps s (set_cache (if b then s.cache else insert a (new_clean o) s.cache) s)
      go true e = Step_refl s
      go false e =
          set_slot-Step s a (new_clean o) (clean_entry-IsGood a s.db o h same)
            (λ _ _. sym (ap (slot_view s.db a) (lookup_of_contains_key a s.cache e) ∙ same))

  store_loaded-IsUndoable :
      (a : AddressWithSpace) (require : RequireCache) (s : State)
      (r : Result (Option OverlayAccount))
      → loaded_account a s.db ≡ r
      → Steps s (store_loaded a require r s).1
  store_loaded-IsUndoable a require s (ok none) e =
      insert_fresh-Step s a none tt (ap (Result_map (account_view s.db)) e)
  store_loaded-IsUndoable a require s (ok (some acc)) e =
      go (update_account_cache require acc s.db) refl
    where
      go :
          (p : Result Bool × OverlayAccount)
          → update_account_cache require acc s.db ≡ p
          → Steps s (store_loaded_code a p s).1
      go (ok x, acc') q =
          insert_fresh-Step s a (some acc')
            (subst (λ (p : Result Bool × OverlayAccount). IsHomed s.db a (some p.1)) q
              (update_account_cache-IsHomed require a acc s.db
                (loaded-IsHomed a s.db (some acc) e)))
            (ap (Result_map (account_view s.db)) e
              ∙ ap (λ c. ok (some c))
                  (sym (core-update_account_cache require acc s.db) ∙ ap (λ p. core s.db p.1) q))
      go (err x, acc') q = Step_refl s
      go (panic, acc') q = Step_refl s
  store_loaded-IsUndoable a require s (err x) e = Step_refl s
  store_loaded-IsUndoable a require s panic e = Step_refl s

  pub load_required-IsUndoable :
      (a : AddressWithSpace) (require : RequireCache) → IsUndoable (load_required a require)
  unfolding load_required
  load_required-IsUndoable a require s =
      store_loaded-IsUndoable a require s (loaded_account a s.db) refl

  -- The account in a slot may be replaced by one that nobody can tell from it.
  pub same_core-Step :
      (s : State) (a : AddressWithSpace) (e : AccountEntry) (acc acc' : OverlayAccount)
      → lookup a s.cache ≡ some e
      → e.account ≡ some acc
      → core s.db acc' ≡ core s.db acc
      → (IsHomed s.db a (some acc) → IsHomed s.db a (some acc'))
      → Steps s (set_cache (insert a (record e { account = some acc' }) s.cache) s)
  unfolding is_dirty
  same_core-Step s a e acc acc' q r same keep h =
      set_slot-Step s a (record e { account = some acc' }) good
        (λ _ _. same_view ∙ sym (ap (slot_view s.db a) q)) h
    where
      same_view :
          slot_view s.db a (some (record e { account = some acc' })) ≡ slot_view s.db a (some e)
      same_view = ap (λ c. ok (some c)) same ∙ ap (λ o. ok (account_view s.db o)) (sym r)

      good : IsGood s.db a (record e { account = some acc' })
      good = record {
        homed = keep (subst (IsHomed s.db a) r ((h.slots a e q).homed));
        clean = λ c. same_view ∙ (h.slots a e q).clean c;
      }

  answer_from_cache-IsUndoable :
      {A : Type 0} (a : AddressWithSpace) (require : RequireCache) (f : Option OverlayAccount → A)
      → IsUndoable (answer_from_cache a require f)
  unfolding answer_from_cache
  answer_from_cache-IsUndoable a require f s = go (lookup a s.cache) refl
    where
      account :
          (e : AccountEntry) (o : Option OverlayAccount)
          → lookup a s.cache ≡ some e
          → e.account ≡ o
          → Steps s (answer_account a require f e o s).1
      account e none q r = Step_refl s
      account e (some acc) q r =
          same_core-Step s a e acc (update_account_cache require acc s.db).1 q r
            (core-update_account_cache require acc s.db)
            (update_account_cache-IsHomed require a acc s.db)

      go :
          (slot : Option AccountEntry)
          → lookup a s.cache ≡ slot
          → Steps s (answer_slot a require f slot s).1
      go none q = Step_refl s
      go (some e) q = account e e.account q refl

  -- Reading an account is undone by a revert.
  pub ensure_account_loaded-IsUndoable :
      {A : Type 0} (a : AddressWithSpace) (require : RequireCache) (f : Option OverlayAccount → A)
      → IsUndoable (ensure_account_loaded a require f)
  unfolding ensure_account_loaded
  ensure_account_loaded-IsUndoable a require f s = go (lookup a s.cache)
    where
      at_once : (o : Option OverlayAccount) → Steps s (answer_at_once a require f o s).1
      at_once none = Step_refl s
      at_once (some acc) =
          if-Steps s (needs_update require acc) (answer_from_cache a require f s)
            (ok (f (some acc)), s) (answer_from_cache-IsUndoable a require f s) (Step_refl s)

      go : (slot : Option AccountEntry) → Steps s (ensure_slot a require f slot s).1
      go none =
          >>=-IsUndoable (load_required a require) (λ _. answer_from_cache a require f)
            (load_required-IsUndoable a require) (λ _. answer_from_cache-IsUndoable a require f) s
      go (some e) = at_once e.account

  -- Nor does a read of the storage change anything but the read cache.
  core-account_storage_at :
      (db : StateDb) (key : List ℕ) (acc : OverlayAccount)
      → core db (account_storage_at db key acc).1 ≡ core db acc
  unfolding effective_code is_code_loaded
  core-account_storage_at db key acc = ap (core db) (account_storage_at-shape db key acc) ∙ same
    where
      read : HashMap (List ℕ) ℕ
      read = (account_storage_at db key acc).1.storage_value_read_cache

      again :
          (j : List ℕ)
          → (account_storage_at db j (record acc { storage_value_read_cache = read })).0
            ≡ (account_storage_at db j acc).0
      again j =
          sym (
            ap (λ (x : OverlayAccount). (account_storage_at db j x).0)
              (account_storage_at-shape db key acc))
          ∙ storage-account_storage_at db key j acc

      same : core db (record acc { storage_value_read_cache = read }) ≡ core db acc
      same i = record (core db acc) { storage = λ j. again j i }

  account_storage_at-IsHomed :
      (db : StateDb) (key : List ℕ) (a : AddressWithSpace) (acc : OverlayAccount)
      → IsHomed db a (some acc)
      → IsHomed db a (some (account_storage_at db key acc).1)
  account_storage_at-IsHomed db key a acc h = (
    ap (λ c. c.address) (core-account_storage_at db key acc) ∙ h.0,
    subst (λ b. IsCached db b (account_storage_at db key acc).1.storage_value_read_cache) h.0
        (account_storage_at-IsCached db key acc
          (subst (λ b. IsCached db b acc.storage_value_read_cache) (sym h.0) h.1)),
  )

  pub read_storage-IsUndoable :
      (a : AddressWithSpace) (key : List ℕ) → IsUndoable (read_storage a key)
  unfolding read_storage
  read_storage-IsUndoable a key s = go (lookup a s.cache) refl
    where
      account :
          (e : AccountEntry) (o : Option OverlayAccount)
          → lookup a s.cache ≡ some e
          → e.account ≡ o
          → Steps s (storage_account a key e o s).1
      account e none q r = Step_refl s
      account e (some acc) q r =
          same_core-Step s a e acc (account_storage_at s.db key acc).1 q r
            (core-account_storage_at s.db key acc) (account_storage_at-IsHomed s.db key a acc)

      go :
          (slot : Option AccountEntry)
          → lookup a s.cache ≡ slot
          → Steps s (storage_slot a key slot s).1
      go none q = Step_refl s
      go (some e) q = account e e.account q refl

  pub storage_at-IsUndoable : (a : AddressWithSpace) (key : List ℕ) → IsUndoable (storage_at a key)
  unfolding storage_at
  storage_at-IsUndoable a key =
      >>=-IsUndoable (ensure_account_loaded a nothing (λ _. tt)) (λ _. read_storage a key)
        (ensure_account_loaded-IsUndoable a nothing (λ _. tt)) (λ _. read_storage-IsUndoable a key)
