-- ===== src/State/Seen.antt =====
-- What `storage_at` of src/state/mod.rs returns is the storage of the account that the view gives.
use cfx_evm.Base.{
  ℕ, ◌≡◌, refl, ap, ◌∙◌, false, List, Option, none, some, arith, if◌then◌else◌, lookup, insert,
  contains_key, lookup-insert_self,
}
use cfx_evm.Primitives.{AddressWithSpace, address_eq, Keccak}
use cfx_evm.StateDb.{Result, Result_map, ok, err, panic, Rlp, StateDb}
use cfx_evm.State.Account.{OverlayAccount, AccountEntry, new_clean}
use cfx_evm.State.Types.{nothing, State, Cache}
use cfx_evm.State.Monad.{continue}
use cfx_evm.State.Load.{
  set_cache, insert_cache_if_fresh_account, ensure_account_loaded, ensure_slot, answer_at_once,
  answer_from_cache, answer_account, answer_slot, load_required, loaded_account, store_loaded,
  update_account_cache,
}
use cfx_evm.State.Ops.{storage_at, read_storage, storage_slot, storage_account}
use cfx_evm.State.View.{Core, account_view, slot_view, view}

-- The value of a slot in the account that was found, or the error.
abbrev pub storage_of : List ℕ → Result (Option Core) → Result ℕ
storage_of key (ok none) = ok 0
storage_of key (ok (some c)) = c.storage key
storage_of key (err e) = err e
storage_of key panic = panic

module _ ⦃k : Keccak⦄ ⦃rlp : Rlp⦄ (a : AddressWithSpace) (key : List ℕ) where
  abbrev seen : StateDb → Option OverlayAccount → Result ℕ
  seen db o = storage_of key (ok (account_view db o))

  read_present :
      (t : State) (e : AccountEntry)
      → lookup a t.cache ≡ some e
      → (read_storage a key t).0 ≡ seen t.db e.account
  unfolding read_storage
  read_present t e h = ap (λ slot. (storage_slot a key slot t).0) h ∙ account e.account
    where
      account : (o : Option OverlayAccount) → (storage_account a key e o t).0 ≡ seen t.db o
      account none = refl
      account (some acc) = refl

  answered :
      (t : State) (e : AccountEntry)
      → lookup a t.cache ≡ some e
      → (continue (λ _. read_storage a key) (answer_from_cache a nothing (λ _. tt) t)).0
        ≡ seen t.db e.account
  unfolding answer_from_cache update_account_cache
  answered t e h =
      ap (λ slot. (continue (λ _. read_storage a key) (answer_slot a nothing (λ _. tt) slot t)).0) h
      ∙ account e.account refl
    where
      account :
          (o : Option OverlayAccount)
          → e.account ≡ o
          → (continue (λ _. read_storage a key) (answer_account a nothing (λ _. tt) e o t)).0
            ≡ seen t.db o
      account none q = read_present t e h ∙ ap (seen t.db) q
      account (some acc) q =
          read_present (set_cache (insert a (record e { account = some acc }) t.cache) t)
            (record e { account = some acc })
            (lookup-insert_self a (record e { account = some acc }) t.cache)

  fresh_entry :
      (c : Cache) (o : Option OverlayAccount)
      → lookup a c ≡ none
      → lookup a (insert_cache_if_fresh_account c a o) ≡ some (new_clean o)
  unfolding insert_cache_if_fresh_account contains_key
  fresh_entry c o h =
      ap (λ b. lookup a (if b then c else insert a (new_clean o) c)) missing
      ∙ lookup-insert_self a (new_clean o) c
    where
      missing : contains_key a c ≡ false
      missing = ground (arith, h)

  loaded_seen :
      (s : State)
      → lookup a s.cache ≡ none
      → (r : Result (Option OverlayAccount))
      → (continue
          (λ _. read_storage a key)
          (continue (λ _. answer_from_cache a nothing (λ _. tt)) (store_loaded a nothing r s))).0
        ≡ storage_of key (Result_map (account_view s.db) r)
  unfolding update_account_cache new_clean
  loaded_seen s h (ok none) =
      answered (set_cache (insert_cache_if_fresh_account s.cache a none) s) (new_clean none)
        (fresh_entry s.cache none h)
  loaded_seen s h (ok (some acc)) =
      answered (set_cache (insert_cache_if_fresh_account s.cache a (some acc)) s)
        (new_clean (some acc)) (fresh_entry s.cache (some acc) h)
  loaded_seen s h (err e) = refl
  loaded_seen s h panic = refl

  -- What `storage_at` returns for a slot, also where it fails, is decided by the view of the address:
  -- it is the storage of the account there, zero if there is no account, and the same error if the
  -- account cannot be loaded.
  pub storage_at-view : (s : State) → (storage_at a key s).0 ≡ storage_of key (view s a)
  unfolding storage_at ensure_account_loaded load_required
  storage_at-view s = go (lookup a s.cache) refl
    where
      at_once :
          (e : AccountEntry)
          → lookup a s.cache ≡ some e
          → (o : Option OverlayAccount)
          → (continue (λ _. read_storage a key) (answer_at_once a nothing (λ _. tt) o s)).0
            ≡ seen s.db e.account
      at_once e q none = read_present s e q
      at_once e q (some acc) = read_present s e q

      go :
          (slot : Option AccountEntry)
          → lookup a s.cache ≡ slot
          → (continue (λ _. read_storage a key) (ensure_slot a nothing (λ _. tt) slot s)).0
            ≡ storage_of key (slot_view s.db a slot)
      go none q = loaded_seen s q (loaded_account a s.db)
      go (some e) q = at_once e q e.account
