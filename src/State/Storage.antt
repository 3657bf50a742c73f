-- ===== src/State/Storage.antt =====
-- A slot of the storage of an account is read back as it was written: `set_storage` and `storage_at`
-- of src/state/mod.rs.
use cfx_evm.Base.{
  ℕ, ◌≡◌, refl, sym, ap, ◌∙◌, Bool, true, false, List, Option, none, some, inl, inr, ◌==◌, arith,
  if◌then◌else◌, lookup, bytes_eq, lookup-insert_self, Option-cases, ==_iff,
}
use mathlib.Core.Path.{subst}
use cfx_evm.Primitives.{⊤, AddressWithSpace, address_eq, Keccak}
use cfx_evm.StateDb.{Result, ok, err, panic, Rlp, StateDb}
use cfx_evm.State.Account.{
  OverlayAccount, AccountEntry, account_storage_at, set_account_storage, cached_storage_at,
  fresh_storage, get_and_cache_storage,
}
use cfx_evm.State.Types.{nothing, State}
use cfx_evm.State.Monad.{continue, pure}
use cfx_evm.State.Load.{
  ensure_account_loaded, ensure_slot, needs_update, put_account, put_slot, require_exists,
}
use cfx_evm.State.Ops.{
  storage_account, storage_slot, read_storage, storage_at, write_storage, set_storage,
}

module _ ⦃k : Keccak⦄ ⦃rlp : Rlp⦄ where
  -- What a read of the storage finds in a slot of the cache.
  abbrev account_read : StateDb → List ℕ → Option OverlayAccount → Result ℕ
  account_read db key none = ok 0
  account_read db key (some acc) = (account_storage_at db key acc).0

  abbrev slot_read : StateDb → List ℕ → Option AccountEntry → Result ℕ
  slot_read db key none = panic
  slot_read db key (some e) = account_read db key e.account

  read_cached :
      (db : StateDb) (key : List ℕ) (acc : OverlayAccount) (v : ℕ)
      → cached_storage_at key acc ≡ some v
      → account_storage_at db key acc ≡ (ok v, acc)
  unfolding account_storage_at
  read_cached db key acc v h = rw (h, account_storage_at) refl

  -- A read that succeeds is remembered by the account.
  read_loaded :
      (db : StateDb) (key : List ℕ) (acc : OverlayAccount) (v : ℕ)
      → cached_storage_at key acc ≡ none
      → (get_and_cache_storage db key acc).0 ≡ ok v
      → cached_storage_at key (get_and_cache_storage db key acc).1 ≡ some v
  unfolding cached_storage_at get_and_cache_storage
  read_loaded db key acc v n h = ground (
    arith,
    lookup-insert_self key v acc.storage_value_read_cache,
    lookup-insert_self key 0 acc.storage_value_read_cache,
  )

  read_again :
      (db : StateDb) (key : List ℕ) (acc : OverlayAccount) (v : ℕ)
      → (account_storage_at db key acc).0 ≡ ok v
      → (account_storage_at db key (account_storage_at db key acc).1).0 ≡ ok v
  unfolding account_storage_at
  read_again db key acc v h = elim (Option-cases (cached_storage_at key acc)) [
    | inr (w, q) ↦ ap (λ x. (account_storage_at db key x.1).0) (read_cached db key acc w q) ∙ h
    | inl q ↦ missed q (fresh_storage acc) refl
  ]
    where
      missed :
          cached_storage_at key acc ≡ none
          → (b : Bool) → fresh_storage acc ≡ b
          → (account_storage_at db key (account_storage_at db key acc).1).0 ≡ ok v
      missed q true f =
          let e : account_storage_at db key acc ≡ (ok 0, acc) =
            rw (q, account_storage_at) (rw f refl) in
          ap (λ x. (account_storage_at db key x.1).0) e ∙ h
      missed q false f =
          let e : account_storage_at db key acc ≡ get_and_cache_storage db key acc =
            rw (q, account_storage_at) (rw f refl) in
          let c = read_loaded db key acc v q (ap (λ x. x.0) (sym e) ∙ h) in
          ap (λ x. (account_storage_at db key x.1).0) e
          ∙ ap (λ x. x.0) (read_cached db key (get_and_cache_storage db key acc).1 v c)

  -- What was written last is read.
  read_written :
      (db : StateDb) (key : List ℕ) (acc : OverlayAccount) (v : ℕ)
      → (account_storage_at db key (set_account_storage key v acc)).0 ≡ ok v
  unfolding account_storage_at cached_storage_at set_account_storage
  read_written db key acc v =
      rw
        (
          lookup-insert_self key v acc.storage_value_write_cache,
          account_storage_at,
          cached_storage_at,
        )
        refl

  ensure_cached :
      (a : AddressWithSpace) (t : State) (e : AccountEntry)
      → lookup a t.cache ≡ some e
      → ensure_account_loaded a nothing (λ _. tt) t ≡ (ok tt, t)
  unfolding ensure_account_loaded needs_update
  ensure_cached a t e q = ap (λ slot. ensure_slot a nothing (λ _. tt) slot t) q ∙ go e.account refl
    where
      go :
          (o : Option OverlayAccount)
          → e.account ≡ o
          → ensure_slot a nothing (λ _. tt) (some e) t ≡ (ok tt, t)
      go none r = rw r refl
      go (some acc) r = rw r refl

  read_slot :
      (a : AddressWithSpace) (key : List ℕ) (t : State) (slot : Option AccountEntry)
      → (storage_slot a key slot t).0 ≡ slot_read t.db key slot
  read_slot a key t none = refl
  read_slot a key t (some e) = go e.account
    where
      go : (o : Option OverlayAccount) → (storage_account a key e o t).0 ≡ account_read t.db key o
      go none = refl
      go (some acc) = refl

  -- An address whose slot reads `v` is read as `v`.
  read-slot_read :
      (a : AddressWithSpace) (key : List ℕ) (t : State) (v : ℕ)
      → slot_read t.db key (lookup a t.cache) ≡ ok v
      → (storage_at a key t).0 ≡ ok v
  unfolding storage_at read_storage
  read-slot_read a key t v h = elim (Option-cases (lookup a t.cache)) [
    | inl q ↦ absurd (let b = subst (λ slot. slot_read t.db key slot ≡ ok v) q h in cc)
    | inr (e, q) ↦
        ap (λ r. (continue (λ _. read_storage a key) r).0) (ensure_cached a t e q)
        ∙ read_slot a key t (lookup a t.cache)
        ∙ h
  ]

  Reads : AddressWithSpace → List ℕ → ℕ → State → Type 0
  Reads a key v t = slot_read t.db key (lookup a t.cache) ≡ ok v

  -- A read that succeeds leaves a slot that reads the same.
  read_storage-Reads :
      (a : AddressWithSpace) (key : List ℕ) (s t : State) (v : ℕ)
      → read_storage a key s ≡ (ok v, t)
      → Reads a key v t
  unfolding read_storage Reads
  read_storage-Reads a key s t v h = slot (lookup a s.cache) refl h
    where
      account :
          (e : AccountEntry) (o : Option OverlayAccount)
          → lookup a s.cache ≡ some e
          → e.account ≡ o
          → storage_account a key e o s ≡ (ok v, t)
          → slot_read t.db key (lookup a t.cache) ≡ ok v
      account e none q r h =
          subst (λ t. slot_read t.db key (lookup a t.cache) ≡ ok v) (ap (λ x. x.1) h)
            (ap (slot_read s.db key) q ∙ ap (account_read s.db key) r ∙ ap (λ x. x.0) h)
      account e (some acc) q r h =
          subst (λ t. slot_read t.db key (lookup a t.cache) ≡ ok v) (ap (λ x. x.1) h)
            (ap (slot_read s.db key) (lookup-insert_self a _ s.cache)
              ∙ read_again s.db key acc v (ap (λ x. x.0) h))

      slot :
          (o : Option AccountEntry)
          → lookup a s.cache ≡ o
          → storage_slot a key o s ≡ (ok v, t)
          → slot_read t.db key (lookup a t.cache) ≡ ok v
      slot none q h = absurd (let b = ap (λ x. x.0) h in cc)
      slot (some e) q h = account e e.account q refl h

  storage_at-Reads :
      (a : AddressWithSpace) (key : List ℕ) (s t : State) (v : ℕ)
      → storage_at a key s ≡ (ok v, t)
      → Reads a key v t
  unfolding storage_at
  storage_at-Reads a key s t v h = go (ensure_account_loaded a nothing (λ _. tt) s) h
    where
      go :
          (r : Result ⊤ × State)
          → continue (λ _. read_storage a key) r ≡ (ok v, t)
          → Reads a key v t
      go (ok tt, s') q = read_storage-Reads a key s' t v q
      go (err e, s') q = absurd (let b = ap (λ x. x.0) q in cc)
      go (panic, s') q = absurd (let b = ap (λ x. x.0) q in cc)

  write_storage-Reads :
      (a : AddressWithSpace) (key : List ℕ) (s t : State) (v : ℕ)
      → write_storage a key v s ≡ (ok tt, t)
      → Reads a key v t
  unfolding write_storage put_account Reads
  write_storage-Reads a key s t v h = go (require_exists a false s) h
    where
      put :
          (acc : OverlayAccount) (s' : State) (o : Option AccountEntry)
          → put_slot a (set_account_storage key v acc) o s' ≡ (ok tt, t)
          → slot_read t.db key (lookup a t.cache) ≡ ok v
      put acc s' none q = absurd (let b = ap (λ x. x.0) q in cc)
      put acc s' (some e) q =
          subst (λ t. slot_read t.db key (lookup a t.cache) ≡ ok v) (ap (λ x. x.1) q)
            (ap (slot_read s'.db key) (lookup-insert_self a _ s'.cache)
              ∙ read_written s'.db key acc v)

      go :
          (r : Result OverlayAccount × State)
          → continue (λ acc. put_account a (set_account_storage key v acc)) r ≡ (ok tt, t)
          → slot_read t.db key (lookup a t.cache) ≡ ok v
      go (ok acc, s') q = put acc s' (lookup a s'.cache) q
      go (err e, s') q = absurd (let b = ap (λ x. x.0) q in cc)
      go (panic, s') q = absurd (let b = ap (λ x. x.0) q in cc)

  -- If a write of a storage slot succeeds, then the next read of the slot succeeds and returns what
  -- was written, whether or not the write changed the slot.
  pub storage_at-set_storage :
      (a : AddressWithSpace) (key : List ℕ) (v : ℕ) (s t : State)
      → set_storage a key v s ≡ (ok tt, t)
      → (storage_at a key t).0 ≡ ok v
  unfolding set_storage Reads
  storage_at-set_storage a key v s t h = read-slot_read a key t v (go (storage_at a key s) refl h)
    where
      branch :
          (old : ℕ) (s' : State)
          → storage_at a key s ≡ (ok old, s')
          → (b : Bool) → (old == v) ≡ b
          → (if b then pure tt else write_storage a key v) s' ≡ (ok tt, t)
          → Reads a key v t
      branch old s' r true e q =
          subst (λ w. Reads a key w t) ((==_iff old v).0 e)
            (subst (Reads a key old) (ap (λ x. x.1) q) (storage_at-Reads a key s s' old r))
      branch old s' r false e q = write_storage-Reads a key s' t v q

      go :
          (r : Result ℕ × State)
          → storage_at a key s ≡ r
          → continue (λ old. if old == v then pure tt else write_storage a key v) r ≡ (ok tt, t)
          → Reads a key v t
      go (ok old, s') r q = branch old s' r (old == v) refl q
      go (err e, s') r q = absurd (let b = ap (λ x. x.0) q in cc)
      go (panic, s') r q = absurd (let b = ap (λ x. x.0) q in cc)
