-- ===== src/State/Reads.antt =====
-- What a read of the storage of an account returns, as a function of the account:
-- `OverlayAccount::storage_at` of src/state/account_entry.rs.
use cfx_evm.Base.{
  some-injective, [], HashMap, ◌=?◌, lookup-insert_self, ℕ, ◌≡◌, refl, sym, ap, ◌∙◌, false, List,
  Option, none, some, inl, inr, arith, if◌then◌else◌, lookup, insert, bytes_eq, bytes_beq_iff,
  lookup-insert, Option-cases, Bool-cases, ◌⊎◌,
}
use mathlib.Core.Path.{subst}
use cfx_evm.Primitives.{AddressWithSpace, Keccak, CodeInfo}
use cfx_evm.StateDb.{Result, ok, err, panic, Rlp, StateDb, get_storage_value}
use cfx_evm.State.Account.{
  OverlayAccount, account_storage_at, cached_storage_at, fresh_storage, get_and_cache_storage,
}

abbrev pub value_or_zero : Result (Option ℕ) → Result ℕ
value_or_zero (ok none) = ok 0
value_or_zero (ok (some v)) = ok v
value_or_zero (err e) = err e
value_or_zero panic = panic

module _ ⦃k : Keccak⦄ ⦃rlp : Rlp⦄ where
  -- The written value, or else the cached one, or else what the database holds.
  abbrev storage_read : StateDb → List ℕ → OverlayAccount → Result ℕ
  storage_read db key acc = elim (lookup key acc.storage_value_write_cache) [
    | some v ↦ ok v
    | none ↦ elim (lookup key acc.storage_value_read_cache) [
      | some v ↦ ok v
      | none ↦
          if fresh_storage acc then ok 0 else value_or_zero (get_storage_value acc.address key db)
    ]
  ]

  storage_read-eq :
      (db : StateDb) (key : List ℕ) (acc : OverlayAccount)
      → (account_storage_at db key acc).0 ≡ storage_read db key acc
  unfolding account_storage_at cached_storage_at get_and_cache_storage
  storage_read-eq db key acc = ground arith

  pub storage-code :
      (db : StateDb) (key : List ℕ) (c : Option CodeInfo) (acc : OverlayAccount)
      → (account_storage_at db key (record acc { code = c })).0 ≡ (account_storage_at db key acc).0
  unfolding fresh_storage
  storage-code db key c acc =
      storage_read-eq db key (record acc { code = c }) ∙ sym (storage_read-eq db key acc)

  pub account_storage_at-shape :
      (db : StateDb) (key : List ℕ) (acc : OverlayAccount)
      → (account_storage_at db key acc).1 ≡ record acc {
        storage_value_read_cache = (account_storage_at db key acc).1.storage_value_read_cache;
      }
  unfolding account_storage_at cached_storage_at get_and_cache_storage
  account_storage_at-shape db key acc = ground arith

  -- A read of the storage leaves the account as it was, or remembers what it returned.
  IsRemembered : StateDb → List ℕ → OverlayAccount → Type 0
  IsRemembered db key acc =
      ((account_storage_at db key acc).1 ≡ acc)
      ⊎ ((v : ℕ) × ((account_storage_at db key acc).1
            ≡ record acc { storage_value_read_cache = insert key v acc.storage_value_read_cache })
          × (storage_read db key acc ≡ ok v)
          × (lookup key acc.storage_value_write_cache ≡ none)
          × (value_or_zero (get_storage_value acc.address key db) ≡ ok v))

  account_storage_at-remembers :
      (db : StateDb) (key : List ℕ) (acc : OverlayAccount) → IsRemembered db key acc
  unfolding account_storage_at cached_storage_at get_and_cache_storage IsRemembered
  account_storage_at-remembers db key acc =
      elim (Option-cases (lookup key acc.storage_value_write_cache)) [
        | inr (v, e) ↦ inl (ground (arith, e))
        | inl e ↦ elim (Option-cases (lookup key acc.storage_value_read_cache)) [
          | inr (v, e') ↦ inl (ground (arith, e, e'))
          | inl e' ↦ elim (Bool-cases (fresh_storage acc)) [
            | inl f ↦ inl (ground (arith, e, e', f))
            | inr f ↦ fetched e e' f (get_storage_value acc.address key db) refl
          ]
        ]
      ]
    where
      fetched :
          lookup key acc.storage_value_write_cache ≡ none
          → lookup key acc.storage_value_read_cache ≡ none
          → fresh_storage acc ≡ false
          → (g : Result (Option ℕ)) → get_storage_value acc.address key db ≡ g
          → IsRemembered db key acc
      fetched e e' f (ok none) q =
          inr (0, ground (arith, e, e', f, q), ground (arith, e, e', f, q), e, ap value_or_zero q)
      fetched e e' f (ok (some v)) q =
          inr (v, ground (arith, e, e', f, q), ground (arith, e, e', f, q), e, ap value_or_zero q)
      fetched e e' f (err x) q = inl (ground (arith, e, e', f, q))
      fetched e e' f panic q = inl (ground (arith, e, e', f, q))

  remembered :
      (db : StateDb) (key j : List ℕ) (v : ℕ) (acc : OverlayAccount)
      → storage_read db key acc ≡ ok v
      → lookup key acc.storage_value_write_cache ≡ none
      → storage_read db j
          (record acc { storage_value_read_cache = insert key v acc.storage_value_read_cache })
        ≡ storage_read db j acc
  unfolding fresh_storage
  remembered db key j v acc h e =
      ground (arith, h, e, bytes_beq_iff key j, lookup-insert key j v acc.storage_value_read_cache)

  -- A read that has been remembered does not change what any read returns.
  pub storage-account_storage_at :
      (db : StateDb) (key j : List ℕ) (acc : OverlayAccount)
      → (account_storage_at db j (account_storage_at db key acc).1).0
        ≡ (account_storage_at db j acc).0
  unfolding IsRemembered
  storage-account_storage_at db key j acc = elim (account_storage_at-remembers db key acc) [
    | inl e ↦ ap (λ (x : OverlayAccount). (account_storage_at db j x).0) e
    | inr (v, e, h, w, g) ↦
        ap (λ (x : OverlayAccount). (account_storage_at db j x).0) e
        ∙ storage_read-eq db j _
        ∙ remembered db key j v acc h w
        ∙ sym (storage_read-eq db j acc)
  ]

  -- Every value of a read cache is what the database holds for its slot.
  pub record IsCached (db : StateDb) (a : AddressWithSpace) (read : HashMap (List ℕ) ℕ)
      : Type 0 where
    pub cached :
        (key : List ℕ) (v : ℕ)
        → lookup key read ≡ some v
        → value_or_zero (get_storage_value a key db) ≡ ok v

  pub empty-IsCached : (db : StateDb) (a : AddressWithSpace) → IsCached db a []
  unfolding lookup
  empty-IsCached db a = record { cached = λ key v h. absurd (cc) }

  insert-IsCached :
      (db : StateDb) (a : AddressWithSpace) (key : List ℕ) (v : ℕ) (read : HashMap (List ℕ) ℕ)
      → value_or_zero (get_storage_value a key db) ≡ ok v
      → IsCached db a read
      → IsCached db a (insert key v read)
  insert-IsCached db a key v read h c = record {
    cached = λ j w q. elim (Bool-cases (key =? j)) [
      | inl e ↦
          subst
            (λ i.
              lookup i (insert key v read) ≡ some w
              → value_or_zero (get_storage_value a i db) ≡ ok w)
            ((bytes_beq_iff key j).0 e)
            (λ r. h ∙ ap ok (some-injective (sym (lookup-insert_self key v read) ∙ r))) q
      | inr f ↦
          c.cached j w
            (sym (lookup-insert key j v read ∙ ap (λ b. if b then some v else lookup j read) f) ∙ q)
    ];
  }

  -- A read of the storage caches only what the database holds.
  pub account_storage_at-IsCached :
      (db : StateDb) (key : List ℕ) (acc : OverlayAccount)
      → IsCached db acc.address acc.storage_value_read_cache
      → IsCached db acc.address (account_storage_at db key acc).1.storage_value_read_cache
  unfolding IsRemembered
  account_storage_at-IsCached db key acc c = elim (account_storage_at-remembers db key acc) [
    | inl e ↦
        subst (λ (x : OverlayAccount). IsCached db acc.address x.storage_value_read_cache) (sym e) c
    | inr (v, e, h, w, g) ↦
        subst (λ (x : OverlayAccount). IsCached db acc.address x.storage_value_read_cache) (sym e)
          (insert-IsCached db acc.address key v acc.storage_value_read_cache g c)
  ]
