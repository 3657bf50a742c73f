-- ===== src/State/Commit/Entries.antt =====
-- What the accounts of the cache write under one key of the database.
use cfx_evm.Base.{
  ℕ, ◌≡◌, refl, sym, ap, ◌∙◌, true, false, List, [], ◌∷◌, Option, none, some, arith, if◌then◌else◌,
  ◌=?◌, lookup,
}
use mathlib.Core.Path.{subst}
use cfx_evm.Primitives.{AddressWithSpace, address_eq, Keccak}
use cfx_evm.Primitives.Keys.{StateKey, key_address, IsH160}
use cfx_evm.StateDb.{Rlp, StateDb}
use cfx_evm.State.{Cache, OverlayAccount, AccountEntry, removed_without_update}
use cfx_evm.State.Commit.Puts.{raw, written_key, store_account-keep, store_account-own}
use cfx_evm.State.Commit.Stored.{store_entry, store_entries, IsOwn, IsCommittable}

module _ ⦃k : Keccak⦄ ⦃rlp : Rlp⦄ where
  -- What the entries write under a key, the deletion of the killed accounts left aside.
  abbrev pub live : Option AccountEntry → StateKey → Option (List ℕ) → Option (List ℕ)
  live none l old = old
  live (some e) l old = elim e.account [
    | none ↦ old
    | some acc ↦ if removed_without_update acc then old else written_key acc l old
  ]

  pub own_address : (a : AddressWithSpace) (o : Option OverlayAccount) → IsOwn a o → IsH160 a
  own_address a none h = h
  own_address a (some acc) h = h.0

  store_entry-keep :
      (a : AddressWithSpace) (o : Option OverlayAccount) (l : StateKey) (db : StateDb)
      → IsOwn a o
      → IsH160 (key_address l)
      → ¬ (a ≡ key_address l)
      → raw l (store_entry a o db) ≡ raw l db
  store_entry-keep a none l db h hl n = refl
  store_entry-keep a (some acc) l db h hl n = ground (arith, store_account-keep a acc l db h.0 hl n)

  store_entry-own :
      (e : AccountEntry) (l : StateKey) (db : StateDb)
      → IsOwn (key_address l) e.account
      → raw l (store_entry (key_address l) e.account db) ≡ live (some e) l (raw l db)
  store_entry-own e l db h = own e.account h
    where
      own :
          (o : Option OverlayAccount)
          → IsOwn (key_address l) o
          → raw l (store_entry (key_address l) o db) ≡ (elim o [
            | none ↦ raw l db
            | some acc ↦
                if removed_without_update acc then raw l db else written_key acc l (raw l db)
          ])
      own none h = refl
      own (some acc) h = ground (arith, store_account-own acc l db h.0 h.2)

  pub store_entries-read :
      (l : StateKey) (m : Cache) (db : StateDb)
      → IsH160 (key_address l)
      → IsCommittable m
      → raw l (store_entries m db) ≡ live (lookup (key_address l) m) l (raw l db)
  unfolding store_entries lookup
  store_entries-read l [] db hl c = refl
  store_entries-read l ((a, e) ∷ m) db hl c =
      store_entries-read l m (store_entry a e.account db) hl c.2
      ∙ elim (a =? key_address l)
            as (λ b.
              ((a =? key_address l) ≡ b)
              → live (lookup (key_address l) m) l (raw l (store_entry a e.account db))
                ≡ live (if b then some e else lookup (key_address l) m) l (raw l db)) [
                  | true ↦ λ q. own ((address_eq.beq_iff a (key_address l)).0 q)
                  | false ↦ λ q. ap (live (lookup (key_address l) m) l) (
                      store_entry-keep a e.account l db c.1 hl
                        (λ r. ground (arith, address_eq.beq_iff a (key_address l))))
                ]
          refl
    where
      own :
          a ≡ key_address l
          → live (lookup (key_address l) m) l (raw l (store_entry a e.account db))
            ≡ live (some e) l (raw l db)
      own q =
          subst
            (λ x.
              IsOwn x e.account
              → lookup x m ≡ none
              → live (lookup (key_address l) m) l (raw l (store_entry x e.account db))
                ≡ live (some e) l (raw l db))
            (sym q)
            (λ o n.
              ap (λ slot. live slot l (raw l (store_entry (key_address l) e.account db))) n
              ∙ store_entry-own e l db o)
            c.1 c.0
