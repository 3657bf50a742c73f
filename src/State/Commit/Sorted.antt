-- ===== src/State/Commit/Sorted.antt =====
-- The order in which `commit` of src/state/mod.rs takes the accounts does not change what it finds.
use cfx_evm.Base.{
  ◌≡◌, refl, ap, ◌∙◌, Bool, true, false, [], ◌∷◌, none, some, arith, if◌then◌else◌, ◌=?◌, lookup,
  ltb,
}
use cfx_evm.Primitives.{AddressWithSpace, address_eq, Keccak}
use cfx_evm.StateDb.{Rlp}
use cfx_evm.State.{Cache, AccountEntry, insert_sorted, sort_entries}
use cfx_evm.State.Commit.Stored.{IsOwn, IsCommittable}

module _ ⦃k : Keccak⦄ ⦃rlp : Rlp⦄ where
  lookup-insert_sorted :
      (a j : AddressWithSpace) (e : AccountEntry) (m : Cache)
      → lookup a m ≡ none
      → lookup j (insert_sorted a e m) ≡ (if a =? j then some e else lookup j m)
  unfolding lookup insert_sorted
  lookup-insert_sorted a j e [] h = refl
  lookup-insert_sorted a j e ((b, f) ∷ m) h = ground (
    arith,
    address_eq.beq_iff a j,
    address_eq.beq_iff b j,
    address_eq.beq_iff b a,
    lookup-insert_sorted a j e m,
  )

  insert_sorted-IsCommittable :
      (a : AddressWithSpace) (e : AccountEntry) (m : Cache)
      → lookup a m ≡ none
      → IsOwn a e.account
      → IsCommittable m
      → IsCommittable (insert_sorted a e m)
  unfolding lookup insert_sorted
  insert_sorted-IsCommittable a e [] h o c = (refl, o, tt)
  insert_sorted-IsCommittable a e ((b, f) ∷ m) h o c =
      placed (insert_sorted-IsCommittable a e m (ground (arith, address_eq.beq_iff b a)) o c.2)
        (ltb b.address a.address)
    where
      fresh : lookup b (insert_sorted a e m) ≡ none
      fresh = ground (
        arith,
        address_eq.beq_iff b a,
        address_eq.beq_iff a b,
        c.0,
        lookup-insert_sorted a b e m (ground (arith, address_eq.beq_iff b a)),
      )

      placed :
          IsCommittable (insert_sorted a e m)
          → (t : Bool)
          → IsCommittable (if t then (b, f) ∷ insert_sorted a e m else (a, e) ∷ (b, f) ∷ m)
      placed r true = (fresh, c.1, r)
      placed r false = (h, o, c)

  pub lookup-sort_entries :
      (j : AddressWithSpace) (m : Cache) → IsCommittable m → lookup j (sort_entries m) ≡ lookup j m
  unfolding lookup sort_entries
  lookup-sort_entries j [] c = refl
  lookup-sort_entries j ((a, e) ∷ m) c =
      lookup-insert_sorted a j e (sort_entries m) (lookup-sort_entries a m c.2 ∙ c.0)
      ∙ ap (λ x. if a =? j then some e else x) (lookup-sort_entries j m c.2)

  pub sort_entries-IsCommittable : (m : Cache) → IsCommittable m → IsCommittable (sort_entries m)
  unfolding sort_entries
  sort_entries-IsCommittable [] c = tt
  sort_entries-IsCommittable ((a, e) ∷ m) c =
      insert_sorted-IsCommittable a e (sort_entries m) (lookup-sort_entries a m c.2 ∙ c.0) c.1
        (sort_entries-IsCommittable m c.2)
