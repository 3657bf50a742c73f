-- ===== src/State/Frames/Slots.antt =====
-- One address under the loops that close a checkpoint in src/state/mod.rs.
use cfx_evm.Base.{
  ◌≡◌, refl, sym, ◌∙◌, [], ◌∷◌, Option, none, some, inl, inr, arith, if◌then◌else◌, ◌=?◌, lookup,
  or_insert, drain_into, drain_into-slot, drain_into-keeps, Unique, lookup-insert, lookup-remove,
  lookup-or_insert, or_insert-Unique, Option-cases,
}
use cfx_evm.Primitives.{AddressWithSpace, address_eq, address_beq_iff, Keccak}
use cfx_evm.StateDb.{Rlp, StateDb}
use cfx_evm.State.Account.{AccountEntry, overwrite_with}
use cfx_evm.State.Types.{Cache, Saved}
use cfx_evm.State.Checkpoint.{restore_entry, merge_saved}
use cfx_evm.State.View.{slot_view, undo}
use cfx_evm.State.Undo.{GoodSlot, undo_saved}

-- One round of a revert changes the slot of its own address.
lookup-restore_entry :
    (k j : AddressWithSpace) (v : Option AccountEntry) (cache : Cache)
    → lookup j (restore_entry k v cache)
      ≡ (if k =? j then undo (some v) (lookup j cache) else lookup j cache)
unfolding restore_entry
lookup-restore_entry k j (some v) cache = elim (Option-cases (lookup k cache)) [
  | inl q ↦ ground (arith, q, address_beq_iff k j, lookup-insert k j v cache)
  | inr (e, q) ↦
      ground (arith, q, address_beq_iff k j, lookup-insert k j (overwrite_with v e) cache)
]
lookup-restore_entry k j none cache = elim (Option-cases (lookup k cache)) [
  | inl q ↦ ground (arith, q, address_beq_iff k j)
  | inr (e, q) ↦ ground (arith, q, address_beq_iff k j, lookup-remove k j cache)
]

undo-cases :
    (mark : Option (Option AccountEntry)) (x : Option AccountEntry)
    → (elim mark [ none ↦ x | some v ↦ undo (some v) x ]) ≡ undo mark x
undo-cases none x = refl
undo-cases (some v) x = refl

-- A revert undoes every slot by what the checkpoint saved for its address.
pub lookup-restored :
    (a : AddressWithSpace) (m : Saved) (cache : Cache)
    → Unique m
    → lookup a (drain_into restore_entry m cache) ≡ undo (lookup a m) (lookup a cache)
lookup-restored a m cache u =
    drain_into-slot lookup restore_entry (λ v x. undo (some v) x) lookup-restore_entry a m cache u
    ∙ undo-cases (lookup a m) (lookup a cache)

-- The first of two options that holds a value.
abbrev pub or_else {ℓ} : {A : Type ℓ} → Option A → Option A → Option A
or_else none y = y
or_else (some x) y = some x

or_else-none {ℓ} : {A : Type ℓ} (x : Option A) → or_else x none ≡ x
or_else-none none = refl
or_else-none (some x) = refl

-- The merge of two checkpoints prefers what the older one has saved.
pub lookup-merge_saved :
    (a : AddressWithSpace) (last prev : Saved)
    → Unique last
    → lookup a (merge_saved last prev) ≡ or_else (lookup a prev) (lookup a last)
unfolding merge_saved lookup
lookup-merge_saved a last [] u = refl
lookup-merge_saved a last (e ∷ prev) u =
    drain_into-slot lookup or_insert (λ v x. or_else x (some v)) round a last (e ∷ prev) u
    ∙ drained (lookup a last) (lookup a (e ∷ prev))
  where
    round :
        (k j : AddressWithSpace) (v : Option AccountEntry) (m : Saved)
        → lookup j (or_insert k v m)
          ≡ (if k =? j then or_else (lookup j m) (some v) else lookup j m)
    round k j v m = ground (arith, address_beq_iff k j, lookup-or_insert k j v m)

    drained :
        (x y : Option (Option AccountEntry))
        → (elim x [ none ↦ y | some v ↦ or_else y (some v) ]) ≡ or_else y x
    drained none y = sym (or_else-none y)
    drained (some v) y = refl

pub merge_saved-Unique :
    (last prev : Saved) → Unique last → Unique prev → Unique (merge_saved last prev)
unfolding merge_saved
merge_saved-Unique last [] u w = u
merge_saved-Unique last (e ∷ prev) u w =
    drain_into-keeps Unique or_insert (λ k v m h. or_insert-Unique k v m h) last (e ∷ prev) w

module _ ⦃k : Keccak⦄ ⦃rlp : Rlp⦄ where
  -- A revert does not tell apart two slots that look the same.
  pub undo-same :
      (db : StateDb) (a : AddressWithSpace) (mark : Option (Option AccountEntry))
      (x y : Option AccountEntry)
      → ((w : Option AccountEntry) → mark ≡ some w → GoodSlot db a w)
      → GoodSlot db a x
      → GoodSlot db a y
      → slot_view db a x ≡ slot_view db a y
      → slot_view db a (undo mark x) ≡ slot_view db a (undo mark y)
  undo-same db a none x y g h i same = same
  undo-same db a (some w) x y g h i same =
      undo_saved db a w x (g w refl) h ∙ sym (undo_saved db a w y (g w refl) i)
