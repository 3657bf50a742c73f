-- ===== src/State/Undo.antt =====
-- A revert takes back what an operation did: the lemmas on one slot.
use cfx_evm.Base.{◌≡◌, refl, ap, ◌∙◌, Option, none, some, inl, inr, arith, Bool-cases}
use cfx_evm.Primitives.{AddressWithSpace, address_eq, Keccak}
use cfx_evm.StateDb.{Result, ok, Rlp, StateDb}
use cfx_evm.State.Account.{
  OverlayAccount, AccountEntry, is_dirty, overwrite_with, overwrite_account_with, clone_dirty_entry,
  clone_dirty,
}
use cfx_evm.State.View.{
  Core, effective_code, account_view, db_view, slot_view, undo, IsHomed, IsGood,
}

module _ ⦃k : Keccak⦄ ⦃rlp : Rlp⦄ (db : StateDb) (a : AddressWithSpace) where
  -- Overwriting an account of the same address gives the other account.
  core-overwrite :
      (v acc : OverlayAccount) → v.address ≡ a → acc.address ≡ a → overwrite_account_with v acc ≡ v
  unfolding overwrite_account_with
  core-overwrite v acc h g = ground arith

  account_view-overwrite :
      (o p : Option OverlayAccount)
      → IsHomed db a o
      → IsHomed db a p
      → account_view db (elim o [
        | none ↦ none
        | some acc ↦ elim p [ none ↦ some acc | some ours ↦ some (overwrite_account_with acc ours) ]
      ])
        ≡ account_view db o
  account_view-overwrite none p h g = refl
  account_view-overwrite (some acc) none h g = refl
  account_view-overwrite (some acc) (some ours) h g =
      ap (λ x. account_view db (some x)) (core-overwrite acc ours h.0 g.0)

  view-overwrite :
      (v e : AccountEntry)
      → IsHomed db a v.account
      → IsHomed db a e.account
      → slot_view db a (some (overwrite_with v e)) ≡ slot_view db a (some v)
  unfolding overwrite_with
  view-overwrite v e h g = ap ok (account_view-overwrite v.account e.account h g)

  overwrite-IsGood :
      (v e : AccountEntry) → IsGood db a v → IsGood db a e → IsGood db a (overwrite_with v e)
  unfolding overwrite_with overwrite_account_with is_dirty
  overwrite-IsGood v e g h = record {
    homed = homed_overwrite v.account e.account g.homed h.homed;
    clean = λ c. view-overwrite v e g.homed h.homed ∙ g.clean c;
  }
    where
      homed_overwrite :
          (o p : Option OverlayAccount)
          → IsHomed db a o
          → IsHomed db a p
          → IsHomed db a (elim o [
            | none ↦ none
            | some acc ↦ elim p [
              | none ↦ some acc
              | some ours ↦ some (overwrite_account_with acc ours)
            ]
          ])
      homed_overwrite none p h g = tt
      homed_overwrite (some acc) none h g = h
      homed_overwrite (some acc) (some ours) h g = (g.0, h.1)

  -- The view after a revert of a slot whose address the checkpoint has saved.
  abbrev pub saved_view : Option AccountEntry → Result (Option Core)
  saved_view none = db_view db a
  saved_view (some v) = slot_view db a (some v)

  abbrev pub GoodSlot : Option AccountEntry → Type 0
  GoodSlot none = Unit
  GoodSlot (some e) = IsGood db a e

  pub undo_saved :
      (v slot : Option AccountEntry)
      → GoodSlot v
      → GoodSlot slot
      → slot_view db a (undo (some v) slot) ≡ saved_view v
  undo_saved none none g h = refl
  undo_saved none (some e) g h = elim (Bool-cases (is_dirty e)) [
    | inl d ↦ rw d refl
    | inr c ↦ rw c (h.clean c)
  ]
  undo_saved (some v) none g h = refl
  undo_saved (some v) (some e) g h = view-overwrite v e g.homed h.homed

  account_view-clone :
      (o : Option OverlayAccount)
      → account_view db (elim o [ none ↦ none | some acc ↦ some (clone_dirty acc) ])
        ≡ account_view db o
  unfolding clone_dirty effective_code
  account_view-clone none = refl
  account_view-clone (some acc) = refl

  pub view-clone :
      (e : AccountEntry) → slot_view db a (some (clone_dirty_entry e)) ≡ slot_view db a (some e)
  unfolding clone_dirty_entry
  view-clone e = ap ok (account_view-clone e.account)

  pub clone-IsGood : (e : AccountEntry) → IsGood db a e → IsGood db a (clone_dirty_entry e)
  unfolding clone_dirty_entry clone_dirty is_dirty
  clone-IsGood e h = record {
    homed = homed_clone e.account h.homed;
    clean = λ c. view-clone e ∙ h.clean c;
  }
    where
      homed_clone :
          (o : Option OverlayAccount)
          → IsHomed db a o
          → IsHomed db a (elim o [ none ↦ none | some acc ↦ some (clone_dirty acc) ])
      homed_clone none h = tt
      homed_clone (some acc) h = h

  -- What a revert leaves of a slot is as good as what it started from.
  pub undo-GoodSlot :
      (v : Option (Option AccountEntry)) (slot : Option AccountEntry)
      → ((w : AccountEntry) → v ≡ some (some w) → IsGood db a w)
      → GoodSlot slot
      → GoodSlot (undo v slot)
  undo-GoodSlot none slot g h = h
  undo-GoodSlot (some none) none g h = tt
  undo-GoodSlot (some none) (some e) g h = elim (Bool-cases (is_dirty e)) [
    | inl d ↦ rw d tt
    | inr c ↦ rw c h
  ]
  undo-GoodSlot (some (some v)) none g h = g v refl
  undo-GoodSlot (some (some v)) (some e) g h = overwrite-IsGood v e (g v refl) h
