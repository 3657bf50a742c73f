-- ===== src/State/Saves.antt =====
-- Saving an entry to the last checkpoint is a step that a revert takes back.
use cfx_evm.Base.{
  ◌≡◌, ◌≢◌, refl, sym, ap, ◌∙◌, true, false, List, [], ◌∷◌, Option, none, some, inl, inr, arith,
  ◌=?◌, lookup, or_insert, lookup-or_insert, or_insert-Unique, Option-cases,
}
use mathlib.Core.Path.{subst}
use cfx_evm.Primitives.{AddressWithSpace, address_eq, address_beq_iff, Keccak}
use cfx_evm.StateDb.{Rlp, StateDb}
use cfx_evm.State.Account.{AccountEntry}
use cfx_evm.State.Types.{Saved, State}
use cfx_evm.State.Load.{save}
use cfx_evm.State.Checkpoint.{tail}
use cfx_evm.State.View.{slot_view, undo, top, is_nonempty, IsGood, IsGoodSaved, AllSaved}
use cfx_evm.State.Undo.{saved_view, GoodSlot, undo_saved}
use cfx_evm.State.Step.{Steps, valid-GoodSlot, address-cases}

module _ ⦃k : Keccak⦄ ⦃rlp : Rlp⦄ where
  -- A checkpoint may save for an address anything that looks like its present slot.
  module _ (db : StateDb) (b : AddressWithSpace) (v : Option AccountEntry)
      (good : GoodSlot db b v) where
    mark-or_insert :
        (m : Saved)
        → lookup b (or_insert b v m) ≡ elim (lookup b m) [ none ↦ some v | some w ↦ some w ]
    mark-or_insert m = ground (arith, lookup-or_insert b b v m, address_beq_iff b b)

    lookup-or_insert_ne :
        (a : AddressWithSpace) (m : Saved)
        → (b =? a) ≡ false
        → lookup a (or_insert b v m) ≡ lookup a m
    lookup-or_insert_ne a m f = ground (arith, lookup-or_insert b a v m)

    or_insert-IsGood_self :
        (m : Saved) (w : AccountEntry)
        → IsGoodSaved db m
        → lookup b (or_insert b v m) ≡ some (some w)
        → IsGood db b w
    or_insert-IsGood_self m w h q = elim (Option-cases (lookup b m)) [
      | inl e ↦ subst (GoodSlot db b) (some_eq (rw e at (sym (mark-or_insert m)) ∙ q)) good
      | inr (x, e) ↦ h.good b w (e ∙ (rw e at (sym (mark-or_insert m)) ∙ q))
    ]
      where
        some_eq : {x y : Option AccountEntry} → some x ≡ some y → x ≡ y
        some_eq q = cc

    or_insert-IsGoodSaved : (m : Saved) → IsGoodSaved db m → IsGoodSaved db (or_insert b v m)
    or_insert-IsGoodSaved m h = record {
      unique = or_insert-Unique b v m h.unique;
      good = λ a w q. elim (address-cases b a) [
        | inl p ↦
            subst (λ c. lookup c (or_insert b v m) ≡ some (some w) → IsGood db c w) p
              (or_insert-IsGood_self m w h) q
        | inr f ↦ h.good a w (sym (lookup-or_insert_ne a m f) ∙ q)
      ];
    }

    pub save-AllSaved : (ms : List Saved) → AllSaved db ms → AllSaved db (save b v ms)
    save-AllSaved [] h = tt
    save-AllSaved (m ∷ ms) h = (or_insert-IsGoodSaved m h.0, h.1)

    -- The mark of the address after it has been saved.
    save-mark :
        (m : Saved) (slot : Option AccountEntry)
        → GoodSlot db b slot
        → slot_view db b slot ≡ saved_view db b v
        → slot_view db b (undo (lookup b (or_insert b v m)) slot)
          ≡ slot_view db b (undo (lookup b m) slot)
    save-mark m slot g same = elim (Option-cases (lookup b m)) [
      | inl e ↦ rw (mark-or_insert m, e) (undo_saved db b v slot good g ∙ sym same)
      | inr (x, e) ↦ rw (mark-or_insert m, e) refl
    ]

    save-undone :
        (ms : List Saved) (slot : AddressWithSpace → Option AccountEntry)
        → GoodSlot db b (slot b)
        → slot_view db b (slot b) ≡ saved_view db b v
        → (a : AddressWithSpace)
        → slot_view db a (undo (lookup a (top (save b v ms))) (slot a))
          ≡ slot_view db a (undo (lookup a (top ms)) (slot a))
    save-undone [] slot g same a = refl
    save-undone (m ∷ ms) slot g same a = elim (address-cases b a) [
      | inl p ↦
          subst
            (λ c.
              slot_view db c (undo (lookup c (or_insert b v m)) (slot c))
              ≡ slot_view db c (undo (lookup c m) (slot c)))
            p (save-mark m (slot b) g same)
      | inr f ↦ ap (λ x. slot_view db a (undo x (slot a))) (lookup-or_insert_ne a m f)
    ]

  save-open :
      (b : AddressWithSpace) (v : Option AccountEntry) (ms : List Saved)
      → is_nonempty (save b v ms) ≡ is_nonempty ms
  save-open b v [] = refl
  save-open b v (m ∷ ms) = refl

  save-tail :
      (b : AddressWithSpace) (v : Option AccountEntry) (ms : List Saved)
      → tail (save b v ms) ≡ tail ms
  save-tail b v [] = refl
  save-tail b v (m ∷ ms) = refl

  pub save-Step :
      (s : State) (b : AddressWithSpace) (v : Option AccountEntry)
      → GoodSlot s.db b v
      → slot_view s.db b (lookup b s.cache) ≡ saved_view s.db b v
      → Steps s (record s { checkpoints = save b v s.checkpoints })
  save-Step s b v good same h = record {
    db = refl;
    saved_statistics = refl;
    rest = save-tail b v s.checkpoints;
    opened = save-open b v s.checkpoints;
    valid = record { slots = h.slots; saved = save-AllSaved s.db b v good s.checkpoints h.saved };
    undone = λ o a.
        save-undone s.db b v good s.checkpoints (λ c. lookup c s.cache) (valid-GoodSlot s b h) same
          a;
  }

  -- Once an open checkpoint has saved an address, its mark is there.
  pub save-marks :
      (b : AddressWithSpace) (v : Option AccountEntry) (ms : List Saved)
      → is_nonempty (save b v ms) ≡ true
      → lookup b (top (save b v ms)) ≢ none
  save-marks b v [] o q = cc
  save-marks b v (m ∷ ms) o q = ground (arith, lookup-or_insert b b v m, address_beq_iff b b)
