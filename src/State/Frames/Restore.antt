-- ===== src/State/Frames/Restore.antt =====
-- How revert_to_checkpoint takes a frame back: src/state/mod.rs.
use cfx_evm.Base.{◌≡◌, refl, sym, ap, ◌∙◌, some, lookup, drain_into}
use mathlib.Core.Path.{subst}
use cfx_evm.Primitives.{AddressWithSpace, address_eq, Keccak}
use cfx_evm.StateDb.{Rlp}
use cfx_evm.State.Types.{Saved, State}
use cfx_evm.State.Checkpoint.{checkpoint, restore_entry, revert_to_checkpoint}
use cfx_evm.State.View.{slot_view, top, view, IsValid, Same}
use cfx_evm.State.Undo.{GoodSlot, undo-GoodSlot}
use cfx_evm.State.Step.{Step, valid-GoodSlot, mark-good}
use cfx_evm.State.Frames.Slots.{lookup-restored, undo-same}
use cfx_evm.State.Frames.Close.{Framed, framed, known, Framed-known, slots-IsGood}

module _ ⦃k : Keccak⦄ ⦃rlp : Rlp⦄ where
  -- The state that a revert of the frame leaves.
  restored : State → State → Saved → State
  restored s u m = record u {
    db = s.db;
    cache = drain_into restore_entry m u.cache;
    world_statistics = s.world_statistics;
    world_statistics_checkpoints = s.world_statistics_checkpoints;
    checkpoints = s.checkpoints;
  }

  revert-Framed :
      (s u : State) (m : Saved) → Framed s u m → revert_to_checkpoint u ≡ some (restored s u m)
  unfolding revert_to_checkpoint known restored
  revert-Framed s u m f =
      subst (λ t. revert_to_checkpoint t ≡ some (restored s u m)) (Framed-known s u m f) refl

  restored-slots :
      (s u : State) (m : Saved)
      → Framed s u m
      → (a : AddressWithSpace) → GoodSlot s.db a (lookup a (restored s u m).cache)
  unfolding restored
  restored-slots s u m f a =
      subst (GoodSlot s.db a) (sym (lookup-restored a m u.cache f.saved.unique)) (
        undo-GoodSlot s.db a (lookup a m) (lookup a u.cache) (λ w q. f.saved.good a w q)
          (f.slots a))

  -- A caller cannot tell the state after the revert from the one before the frame.
  restored-view :
      (s u : State) (m : Saved)
      → Framed s u m
      → (a : AddressWithSpace) → view (restored s u m) a ≡ view s a
  unfolding restored
  restored-view s u m f a =
      ap (slot_view s.db a) (lookup-restored a m u.cache f.saved.unique) ∙ f.views a

  restored-Step : (s u : State) (m : Saved) → IsValid s → Framed s u m → Step s (restored s u m)
  unfolding restored
  restored-Step s u m h f = record {
    db = refl;
    saved_statistics = refl;
    rest = refl;
    opened = refl;
    valid = record {
      slots = slots-IsGood (restored s u m) s.db (restored-slots s u m f);
      saved = h.saved;
    };
    undone = λ o a.
        undo-same s.db a (lookup a (top s.checkpoints)) _ (lookup a s.cache)
          (λ w. mark-good s.db s.checkpoints a w h.saved) (restored-slots s u m f a)
          (valid-GoodSlot s a h) (restored-view s u m f a);
  }

  restored-Same : (s u : State) (m : Saved) → Framed s u m → Same s (restored s u m)
  unfolding restored
  restored-Same s u m f = record {
    db = refl;
    statistics = refl;
    saved_statistics = refl;
    checkpoints = refl;
    views = restored-view s u m f;
  }

  -- A revert of a frame succeeds, and leaves the state that a caller found before the frame.
  pub revert-Step :
      (s u : State)
      → IsValid s
      → Step (checkpoint s).1 u
      → (v : State) × (revert_to_checkpoint u ≡ some v) × Step s v × Same s v
  revert-Step s u h st =
      let (m, f) = framed s u h st in
      (restored s u m, revert-Framed s u m f, restored-Step s u m h f, restored-Same s u m f)
