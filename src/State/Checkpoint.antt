-- ===== src/State/Checkpoint.antt =====
-- Checkpoints: `impl CheckpointTrait for State` in src/state/mod.rs.
use cfx_evm.Base.{
  ℕ, List, [], ◌∷◌, Option, none, some, if◌then◌else◌, length, lookup, insert, or_insert, remove,
  drain_into,
}
use cfx_evm.Primitives.{AddressWithSpace, address_eq}
use cfx_evm.State.Account.{AccountEntry, is_dirty, overwrite_with}
use cfx_evm.State.Types.{Cache, Saved, State}

-- The index of the new checkpoint, and the state.
unfoldable pub checkpoint : State → ℕ × State
checkpoint s = (
  length s.checkpoints,
  record s {
    world_statistics_checkpoints = s.world_statistics ∷ s.world_statistics_checkpoints;
    checkpoints = [] ∷ s.checkpoints;
  },
)

abbrev pub tail {ℓ} : {A : Type ℓ} → List A → List A
tail [] = []
tail (x ∷ xs) = xs

-- The checkpoint below takes the entries of the last one that it has not saved itself.
unfoldable pub merge_saved : Saved → Saved → Saved
merge_saved last [] = last
merge_saved last (e ∷ prev) = drain_into or_insert last (e ∷ prev)

unfoldable pub merge_checkpoints : List Saved → List Saved
unfolding merge_saved
merge_checkpoints [] = []
merge_checkpoints (last ∷ []) = []
merge_checkpoints (last ∷ prev ∷ rest) = merge_saved last prev ∷ rest

unfoldable pub discard_checkpoint : State → State
unfolding merge_checkpoints
discard_checkpoint s = elim s.checkpoints [
  | [] ↦ s
  | _ ∷ _ ↦ record s {
    world_statistics_checkpoints = tail s.world_statistics_checkpoints;
    checkpoints = merge_checkpoints s.checkpoints;
  }
]

-- One round of the loop in `revert_to_checkpoint`.
unfoldable pub restore_entry : AddressWithSpace → Option AccountEntry → Cache → Cache
unfolding overwrite_with is_dirty
restore_entry a (some v) cache = elim (lookup a cache) [
  | some e ↦ insert a (overwrite_with v e) cache
  | none ↦ insert a v cache
]
restore_entry a none cache = elim (lookup a cache) [
  | some e ↦ if is_dirty e then remove a cache else cache
  | none ↦ cache
]

-- `None` is a panic: the two stacks of checkpoints have the same height.
unfoldable pub revert_to_checkpoint : State → Option State
unfolding restore_entry
revert_to_checkpoint s = elim s.checkpoints [
  | [] ↦ some s
  | m ∷ rest ↦ elim s.world_statistics_checkpoints [
    | [] ↦ none
    | w ∷ ws ↦ some (record s {
      cache = drain_into restore_entry m s.cache;
      world_statistics = w;
      world_statistics_checkpoints = ws;
      checkpoints = rest;
    })
  ]
]
