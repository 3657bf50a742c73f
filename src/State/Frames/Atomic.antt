-- ===== src/State/Frames/Atomic.antt =====
-- Frames are atomic: checkpoint, discard_checkpoint and revert_to_checkpoint of src/state/mod.rs
-- around any run of operations and inner frames.
use cfx_evm.Base.{ℕ, suc, lookup, ◌≡◌, refl, sym, ap, ◌∙◌, List, [], ◌∷◌, length, Option, some}
use mathlib.Core.Path.{subst}
use cfx_evm.Primitives.{address_eq, Keccak}
use cfx_evm.StateDb.{Rlp, StateDb, Result, Result_map, ok, err, panic, get_total_issued_tokens}
use cfx_evm.State.Types.{Saved, State}
use cfx_evm.State.Checkpoint.{tail, checkpoint, revert_to_checkpoint}
use cfx_evm.State.New.{fresh, new_state}
use cfx_evm.State.View.{IsValid, Same, is_nonempty}
use cfx_evm.State.Step.{Step, Steps, Step_refl, Step-trans}
use cfx_evm.State.Frames.{Runs, here, call, kept, reverted}
use cfx_evm.State.Frames.Calls.{perform-Steps}
use cfx_evm.State.Frames.Close.{checkpoint-IsValid, kept-Step}
use cfx_evm.State.Frames.Restore.{revert-Step}

module _ ⦃k : Keccak⦄ ⦃rlp : Rlp⦄ where
  pub Runs-Steps : {s t : State} → Runs s t → Steps s t
  Runs-Steps {s} here h = Step_refl s h
  Runs-Steps (call {t = t} r c) h = Step-trans (Runs-Steps r h) (perform-Steps c t)
  Runs-Steps (kept {t = t} {u = u} r q) h =
      Step-trans (Runs-Steps r h) (λ g. kept-Step t u g (Runs-Steps q (checkpoint-IsValid t g)))
  Runs-Steps (reverted {t = t} {u = u} {v = v} r q e) h = Step-trans (Runs-Steps r h) (λ g.
      let (w, p, st, same) = revert-Step t u g (Runs-Steps q (checkpoint-IsValid t g)) in
      subst (Step t) (some_eq (sym p ∙ e)) st)
    where
      some_eq : {x y : State} → ◌≡◌ {A = Option State} (some x) (some y) → x ≡ y
      some_eq q = cc

  -- If a checkpoint is opened on a valid state, then after any run of operations and of inner
  -- frames, each kept or reverted, the revert to the checkpoint succeeds, and the state it leaves
  -- has the database, the statistics, the open checkpoints and at every address the account that
  -- the state had before the checkpoint, with the value that a read of each storage slot returns.
  pub revert-checkpoint :
      (s u : State)
      → IsValid s
      → Runs (checkpoint s).1 u
      → (v : State) × (revert_to_checkpoint u ≡ some v) × Same s v
  revert-checkpoint s u h r =
      let (v, p, st, same) = revert-Step s u h (Runs-Steps r (checkpoint-IsValid s h)) in
      (v, p, same)

  length-opened :
      (xs ys : List Saved)
      → tail xs ≡ tail ys
      → is_nonempty xs ≡ is_nonempty ys
      → length xs ≡ length ys
  length-opened [] [] e o = refl
  length-opened [] (y ∷ ys) e o = absurd (cc)
  length-opened (x ∷ xs) [] e o = absurd (cc)
  length-opened (x ∷ xs) (y ∷ ys) e o = ap (λ r. suc (length r)) e

  -- From a valid state, a run does not write the database, leaves as many checkpoints open as there
  -- were, and leaves the checkpoints below the last one and all the saved statistics as they were.
  pub Runs-keep :
      (s t : State)
      → IsValid s
      → Runs s t
      → (t.db ≡ s.db)
        × (t.world_statistics_checkpoints ≡ s.world_statistics_checkpoints)
        × (length t.checkpoints ≡ length s.checkpoints)
        × (tail t.checkpoints ≡ tail s.checkpoints)
  Runs-keep s t h r =
      let st = Runs-Steps r h in
      (
        st.db,
        st.saved_statistics,
        length-opened t.checkpoints s.checkpoints st.rest st.opened,
        st.rest,
      )

  fresh-IsValid : (db : StateDb) (s : State) → new_state db ≡ ok s → IsValid s
  unfolding new_state lookup
  fresh-IsValid db s h = go (get_total_issued_tokens db) h
    where
      ok_eq : {x y : State} → ◌≡◌ {A = Result State} (ok x) (ok y) → x ≡ y
      ok_eq q = cc

      go : (r : Result ℕ) → Result_map (fresh db) r ≡ ok s → IsValid s
      go (ok n) q = subst IsValid (ok_eq q) (record { slots = λ a e r. absurd (cc); saved = tt })
      go (err e) q = absurd (cc)
      go panic q = absurd (cc)

  -- If a state is opened on a database without an error, then any run of operations and of inner
  -- frames from it leaves a state in which every cached entry is filed under the address of its
  -- account, every value in the read cache of its storage is what the database holds for the slot,
  -- and an entry that is not dirty repeats the database as a whole: the account, and what a read of
  -- each storage slot returns.
  pub new_state-IsValid : (db : StateDb) (s t : State) → new_state db ≡ ok s → Runs s t → IsValid t
  new_state-IsValid db s t h r = (Runs-Steps r (fresh-IsValid db s h)).valid
