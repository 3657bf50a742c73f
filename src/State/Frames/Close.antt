-- ===== src/State/Frames/Close.antt =====
-- What a frame leaves, and how discard_checkpoint merges its checkpoint: src/state/mod.rs.
use cfx_evm.Base.{◌≡◌, refl, sym, ap, ◌∙◌, true, List, [], ◌∷◌, Option, none, some, lookup}
use mathlib.Core.Path.{subst}
use cfx_evm.Primitives.{AddressWithSpace, address_eq, Keccak}
use cfx_evm.StateDb.{Rlp, StateDb}
use cfx_evm.State.Account.{AccountEntry}
use cfx_evm.State.Types.{Saved, State}
use cfx_evm.State.Checkpoint.{tail, checkpoint, merge_saved, merge_checkpoints, discard_checkpoint}
use cfx_evm.State.View.{
  slot_view, undo, top, is_nonempty, view, IsGood, IsGoodSaved, AllSaved, IsValid,
}
use cfx_evm.State.Undo.{GoodSlot, undo_saved}
use cfx_evm.State.Step.{Step, valid-GoodSlot, mark-good}
use cfx_evm.State.Frames.Slots.{or_else, lookup-merge_saved, merge_saved-Unique}

module _ ⦃k : Keccak⦄ ⦃rlp : Rlp⦄ where
  -- A new checkpoint keeps the invariant, and would be reverted to the state that it is opened on.
  pub checkpoint-IsValid : (s : State) → IsValid s → IsValid (checkpoint s).1
  unfolding checkpoint lookup
  checkpoint-IsValid s h = record {
    slots = h.slots;
    saved = (record { unique = tt; good = λ a v q. absurd (cc) }, h.saved);
  }

  -- What the steps of a frame leave: the checkpoint of the frame on top of the others.
  pub record Framed (s u : State) (m : Saved) : Type 0 where
    pub db : u.db ≡ s.db
    pub statistics :
        u.world_statistics_checkpoints ≡ s.world_statistics ∷ s.world_statistics_checkpoints
    pub checkpoints : u.checkpoints ≡ m ∷ s.checkpoints
    pub slots : (a : AddressWithSpace) → GoodSlot s.db a (lookup a u.cache)
    pub saved : IsGoodSaved s.db m
    pub views :
        (a : AddressWithSpace) → slot_view s.db a (undo (lookup a m) (lookup a u.cache)) ≡ view s a

  pub framed : (s u : State) → IsValid s → Step (checkpoint s).1 u → (m : Saved) × Framed s u m
  unfolding checkpoint lookup
  framed s u h st = go u.checkpoints refl
    where
      opened : (ms : List Saved) → u.checkpoints ≡ ms → is_nonempty ms ≡ true
      opened ms q = subst (λ ms. is_nonempty ms ≡ true) q st.opened

      saved : (ms : List Saved) → u.checkpoints ≡ ms → AllSaved s.db ms
      saved ms q =
          subst (AllSaved s.db) q (subst (λ d. AllSaved d u.checkpoints) st.db st.valid.saved)

      views :
          (ms : List Saved) (a : AddressWithSpace)
          → u.checkpoints ≡ ms
          → slot_view s.db a (undo (lookup a (top ms)) (lookup a u.cache)) ≡ view s a
      views ms a q =
          subst (λ ms. slot_view s.db a (undo (lookup a (top ms)) (lookup a u.cache)) ≡ view s a) q
            (subst
              (λ d.
                slot_view d a (undo (lookup a (top u.checkpoints)) (lookup a u.cache)) ≡ view s a)
              st.db (st.undone refl a))

      go : (ms : List Saved) → u.checkpoints ≡ ms → (m : Saved) × Framed s u m
      go [] q = absurd (let o = opened [] q in cc)
      go (m ∷ ms) q = (
        m,
        record {
          db = st.db;
          statistics = st.saved_statistics;
          checkpoints = q ∙ ap (λ r. m ∷ r) (sym (ap tail q) ∙ st.rest);
          slots =
              λ a. subst (λ d. GoodSlot d a (lookup a u.cache)) st.db (valid-GoodSlot u a st.valid);
          saved = (saved (m ∷ ms) q).0;
          views = λ a. views (m ∷ ms) a q;
        },
      )

  -- The checkpoint below a frame that was kept: what it saved itself, or else what the frame saved.
  kept_saved :
      (db : StateDb) (m prev : Saved)
      → IsGoodSaved db m
      → IsGoodSaved db prev
      → IsGoodSaved db (merge_saved m prev)
  kept_saved db m prev g h = record {
    unique = merge_saved-Unique m prev g.unique h.unique;
    good = λ a v q. go a v (lookup a prev) refl (sym (lookup-merge_saved a m prev g.unique) ∙ q);
  }
    where
      go :
          (a : AddressWithSpace) (v : AccountEntry) (mark : Option (Option AccountEntry))
          → lookup a prev ≡ mark
          → or_else mark (lookup a m) ≡ some (some v)
          → IsGood db a v
      go a v none r q = g.good a v q
      go a v (some w) r q = h.good a v (r ∙ q)

  kept_undone :
      (s u : State) (m prev : Saved) (a : AddressWithSpace)
      → IsValid s
      → Framed s u m
      → IsGoodSaved s.db prev
      → slot_view s.db a (undo (lookup a (merge_saved m prev)) (lookup a u.cache))
        ≡ slot_view s.db a (undo (lookup a prev) (lookup a s.cache))
  kept_undone s u m prev a h f g =
      ap (λ mark. slot_view s.db a (undo mark (lookup a u.cache)))
        (lookup-merge_saved a m prev f.saved.unique)
      ∙ go (lookup a prev) refl
    where
      go :
          (mark : Option (Option AccountEntry))
          → lookup a prev ≡ mark
          → slot_view s.db a (undo (or_else mark (lookup a m)) (lookup a u.cache))
            ≡ slot_view s.db a (undo mark (lookup a s.cache))
      go none q = f.views a
      go (some w) q =
          undo_saved s.db a w (lookup a u.cache) good (f.slots a)
          ∙ sym (undo_saved s.db a w (lookup a s.cache) good (valid-GoodSlot s a h))
        where
          good : GoodSlot s.db a w
          good = mark-good s.db (prev ∷ []) a w (g, tt) q

  -- The invariant from the slots of every address.
  pub slots-IsGood :
      (s : State) (db : StateDb)
      → ((a : AddressWithSpace) → GoodSlot db a (lookup a s.cache))
      → (a : AddressWithSpace) (e : AccountEntry) → lookup a s.cache ≡ some e
      → IsGood db a e
  slots-IsGood s db h a e q = subst (GoodSlot db a) q (h a)

  -- A framed state, with what is known of its parts put in.
  unfoldable pub known : State → State → Saved → State
  known s u m = record u {
    db = s.db;
    world_statistics_checkpoints = s.world_statistics ∷ s.world_statistics_checkpoints;
    checkpoints = m ∷ s.checkpoints;
  }

  pub Framed-known : (s u : State) (m : Saved) → Framed s u m → known s u m ≡ u
  unfolding known
  Framed-known s u m f i = record u {
    db = sym f.db i;
    world_statistics_checkpoints = sym f.statistics i;
    checkpoints = sym f.checkpoints i;
  }

  -- Keeping a frame is a step of the state below it.
  pub kept-Step :
      (s u : State) → IsValid s → Step (checkpoint s).1 u → Step s (discard_checkpoint u)
  unfolding discard_checkpoint merge_checkpoints known
  kept-Step s u h st =
      let (m, f) = framed s u h st in
      subst (λ t. Step s (discard_checkpoint t)) (Framed-known s u m f)
        (go m f s.checkpoints refl h.saved)
    where
      go :
          (m : Saved)
          → Framed s u m
          → (ms : List Saved) → ms ≡ s.checkpoints
          → AllSaved s.db ms
          → Step s (discard_checkpoint (record (known s u m) { checkpoints = m ∷ ms }))
      go m f [] q g = record {
        db = refl;
        saved_statistics = refl;
        rest = ap tail q;
        opened = ap is_nonempty q;
        valid = record { slots = slots-IsGood u s.db f.slots; saved = tt };
        undone = λ o a. absurd (let p : is_nonempty [] ≡ true = ap is_nonempty q ∙ o in cc);
      }
      go m f (prev ∷ ms) q g = record {
        db = refl;
        saved_statistics = refl;
        rest = ap tail q;
        opened = ap is_nonempty q;
        valid = record {
          slots = slots-IsGood u s.db f.slots;
          saved = (kept_saved s.db m prev f.saved g.0, g.1);
        };
        undone = λ o a.
            kept_undone s u m prev a h f g.0
            ∙ ap (λ ms. slot_view s.db a (undo (lookup a (top ms)) (lookup a s.cache))) q;
      }
