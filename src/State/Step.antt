-- ===== src/State/Step.antt =====
-- Steps of the state that a revert takes back. They compose, so a method is one if its parts are.
use cfx_evm.Base.{
  ◌≡◌, refl, sym, ap, ◌∙◌, Bool, true, false, List, [], ◌∷◌, Option, none, some, inl, inr,
  if◌then◌else◌, ◌=?◌, lookup, insert, HashMap, lookup-insert, lookup-insert_self, Bool-cases,
  Option-cases,
}
use mathlib.Core.Path.{subst}
use mathlib.Core.Logic.{◌⊎◌}
use cfx_evm.Primitives.{AddressWithSpace, address_eq, address_beq_iff, Keccak}
use cfx_evm.StateDb.{Result, ok, err, panic, Rlp, StateDb}
use cfx_evm.State.Account.{AccountEntry}
use cfx_evm.State.Types.{Saved, State}
use cfx_evm.State.Monad.{Action, ◌>>=◌, continue, pure}
use cfx_evm.State.Load.{set_cache}
use cfx_evm.State.Checkpoint.{tail}
use cfx_evm.State.View.{slot_view, undo, top, is_open, reverted_view, IsGood, AllSaved, IsValid}
use cfx_evm.State.Undo.{GoodSlot, undo_saved}

module _ ⦃k : Keccak⦄ ⦃rlp : Rlp⦄ where
  -- From a valid state, `t` is valid, has the same checkpoints open, and reverts to the same state.
  pub record Step (s t : State) : Type 0 where
    pub db : t.db ≡ s.db
    pub saved_statistics : t.world_statistics_checkpoints ≡ s.world_statistics_checkpoints
    pub rest : tail t.checkpoints ≡ tail s.checkpoints
    pub opened : is_open t ≡ is_open s
    pub valid : IsValid t
    pub undone : is_open s ≡ true → (a : AddressWithSpace) → reverted_view t a ≡ reverted_view s a

  abbrev pub Steps : State → State → Type 0
  Steps s t = IsValid s → Step s t

  -- A method that a revert takes back, however it ends.
  abbrev pub IsUndoable : {A : Type 0} → Action A → Type 0
  IsUndoable m = (s : State) → Steps s (m s).1

  pub Step_refl : (s : State) → Steps s s
  Step_refl s h = record {
    db = refl;
    saved_statistics = refl;
    rest = refl;
    opened = refl;
    valid = h;
    undone = λ o a. refl;
  }

  pub Step-trans : {s t u : State} → Step s t → Steps t u → Step s u
  Step-trans p q = record {
    db = (q p.valid).db ∙ p.db;
    saved_statistics = (q p.valid).saved_statistics ∙ p.saved_statistics;
    rest = (q p.valid).rest ∙ p.rest;
    opened = (q p.valid).opened ∙ p.opened;
    valid = (q p.valid).valid;
    undone = λ o a. (q p.valid).undone (p.opened ∙ o) a ∙ p.undone o a;
  }

  pub >>=-IsUndoable :
      {A B : Type 0} (m : Action A) (f : A → Action B)
      → IsUndoable m
      → ((a : A) → IsUndoable (f a))
      → IsUndoable (m >>= f)
  >>=-IsUndoable {A} m f p q s h = go (m s) (p s h)
    where
      go : (r : Result A × State) → Step s r.1 → Step s (continue f r).1
      go (ok a, t) st = Step-trans st (q a t)
      go (err e, t) st = st
      go (panic, t) st = st

  pub pure-IsUndoable : {A : Type 0} (a : A) → IsUndoable (pure a)
  pure-IsUndoable a s = Step_refl s

  pub if-IsUndoable :
      {A : Type 0} (b : Bool) (m n : Action A)
      → IsUndoable m
      → IsUndoable n
      → IsUndoable (if b then m else n)
  if-IsUndoable true m n p q = p
  if-IsUndoable false m n p q = q

  pub if-Steps :
      {A : Type 0} (s : State) (b : Bool) (p q : Result A × State)
      → Steps s p.1
      → Steps s q.1
      → Steps s (if b then p else q).1
  if-Steps s true p q m n = m
  if-Steps s false p q m n = n

  -- The slot of an address, as the invariant sees it.
  pub valid-GoodSlot :
      (s : State) (a : AddressWithSpace) → IsValid s → GoodSlot s.db a (lookup a s.cache)
  valid-GoodSlot s a h = elim (Option-cases (lookup a s.cache)) [
    | inl e ↦ rw e tt
    | inr (x, e) ↦ rw e (h.slots a x e)
  ]

  pub mark-good :
      (db : StateDb) (ms : List Saved) (a : AddressWithSpace) (v : Option AccountEntry)
      → AllSaved db ms
      → lookup a (top ms) ≡ some v
      → GoodSlot db a v
  unfolding lookup
  mark-good db [] a v h e = absurd (cc)
  mark-good db (m ∷ ms) a none h e = tt
  mark-good db (m ∷ ms) a (some w) h e = h.0.good a w e

  pub address-cases : (b a : AddressWithSpace) → (b ≡ a) ⊎ ((b =? a) ≡ false)
  address-cases b a = elim (Bool-cases (b =? a)) [
    | inl p ↦ inl ((address_beq_iff b a).0 p)
    | inr q ↦ inr q
  ]

  lookup-insert_ne :
      {V : Type 0} (b a : AddressWithSpace) (v : V) (m : HashMap AddressWithSpace V)
      → (b =? a) ≡ false
      → lookup a (insert b v m) ≡ lookup a m
  lookup-insert_ne b a v m q = lookup-insert b a v m ∙ ap (λ t. if t then some v else lookup a m) q

  -- A slot may be given a good entry if the last checkpoint has saved its address, or if nobody can
  -- tell the new entry from the old one.
  module _ (s : State) (b : AddressWithSpace) (e : AccountEntry) where
    set_undone :
        (mark : Option (Option AccountEntry))
        → mark ≡ lookup b (top s.checkpoints)
        → IsValid s
        → IsGood s.db b e
        → (mark ≡ none → slot_view s.db b (some e) ≡ slot_view s.db b (lookup b s.cache))
        → slot_view s.db b (undo mark (some e)) ≡ slot_view s.db b (undo mark (lookup b s.cache))
    set_undone none q h good same = same refl
    set_undone (some v) q h good same =
        undo_saved s.db b v (some e) good_mark good
        ∙ sym (undo_saved s.db b v (lookup b s.cache) good_mark (valid-GoodSlot s b h))
      where
        good_mark : GoodSlot s.db b v
        good_mark = mark-good s.db s.checkpoints b v h.saved (sym q)

    pub set_slot-Step :
        IsGood s.db b e
        → (is_open s ≡ true
            → lookup b (top s.checkpoints) ≡ none
            → slot_view s.db b (some e) ≡ slot_view s.db b (lookup b s.cache))
        → Steps s (set_cache (insert b e s.cache) s)
    set_slot-Step good same h = record {
      db = refl;
      saved_statistics = refl;
      rest = refl;
      opened = refl;
      valid = record { slots = slots; saved = h.saved };
      undone = undone;
    }
      where
        some_eq : {x y : AccountEntry} → ◌≡◌ {A = Option AccountEntry} (some x) (some y) → x ≡ y
        some_eq q = cc

        slots :
            (a : AddressWithSpace) (x : AccountEntry)
            → lookup a (insert b e s.cache) ≡ some x
            → IsGood s.db a x
        slots a x q = elim (address-cases b a) [
          | inl p ↦
              subst (λ c. lookup c (insert b e s.cache) ≡ some x → IsGood s.db c x) p
                (λ r.
                  subst (λ y. IsGood s.db b y) (some_eq (sym (lookup-insert_self b e s.cache) ∙ r))
                    good)
                q
          | inr f ↦ h.slots a x (sym (lookup-insert_ne b a e s.cache f) ∙ q)
        ]

        undone :
            is_open s ≡ true
            → (a : AddressWithSpace)
            → reverted_view (set_cache (insert b e s.cache) s) a ≡ reverted_view s a
        undone o a = elim (address-cases b a) [
          | inl p ↦
              subst (λ c. reverted_view (set_cache (insert b e s.cache) s) c ≡ reverted_view s c) p
                (ap (λ x. slot_view s.db b (undo (lookup b (top s.checkpoints)) x))
                    (lookup-insert_self b e s.cache)
                  ∙ set_undone (lookup b (top s.checkpoints)) refl h good (same o))
          | inr f ↦
              ap (λ x. slot_view s.db a (undo (lookup a (top s.checkpoints)) x))
                (lookup-insert_ne b a e s.cache f)
        ]
