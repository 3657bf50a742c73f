-- ===== src/State/Writes.antt =====
-- Taking an account for a write, and the write, are steps that a revert takes back.
use cfx_evm.Base.{
  ◌≡◌, ◌≢◌, refl, sym, ap, ◌∙◌, Bool, true, false, Option, none, some, if◌then◌else◌, lookup,
  insert, contains_key, lookup-insert_self,
}
use cfx_evm.Primitives.{⊤, AddressWithSpace, address_eq, Keccak}
use mathlib.Core.Path.{subst}
use cfx_evm.StateDb.{Result, ok, err, panic, Rlp, StateDb}
use cfx_evm.State.Account.{OverlayAccount, AccountEntry, dirty, is_dirty, clone_dirty_entry}
use cfx_evm.State.Types.{nothing, code, State}
use cfx_evm.State.Monad.{Action, ◌>>=◌, continue}
use cfx_evm.State.Load.{
  set_cache, update_account_cache, load_required, load_account, save_to_checkpoint, account_or,
  store_required, fill_entry, take_entry, require_or_set, code_found, put_account, put_slot,
  take_slot,
}
use cfx_evm.State.View.{slot_view, top, is_open, IsHomed, IsValid}
use cfx_evm.State.Undo.{GoodSlot, saved_view, view-clone, clone-IsGood}
use cfx_evm.State.Step.{
  Step, Steps, IsUndoable, if-Steps, Step_refl, Step-trans, valid-GoodSlot, set_slot-Step,
}
use cfx_evm.State.Saves.{save-Step, save-marks}
use cfx_evm.State.Loads.{update_account_cache-IsHomed, load_required-IsUndoable}

module _ ⦃k : Keccak⦄ ⦃rlp : Rlp⦄ where
  load_account-IsUndoable : (a : AddressWithSpace) → IsUndoable (load_account a)
  unfolding load_account
  load_account-IsUndoable a s =
      if-Steps s (contains_key a s.cache) (ok tt, s) (load_required a nothing s) (Step_refl s)
        (load_required-IsUndoable a nothing s)

  -- The last checkpoint, if one is open, has saved the address.
  abbrev pub IsSaved : AddressWithSpace → State → Type 0
  IsSaved a s = is_open s ≡ true → lookup a (top s.checkpoints) ≢ none

  -- The state of a caller that holds the guard of `require_or_set`.
  pub record IsHeld (a : AddressWithSpace) (s : State) : Type 0 where
    pub saved : IsSaved a s
    pub entry : AccountEntry
    pub present : lookup a s.cache ≡ some entry
    pub dirty : is_dirty entry ≡ true

  cloned : Option AccountEntry → Option AccountEntry
  cloned o = elim o [ none ↦ none | some e ↦ some (clone_dirty_entry e) ]

  save_to_checkpoint-Step : (s : State) (a : AddressWithSpace) → Steps s (save_to_checkpoint a s)
  unfolding save_to_checkpoint cloned
  save_to_checkpoint-Step s a h =
      save-Step s a (cloned (lookup a s.cache)) (good (lookup a s.cache) (valid-GoodSlot s a h))
        (same (lookup a s.cache)) h
    where
      good : (o : Option AccountEntry) → GoodSlot s.db a o → GoodSlot s.db a (cloned o)
      good none g = tt
      good (some e) g = clone-IsGood s.db a e g

      same : (o : Option AccountEntry) → slot_view s.db a o ≡ saved_view s.db a (cloned o)
      same none = refl
      same (some e) = sym (view-clone s.db a e)

  save_to_checkpoint-IsSaved :
      (s : State) (a : AddressWithSpace) → IsSaved a (save_to_checkpoint a s)
  unfolding save_to_checkpoint cloned
  save_to_checkpoint-IsSaved s a = save-marks a (cloned (lookup a s.cache)) s.checkpoints

  -- A dirty entry of the right address may be written where the checkpoint has saved the address.
  pub write-Step :
      (s : State) (a : AddressWithSpace) (e : AccountEntry)
      → IsSaved a s
      → is_dirty e ≡ true
      → IsHomed s.db a e.account
      → Steps s (set_cache (insert a e s.cache) s)
  write-Step s a e saved d h =
      set_slot-Step s a e (record { homed = h; clean = λ c. absurd_bool (sym d ∙ c) })
        (λ o q. absurd (saved o q))
    where
      absurd_bool : {A : Type 0} → true ≡ false → A
      absurd_bool q = cc

  pub put_account-Step :
      (s : State) (a : AddressWithSpace) (acc : OverlayAccount)
      → IsHeld a s
      → IsHomed s.db a (some acc)
      → Steps s (put_account a acc s).1
  unfolding put_account is_dirty
  put_account-Step s a acc held h = go (lookup a s.cache) refl
    where
      some_eq : {x y : AccountEntry} → ◌≡◌ {A = Option AccountEntry} (some x) (some y) → x ≡ y
      some_eq q = cc

      go :
          (slot : Option AccountEntry) → lookup a s.cache ≡ slot → Steps s (put_slot a acc slot s).1
      go none q = Step_refl s
      go (some e) q =
          write-Step s a (record e { account = some acc }) held.saved
            (ap is_dirty (some_eq (sym q ∙ held.present)) ∙ held.dirty) h

  -- What `take_entry` hands to its caller: a step, and with an account the guard.
  Taken : AddressWithSpace → State → Result OverlayAccount × State → Type 0
  Taken a s (ok acc, t) = Step s t × IsHeld a t × IsHomed t.db a (some acc)
  Taken a s (err e, t) = Step s t
  Taken a s (panic, t) = Step s t

  store_required-Taken :
      (s : State) (a : AddressWithSpace) (require_code : Bool) (e : AccountEntry)
      (acc : OverlayAccount)
      → IsSaved a s
      → IsHomed s.db a (some acc)
      → IsValid s
      → Taken a s (store_required a require_code e acc s)
  unfolding Taken is_dirty
  store_required-Taken s a require_code e acc saved h v =
      go (update_account_cache (if require_code then code else nothing) acc s.db).0
    where
      acc' : OverlayAccount
      acc' = (update_account_cache (if require_code then code else nothing) acc s.db).1

      homed : IsHomed s.db a (some acc')
      homed = update_account_cache-IsHomed (if require_code then code else nothing) a acc s.db h

      e' : AccountEntry
      e' = record e { state = dirty; account = some acc' }

      step : Step s (set_cache (insert a e' s.cache) s)
      step = write-Step s a e' saved refl homed v

      held : IsHeld a (set_cache (insert a e' s.cache) s)
      held = record {
        saved = saved;
        entry = e';
        present = lookup-insert_self a e' s.cache;
        dirty = refl;
      }

      go : (r : Result Bool) → Taken a s (code_found a acc' r, set_cache (insert a e' s.cache) s)
      go (ok true) = (step, held, homed)
      go (ok false) = step
      go (err x) = step
      go panic = step

  take_entry-Taken :
      (s : State) (a : AddressWithSpace) (require_code : Bool) (default : Result OverlayAccount)
      → ((acc : OverlayAccount) → default ≡ ok acc → IsHomed s.db a (some acc))
      → IsSaved a s
      → IsValid s
      → Taken a s (take_entry a require_code default s)
  unfolding take_entry Taken is_dirty
  take_entry-Taken s a require_code default homed saved v = go (lookup a s.cache) refl
    where
      fill :
          (e : AccountEntry) (r : Result OverlayAccount)
          → ((acc : OverlayAccount) → r ≡ ok acc → IsHomed s.db a (some acc))
          → IsHomed s.db a e.account
          → Taken a s (fill_entry a require_code e r s)
      fill e (ok acc) h g = store_required-Taken s a require_code e acc saved (h acc refl) v
      fill e (err x) h g = write-Step s a (record e { state = dirty }) saved refl g v
      fill e panic h g = Step_refl s v

      default_homed :
          (o : Option OverlayAccount)
          → IsHomed s.db a o
          → (acc : OverlayAccount) → account_or default o ≡ ok acc
          → IsHomed s.db a (some acc)
      default_homed none h acc q = homed acc q
      default_homed (some x) h acc q =
          let eq : x ≡ acc = cc in subst (λ (y : OverlayAccount). IsHomed s.db a (some y)) eq h

      go :
          (slot : Option AccountEntry)
          → lookup a s.cache ≡ slot
          → Taken a s (take_slot a require_code default slot s)
      go none q = Step_refl s v
      go (some e) q =
          fill e (account_or default e.account) (default_homed e.account ((v.slots a e q).homed))
            ((v.slots a e q).homed)

  -- A method that takes an account for a write, and then does what keeps to the guard, is undone.
  pub require_or_set-IsUndoable :
      {B : Type 0} (a : AddressWithSpace) (require_code : Bool) (default : Result OverlayAccount)
      (f : OverlayAccount → Action B)
      → ((db : StateDb) (acc : OverlayAccount) → default ≡ ok acc → IsHomed db a (some acc))
      → ((acc : OverlayAccount) (s : State)
          → IsHomed s.db a (some acc)
          → IsHeld a s
          → Steps s (f acc s).1)
      → IsUndoable (require_or_set a require_code default >>= f)
  unfolding require_or_set Taken
  require_or_set-IsUndoable {B} a require_code default f homed keep s v =
      loaded (load_account a s) (load_account-IsUndoable a s v)
    where
      taken :
          (t : State)
          → (r : Result OverlayAccount × State) → Step s t
          → Taken a t r
          → Step s (continue f r).1
      taken t (ok acc, u) st (p, held, h) = Step-trans (Step-trans st (λ _. p)) (keep acc u h held)
      taken t (err e, u) st p = Step-trans st (λ _. p)
      taken t (panic, u) st p = Step-trans st (λ _. p)

      loaded :
          (r : Result ⊤ × State)
          → Step s r.1
          → Step s
              (continue f
                (continue (λ _ t. take_entry a require_code default (save_to_checkpoint a t)) r)).1
      loaded (ok _, t) st =
          let st' : Step s (save_to_checkpoint a t) = Step-trans st (save_to_checkpoint-Step t a) in
          taken (save_to_checkpoint a t)
            (take_entry a require_code default (save_to_checkpoint a t)) st'
            (take_entry-Taken (save_to_checkpoint a t) a require_code default (homed t.db)
              (save_to_checkpoint-IsSaved t a) st'.valid)
      loaded (err e, t) st = st
      loaded (panic, t) st = st
