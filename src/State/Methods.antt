-- ===== src/State/Methods.antt =====
-- Every operation of the state on its own is taken back by a revert.
use cfx_evm.Base.{
  ℕ, ◌≡◌, refl, sym, ◌∙◌, true, false, List, [], ◌∷◌, Option, none, some, if◌then◌else◌, arith,
  ◌==◌, lookup,
}
use mathlib.Core.Path.{subst}
use cfx_evm.Primitives.{AddressWithSpace, address_eq, Keccak, new_empty}
use cfx_evm.StateDb.{Result, ok, err, panic, incomplete_database, Rlp, StateDb}
use cfx_evm.State.Account.{
  OverlayAccount, AccountEntry, StorageLayout, from_loaded, new_basic, new_removed,
  new_contract_account, init_code, set_account_nonce, inc_account_nonce, add_account_balance,
  sub_account_balance, set_account_storage, new_dirty, is_dirty,
}
use cfx_evm.State.Types.{nothing, WorldStatistics, State}
use cfx_evm.State.Monad.{Action, ◌>>=◌, pure, lift}
use cfx_evm.State.Load.{
  save, ensure_account_loaded, require_exists, require_or_new_basic_account, put_account,
  update_cache,
}
use cfx_evm.State.Ops.{
  CleanupMode, force_create, no_empty, track_touched, add_when_closed, is_invalidated, is_some,
  add_total_issued, subtract_total_issued, remove_contract, new_contract, init_account_code,
  clean_account, inc_nonce, set_nonce, exists, take_balance, give_balance, touch_existing,
  sub_balance, add_balance, transfer_balance, storage_at, write_storage, set_storage,
}
use cfx_evm.State.Reads.{IsCached, empty-IsCached}
use cfx_evm.State.View.{slot_view, IsHomed}
use cfx_evm.State.Undo.{saved_view}
use cfx_evm.State.Saves.{save-Step, save-marks}
use cfx_evm.State.Step.{
  valid-GoodSlot, Step, Steps, IsUndoable, Step_refl, Step-trans, >>=-IsUndoable, pure-IsUndoable,
  if-IsUndoable, if-Steps,
}
use cfx_evm.State.Loads.{storage_at-IsUndoable, ensure_account_loaded-IsUndoable}
use cfx_evm.State.Writes.{IsSaved, write-Step, IsHeld, put_account-Step, require_or_set-IsUndoable}

module _ ⦃k : Keccak⦄ ⦃rlp : Rlp⦄ where
  -- The statistics are saved by every checkpoint, so a change of them is a step.
  statistics-Step : (s : State) (w : WorldStatistics) → Steps s (record s { world_statistics = w })
  statistics-Step s w h = record {
    db = refl;
    saved_statistics = refl;
    rest = refl;
    opened = refl;
    valid = record { slots = h.slots; saved = h.saved };
    undone = λ o a. refl;
  }

  pub subtract_total_issued-IsUndoable : (v : ℕ) → IsUndoable (subtract_total_issued v)
  unfolding subtract_total_issued
  subtract_total_issued-IsUndoable v s = statistics-Step s _

  pub add_total_issued-IsUndoable : (v : ℕ) → IsUndoable (add_total_issued v)
  unfolding add_total_issued
  add_total_issued-IsUndoable v s = go s.world_statistics_checkpoints
    where
      go : (ws : List WorldStatistics) → Steps s (add_when_closed v ws s).1
      go [] = if-Steps s _ (ok tt, _) (panic, s) (statistics-Step s _) (Step_refl s)
      go (w ∷ ws) = Step_refl s

  -- A write that takes an existing account, and one that makes a basic account where there is none.
  exists_write :
      {B : Type 0} (a : AddressWithSpace) (f : OverlayAccount → Action B)
      → ((acc : OverlayAccount) (s : State)
          → IsHomed s.db a (some acc)
          → IsHeld a s
          → Steps s (f acc s).1)
      → IsUndoable (require_exists a false >>= f)
  unfolding require_exists
  exists_write a f keep =
      require_or_set-IsUndoable a false (err (incomplete_database a.address)) f
        (λ db acc q. absurd (cc)) keep

  basic_write :
      {B : Type 0} (a : AddressWithSpace) (start : ℕ) (f : OverlayAccount → Action B)
      → ((acc : OverlayAccount) (s : State)
          → IsHomed s.db a (some acc)
          → IsHeld a s
          → Steps s (f acc s).1)
      → IsUndoable (require_or_new_basic_account a start >>= f)
  unfolding require_or_new_basic_account new_basic
  basic_write a start f keep =
      require_or_set-IsUndoable a false (ok (new_basic a 0 start)) f
        (λ db acc q.
          let e : new_basic a 0 start ≡ acc = cc in
          subst (λ x. IsHomed db a (some x)) e (refl, empty-IsCached db a))
        keep

  -- A write of a computed account: it keeps the address, or the computation fails.
  lift_put :
      (a : AddressWithSpace) (r : Result OverlayAccount) (s : State)
      → ((acc : OverlayAccount) → r ≡ ok acc → IsHomed s.db a (some acc))
      → IsHeld a s
      → Steps s ((lift r >>= put_account a) s).1
  lift_put a (ok acc) s h held = put_account-Step s a acc held (h acc refl)
  lift_put a (err e) s h held = Step_refl s
  lift_put a panic s h held = Step_refl s

  -- The computations on one account keep its address and its read cache.
  keeps-IsHomed :
      (db : StateDb) (a : AddressWithSpace) (acc acc' : OverlayAccount)
      → acc'.address ≡ acc.address
      → acc'.storage_value_read_cache ≡ acc.storage_value_read_cache
      → IsHomed db a (some acc)
      → IsHomed db a (some acc')
  keeps-IsHomed db a acc acc' e r h = (e ∙ h.0, subst (IsCached db a) (sym r) h.1)

  inc_nonce-IsHomed :
      (db : StateDb) (a : AddressWithSpace) (acc acc' : OverlayAccount)
      → inc_account_nonce acc ≡ ok acc'
      → IsHomed db a (some acc)
      → IsHomed db a (some acc')
  unfolding inc_account_nonce
  inc_nonce-IsHomed db a acc acc' q = keeps-IsHomed db a acc acc' (ground arith) (ground arith)

  add_balance-IsHomed :
      (db : StateDb) (a : AddressWithSpace) (by : ℕ) (acc acc' : OverlayAccount)
      → add_account_balance by acc ≡ ok acc'
      → IsHomed db a (some acc)
      → IsHomed db a (some acc')
  unfolding add_account_balance
  add_balance-IsHomed db a by acc acc' q = keeps-IsHomed db a acc acc' (ground arith) (ground arith)

  sub_balance-IsHomed :
      (db : StateDb) (a : AddressWithSpace) (by : ℕ) (acc acc' : OverlayAccount)
      → sub_account_balance by acc ≡ ok acc'
      → IsHomed db a (some acc)
      → IsHomed db a (some acc')
  unfolding sub_account_balance
  sub_balance-IsHomed db a by acc acc' q = keeps-IsHomed db a acc acc' (ground arith) (ground arith)

  pub init_account_code-IsUndoable :
      (a : AddressWithSpace) (c : List ℕ) → IsUndoable (init_account_code a c)
  unfolding init_account_code init_code
  init_account_code-IsUndoable a c =
      exists_write a _ (λ acc s h held. put_account-Step s a (init_code c acc) held h)

  pub clean_account-IsUndoable : (a : AddressWithSpace) → IsUndoable (clean_account a)
  unfolding clean_account from_loaded
  clean_account-IsUndoable a = basic_write a 0 _ (λ acc s h held.
      put_account-Step s a (from_loaded a (new_empty a)) held (refl, empty-IsCached s.db a))

  pub inc_nonce-IsUndoable : (a : AddressWithSpace) (start : ℕ) → IsUndoable (inc_nonce a start)
  unfolding inc_nonce
  inc_nonce-IsUndoable a start = basic_write a start _ (λ acc s h held.
      lift_put a (inc_account_nonce acc) s (λ x q. inc_nonce-IsHomed s.db a acc x q h) held)

  pub set_nonce-IsUndoable : (a : AddressWithSpace) (n : ℕ) → IsUndoable (set_nonce a n)
  unfolding set_nonce set_account_nonce
  set_nonce-IsUndoable a n =
      basic_write a n _ (λ acc s h held. put_account-Step s a (set_account_nonce n acc) held h)

  take_balance-IsUndoable : (a : AddressWithSpace) (by : ℕ) → IsUndoable (take_balance a by)
  unfolding take_balance
  take_balance-IsUndoable a by = exists_write a _ (λ acc s h held.
      lift_put a (sub_account_balance by acc) s (λ x q. sub_balance-IsHomed s.db a by acc x q h)
        held)

  give_balance-IsUndoable :
      (a : AddressWithSpace) (by start : ℕ) → IsUndoable (give_balance a by start)
  unfolding give_balance
  give_balance-IsUndoable a by start = basic_write a start _ (λ acc s h held.
      lift_put a (add_account_balance by acc) s (λ x q. add_balance-IsHomed s.db a by acc x q h)
        held)

  write_storage-IsUndoable :
      (a : AddressWithSpace) (key : List ℕ) (v : ℕ) → IsUndoable (write_storage a key v)
  unfolding write_storage set_account_storage
  write_storage-IsUndoable a key v =
      exists_write a _ (λ acc s h held. put_account-Step s a (set_account_storage key v acc) held h)

  exists-IsUndoable : (a : AddressWithSpace) → IsUndoable (exists a)
  unfolding exists
  exists-IsUndoable a = ensure_account_loaded-IsUndoable a nothing is_some

  touch_existing-IsUndoable :
      (a : AddressWithSpace) (mode : CleanupMode) → IsUndoable (touch_existing a mode)
  unfolding touch_existing
  touch_existing-IsUndoable a (track_touched set) =
      >>=-IsUndoable (exists a) _ (exists-IsUndoable a) (λ there t. Step_refl t)
  touch_existing-IsUndoable a force_create = pure-IsUndoable force_create
  touch_existing-IsUndoable a no_empty = pure-IsUndoable no_empty

  pub sub_balance-IsUndoable :
      (a : AddressWithSpace) (by : ℕ) (mode : CleanupMode) → IsUndoable (sub_balance a by mode)
  unfolding sub_balance
  sub_balance-IsUndoable a by mode =
      >>=-IsUndoable (if by == 0 then pure tt else take_balance a by) (λ _. touch_existing a mode)
        (if-IsUndoable (by == 0) (pure tt) (take_balance a by) (pure-IsUndoable tt)
          (take_balance-IsUndoable a by))
        (λ _. touch_existing-IsUndoable a mode)

  pub add_balance-IsUndoable :
      (a : AddressWithSpace) (by : ℕ) (mode : CleanupMode) (start : ℕ)
      → IsUndoable (add_balance a by mode start)
  unfolding add_balance
  add_balance-IsUndoable a by mode start =
      >>=-IsUndoable (exists a) _ (exists-IsUndoable a) (λ there.
        >>=-IsUndoable (if _ then give_balance a by start else pure tt) (λ _. _)
          (if-IsUndoable _ (give_balance a by start) (pure tt) (give_balance-IsUndoable a by start)
            (pure-IsUndoable tt))
          (λ _ t. Step_refl t))

  pub transfer_balance-IsUndoable :
      (from to : AddressWithSpace) (by : ℕ) (mode : CleanupMode) (start : ℕ)
      → IsUndoable (transfer_balance from to by mode start)
  unfolding transfer_balance
  transfer_balance-IsUndoable from to by mode start =
      >>=-IsUndoable (sub_balance from by mode) _ (sub_balance-IsUndoable from by mode)
        (λ mode'. add_balance-IsUndoable to by mode' start)

  pub set_storage-IsUndoable :
      (a : AddressWithSpace) (key : List ℕ) (v : ℕ) → IsUndoable (set_storage a key v)
  unfolding set_storage
  set_storage-IsUndoable a key v =
      >>=-IsUndoable (storage_at a key) _ (storage_at-IsUndoable a key) (λ old.
        if-IsUndoable (old == v) (pure tt) (write_storage a key v) (pure-IsUndoable tt)
          (write_storage-IsUndoable a key v))

  -- `update_cache` with a dirty entry: the old slot is saved, and replaced.
  update_cache-Step :
      (s : State) (a : AddressWithSpace) (e : AccountEntry)
      → is_dirty e ≡ true
      → IsHomed s.db a e.account
      → Steps s (update_cache a e s)
  unfolding update_cache
  update_cache-Step s a e d h v = rw d (Step-trans saved (write-Step t a e marked d h))
    where
      t : State
      t = record s { checkpoints = save a (lookup a s.cache) s.checkpoints }

      same : (o : Option AccountEntry) → slot_view s.db a o ≡ saved_view s.db a o
      same none = refl
      same (some x) = refl

      saved : Step s t
      saved = save-Step s a (lookup a s.cache) (valid-GoodSlot s a v) (same (lookup a s.cache)) v

      marked : IsSaved a t
      marked = save-marks a (lookup a s.cache) s.checkpoints

  pub remove_contract-IsUndoable : (a : AddressWithSpace) → IsUndoable (remove_contract a)
  unfolding remove_contract new_dirty new_removed is_dirty
  remove_contract-IsUndoable a s =
      update_cache-Step s a (new_dirty (some (new_removed a))) refl (refl, empty-IsCached s.db a)

  pub new_contract-IsUndoable :
      (a : AddressWithSpace) (b n : ℕ) (layout : Option StorageLayout)
      → IsUndoable (new_contract a b n layout)
  unfolding new_contract new_dirty new_contract_account is_dirty
  new_contract-IsUndoable a b n layout =
      >>=-IsUndoable (ensure_account_loaded a nothing is_invalidated) _
        (ensure_account_loaded-IsUndoable a nothing is_invalidated)
        (λ i s.
          update_cache-Step s a (new_dirty (some (new_contract_account a b n i layout))) refl
            (refl, empty-IsCached s.db a))
