-- ===== src/State/Ops.antt =====
-- The operations of `StateOpsTrait` on the state: src/state/mod.rs.
use cfx_evm.Base.{
  ℕ, ◌+◌, ◌-◌, Bool, true, false, not, ◌&&◌, ◌||◌, List, [], ◌∷◌, Option, none, some, ltb, ◌==◌,
  if◌then◌else◌, ◌=?◌, lookup, insert,
}
use cfx_evm.Primitives.{
  ⊤, u256_mod, AddressWithSpace, address_eq, with_evm_space, Keccak, keccak_empty, CodeInfo,
  code_size, new_empty,
}
use cfx_evm.StateDb.{ok, panic, Rlp}
use cfx_evm.State.Account.{
  AccountEntry, OverlayAccount, StorageLayout, from_loaded, new_contract_account, new_removed,
  is_null, init_code, set_account_nonce, inc_account_nonce, add_account_balance,
  sub_account_balance, set_account_storage, account_storage_at, new_dirty,
}
use cfx_evm.State.Types.{nothing, code, WorldStatistics, State}
use cfx_evm.State.Monad.{Action, ◌>>=◌, ◌>>◌, pure, lift, modify}
use cfx_evm.State.Load.{
  set_cache, ensure_account_loaded, require_exists, require_or_new_basic_account, put_account,
  update_cache,
}

-- `CleanupMode` of backend/state/src/lib.rs. The set behind the reference is part of the value, and
-- an operation returns the mode that it leaves.
pub data CleanupMode : Type 0 where
  force_create : CleanupMode
  no_empty : CleanupMode
  track_touched : List AddressWithSpace → CleanupMode

-- `HashSet::insert`
abbrev pub set_insert : AddressWithSpace → List AddressWithSpace → List AddressWithSpace
set_insert a [] = a ∷ []
set_insert a (b ∷ bs) = if b =? a then b ∷ bs else b ∷ set_insert a bs

abbrev is_force_create : CleanupMode → Bool
is_force_create force_create = true
is_force_create _ = false

abbrev touch : AddressWithSpace → CleanupMode → CleanupMode
touch a (track_touched set) = track_touched (set_insert a set)
touch a mode = mode

-- Reads of one account.
abbrev pub balance_or_zero : Option OverlayAccount → ℕ
balance_or_zero none = 0
balance_or_zero (some acc) = acc.balance

abbrev pub nonce_or_zero : Option OverlayAccount → ℕ
nonce_or_zero none = 0
nonce_or_zero (some acc) = acc.nonce

abbrev pub code_hash_of : Option OverlayAccount → Option ℕ
code_hash_of none = none
code_hash_of (some acc) = some acc.code_hash

abbrev pub code_of : Option OverlayAccount → Option CodeInfo
code_of none = none
code_of (some acc) = acc.code

abbrev pub code_size_of : Option OverlayAccount → Option ℕ
code_size_of o = elim (code_of o) [ none ↦ none | some c ↦ some (code_size c) ]

abbrev pub is_some : Option OverlayAccount → Bool
is_some none = false
is_some (some acc) = true

abbrev pub is_invalidated : Option OverlayAccount → Bool
is_invalidated none = false
is_invalidated (some acc) = acc.invalidated_storage

abbrev pub add_when_closed : ℕ → List WorldStatistics → Action ⊤
add_when_closed v [] s =
    let total = s.world_statistics.total_issued_tokens + v in
    if ltb total u256_mod
    then (ok tt, record s { world_statistics = record { total_issued_tokens = total } })
    else (panic, s)
add_when_closed v (_ ∷ _) s = (panic, s)

-- `add_total_issued`: the assertion that no checkpoint is open, and the `+=` of a U256.
unfoldable pub add_total_issued : ℕ → Action ⊤
add_total_issued v s = add_when_closed v s.world_statistics_checkpoints s

-- `saturating_sub`
unfoldable pub subtract_total_issued : ℕ → Action ⊤
subtract_total_issued v = modify λ s. record s {
  world_statistics = record { total_issued_tokens = s.world_statistics.total_issued_tokens - v };
}

unfoldable pub total_issued_tokens : State → ℕ
total_issued_tokens s = s.world_statistics.total_issued_tokens

module _ ⦃k : Keccak⦄ where
  abbrev pub has_code : Option OverlayAccount → Bool
  has_code none = false
  has_code (some acc) = not (acc.code_hash == keccak_empty)

  abbrev pub is_not_null : Option OverlayAccount → Bool
  is_not_null none = false
  is_not_null (some acc) = not (is_null acc)

  unfoldable pub remove_contract : AddressWithSpace → Action ⊤
  unfolding update_cache new_dirty
  remove_contract a = modify (update_cache a (new_dirty (some (new_removed a))))

module _ ⦃k : Keccak⦄ ⦃rlp : Rlp⦄ where
  unfoldable pub new_contract : AddressWithSpace → ℕ → ℕ → Option StorageLayout → Action ⊤
  unfolding ensure_account_loaded update_cache new_dirty
  new_contract a balance nonce layout = do
    invalidated ← ensure_account_loaded a nothing is_invalidated
    modify (
        update_cache a (new_dirty (some (new_contract_account a balance nonce invalidated layout))))

  unfoldable pub balance : AddressWithSpace → Action ℕ
  unfolding ensure_account_loaded
  balance a = ensure_account_loaded a nothing balance_or_zero

  unfoldable pub is_contract_with_code : AddressWithSpace → Action Bool
  unfolding ensure_account_loaded
  is_contract_with_code a = ensure_account_loaded a nothing has_code

  unfoldable pub nonce : AddressWithSpace → Action ℕ
  unfolding ensure_account_loaded
  nonce a = ensure_account_loaded a nothing nonce_or_zero

  -- `State::init_code`
  unfoldable pub init_account_code : AddressWithSpace → List ℕ → Action ⊤
  unfolding require_exists put_account
  init_account_code a bytes = do acc ← require_exists a false; put_account a (init_code bytes acc)

  unfoldable pub code_hash : AddressWithSpace → Action (Option ℕ)
  unfolding ensure_account_loaded
  code_hash a = ensure_account_loaded a nothing code_hash_of

  unfoldable pub account_code_size : AddressWithSpace → Action (Option ℕ)
  unfolding ensure_account_loaded
  account_code_size a = ensure_account_loaded a code code_size_of

  unfoldable pub account_code : AddressWithSpace → Action (Option CodeInfo)
  unfolding ensure_account_loaded
  account_code a = ensure_account_loaded a code code_of

  unfoldable pub clean_account : AddressWithSpace → Action ⊤
  unfolding require_or_new_basic_account put_account
  clean_account a = do
    _ ← require_or_new_basic_account a 0
    put_account a (from_loaded a (new_empty a))

  unfoldable pub inc_nonce : AddressWithSpace → ℕ → Action ⊤
  unfolding require_or_new_basic_account put_account
  inc_nonce a start = do
    acc ← require_or_new_basic_account a start
    acc' ← lift (inc_account_nonce acc)
    put_account a acc'

  unfoldable pub set_nonce : AddressWithSpace → ℕ → Action ⊤
  unfolding require_or_new_basic_account put_account
  set_nonce a n = do acc ← require_or_new_basic_account a n; put_account a (set_account_nonce n acc)

  unfoldable pub exists : AddressWithSpace → Action Bool
  unfolding ensure_account_loaded
  exists a = ensure_account_loaded a nothing is_some

  unfoldable pub exists_and_not_null : AddressWithSpace → Action Bool
  unfolding ensure_account_loaded
  exists_and_not_null a = ensure_account_loaded a nothing is_not_null

  -- The guarded write of `sub_balance`.
  unfoldable pub take_balance : AddressWithSpace → ℕ → Action ⊤
  unfolding require_exists put_account
  take_balance a by = do
    acc ← require_exists a false
    acc' ← lift (sub_account_balance by acc)
    put_account a acc'

  -- The guarded write of `add_balance`.
  unfoldable pub give_balance : AddressWithSpace → ℕ → ℕ → Action ⊤
  unfolding require_or_new_basic_account put_account
  give_balance a by start = do
    acc ← require_or_new_basic_account a start
    acc' ← lift (add_account_balance by acc)
    put_account a acc'

  -- `if let CleanupMode::TrackTouched(set) = mode { if self.exists(address)? { set.insert(address) } }`
  unfoldable pub touch_existing : AddressWithSpace → CleanupMode → Action CleanupMode
  unfolding exists
  touch_existing a (track_touched set) = do
    there ← exists a
    pure (if there then track_touched (set_insert a set) else track_touched set)
  touch_existing a mode = pure mode

  unfoldable pub sub_balance : AddressWithSpace → ℕ → CleanupMode → Action CleanupMode
  unfolding take_balance touch_existing
  sub_balance a by mode = do if by == 0 then pure tt else take_balance a by; touch_existing a mode

  unfoldable pub add_balance : AddressWithSpace → ℕ → CleanupMode → ℕ → Action CleanupMode
  unfolding exists give_balance
  add_balance a by mode start = do
    there ← exists a
    if not (by == 0) || is_force_create mode && not there then give_balance a by start else pure tt
    pure (if there then touch a mode else mode)

  unfoldable pub transfer_balance :
      AddressWithSpace → AddressWithSpace → ℕ → CleanupMode → ℕ → Action CleanupMode
  unfolding sub_balance add_balance
  transfer_balance from to by mode start = do
    mode' ← sub_balance from by mode
    add_balance to by mode' start

  -- The account of the entry reads its storage; it may fill its read cache.
  abbrev pub storage_account :
      AddressWithSpace → List ℕ → AccountEntry → Option OverlayAccount → Action ℕ
  storage_account a key e none s = (ok 0, s)
  storage_account a key e (some acc) s =
      let (r, acc') = account_storage_at s.db key acc in
      (r, set_cache (insert a (record e { account = some acc' }) s.cache) s)

  abbrev pub storage_slot : AddressWithSpace → List ℕ → Option AccountEntry → Action ℕ
  storage_slot a key none s = (panic, s)
  storage_slot a key (some e) s = storage_account a key e e.account s

  -- The closure that `storage_at` hands to `ensure_account_loaded`.
  unfoldable pub read_storage : AddressWithSpace → List ℕ → Action ℕ
  unfolding account_storage_at
  read_storage a key s = storage_slot a key (lookup a s.cache) s

  unfoldable pub storage_at : AddressWithSpace → List ℕ → Action ℕ
  unfolding ensure_account_loaded read_storage
  storage_at a key = ensure_account_loaded a nothing (λ _. tt) >> read_storage a key

  -- The guarded write of `set_storage`.
  unfoldable pub write_storage : AddressWithSpace → List ℕ → ℕ → Action ⊤
  unfolding require_exists put_account
  write_storage a key value = do
    acc ← require_exists a false
    put_account a (set_account_storage key value acc)

  unfoldable pub set_storage : AddressWithSpace → List ℕ → ℕ → Action ⊤
  unfolding storage_at write_storage
  set_storage a key value = do
    old ← storage_at a key
    if old == value then pure tt else write_storage a key value

-- `SYSTEM_STORAGE_ADDRESS`
abbrev pub system_storage_address : ℕ
system_storage_address = 0x088800000000000000000000000000000000000a

module _ ⦃k : Keccak⦄ ⦃rlp : Rlp⦄ where
  unfoldable pub set_system_storage : List ℕ → ℕ → Action ⊤
  unfolding set_storage
  set_system_storage key value = set_storage (with_evm_space system_storage_address) key value

  unfoldable pub get_system_storage : List ℕ → Action ℕ
  unfolding storage_at
  get_system_storage key = storage_at (with_evm_space system_storage_address) key
