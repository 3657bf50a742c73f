-- ===== src/State/View.antt =====
-- What a caller can tell of a state: for each address the account with its pending changes, without
-- the caches that only repeat the database. The invariant that every operation keeps.
use cfx_evm.Base.{
  ℕ, ◌≡◌, Bool, true, false, List, [], ◌∷◌, Option, none, some, if◌then◌else◌, HashMap, lookup,
  Unique,
}
use cfx_evm.Primitives.{AddressWithSpace, address_eq, CodeInfo, Keccak}
use cfx_evm.StateDb.{Result, ok, Result_map, Rlp, StateDb, get_code}
use cfx_evm.State.Account.{
  StorageLayout, OverlayAccount, AccountEntry, is_code_loaded, is_dirty, overwrite_with,
  account_storage_at,
}
use cfx_evm.State.Types.{Saved, State}
use cfx_evm.State.Reads.{IsCached}
use cfx_evm.State.Load.{loaded_account}

-- An account without its read cache. Its code is the one that a caller would be given, and its
-- storage is what a read of each slot would return, through both caches.
pub record Core : Type 0 where
  pub address : AddressWithSpace
  pub balance : ℕ
  pub nonce : ℕ
  pub storage_changes : HashMap (List ℕ) ℕ
  pub storage : List ℕ → Result ℕ
  pub storage_layout_change : Option StorageLayout
  pub code_hash : ℕ
  pub code : Result (Option CodeInfo)
  pub is_newly_created_contract : Bool
  pub invalidated_storage : Bool

module _ ⦃k : Keccak⦄ ⦃rlp : Rlp⦄ where
  unfoldable pub effective_code : StateDb → OverlayAccount → Result (Option CodeInfo)
  unfolding is_code_loaded
  effective_code db acc =
      if is_code_loaded acc then ok acc.code else get_code acc.address acc.code_hash db

  abbrev pub core : StateDb → OverlayAccount → Core
  core db acc = record {
    address = acc.address;
    balance = acc.balance;
    nonce = acc.nonce;
    storage_changes = acc.storage_value_write_cache;
    storage = λ key. (account_storage_at db key acc).0;
    storage_layout_change = acc.storage_layout_change;
    code_hash = acc.code_hash;
    code = effective_code db acc;
    is_newly_created_contract = acc.is_newly_created_contract;
    invalidated_storage = acc.invalidated_storage;
  }

  abbrev pub account_view : StateDb → Option OverlayAccount → Option Core
  account_view db none = none
  account_view db (some acc) = some (core db acc)

  -- What the database alone says of an address.
  abbrev pub db_view : StateDb → AddressWithSpace → Result (Option Core)
  db_view db a = Result_map (account_view db) (loaded_account a db)

  abbrev pub slot_view : StateDb → AddressWithSpace → Option AccountEntry → Result (Option Core)
  slot_view db a none = db_view db a
  slot_view db a (some e) = ok (account_view db e.account)

  -- The account that a caller of the state finds at an address, or the error it gets.
  abbrev pub view : State → AddressWithSpace → Result (Option Core)
  view s a = slot_view s.db a (lookup a s.cache)

-- What a revert makes of a slot, given what the checkpoint saved for its address.
abbrev pub undo : Option (Option AccountEntry) → Option AccountEntry → Option AccountEntry
undo none slot = slot
undo (some (some v)) none = some v
undo (some (some v)) (some e) = some (overwrite_with v e)
undo (some none) none = none
undo (some none) (some e) = if is_dirty e then none else some e

abbrev pub top : List Saved → Saved
top [] = []
top (m ∷ ms) = m

abbrev pub is_nonempty : List Saved → Bool
is_nonempty [] = false
is_nonempty (_ ∷ _) = true

abbrev pub is_open : State → Bool
is_open s = is_nonempty s.checkpoints

module _ ⦃k : Keccak⦄ ⦃rlp : Rlp⦄ where
  -- The account of the address, whose read cache repeats the database.
  abbrev pub IsHomed : StateDb → AddressWithSpace → Option OverlayAccount → Type 0
  IsHomed db a none = Unit
  IsHomed db a (some acc) = (acc.address ≡ a) × IsCached db a acc.storage_value_read_cache

  -- The view of an address after a revert to the last checkpoint.
  abbrev pub reverted_view : State → AddressWithSpace → Result (Option Core)
  reverted_view s a = slot_view s.db a (undo (lookup a (top s.checkpoints)) (lookup a s.cache))

  -- An entry holds the account of its address, whose read cache repeats the database; one that is
  -- not dirty repeats the database as a whole.
  pub record IsGood (db : StateDb) (a : AddressWithSpace) (e : AccountEntry) : Type 0 where
    pub homed : IsHomed db a e.account
    pub clean : is_dirty e ≡ false → slot_view db a (some e) ≡ db_view db a

  pub record IsGoodSaved (db : StateDb) (m : Saved) : Type 0 where
    pub unique : Unique m
    pub good :
        (a : AddressWithSpace) (v : AccountEntry) → lookup a m ≡ some (some v) → IsGood db a v

  abbrev pub AllSaved : StateDb → List Saved → Type 0
  AllSaved db [] = Unit
  AllSaved db (m ∷ ms) = IsGoodSaved db m × AllSaved db ms

  -- The invariant of a state.
  pub record IsValid (s : State) : Type 0 where
    pub slots :
        (a : AddressWithSpace) (e : AccountEntry) → lookup a s.cache ≡ some e → IsGood s.db a e
    pub saved : AllSaved s.db s.checkpoints

  -- Two states that no caller can tell apart, now or after any number of reverts.
  pub record Same (s t : State) : Type 0 where
    pub db : t.db ≡ s.db
    pub statistics : t.world_statistics ≡ s.world_statistics
    pub saved_statistics : t.world_statistics_checkpoints ≡ s.world_statistics_checkpoints
    pub checkpoints : t.checkpoints ≡ s.checkpoints
    pub views : (a : AddressWithSpace) → view t a ≡ view s a
