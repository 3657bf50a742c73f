-- ===== src/State/Account.antt =====
-- One account with its pending changes: `OverlayAccount` and `AccountEntry` of
-- src/state/account_entry.rs. The read cache that Rust shares between clones by an `Arc` is copied
-- here: it only ever holds values of the database, which does not change before the commit.
use cfx_evm.Base.{
  ℕ, ◌+◌, ◌-◌, ◌/◌, ◌^◌, Bool, true, false, not, ◌&&◌, ◌||◌, List, [], Option, none, some, ltb,
  ◌==◌, if◌then◌else◌, HashMap, bytes_eq, lookup, insert,
}
use cfx_evm.Primitives.{
  u256_mod, AddressWithSpace, Account, CodeInfo, Keccak, keccak_empty, account_is_default,
}
use cfx_evm.StateDb.{Result, ok, err, panic, Rlp, StateDb, get_code, get_storage_value}

-- `StorageLayout`
pub data StorageLayout : Type 0 where
  regular : ℕ → StorageLayout

pub record OverlayAccount : Type 0 where
  pub address : AddressWithSpace
  pub balance : ℕ
  pub nonce : ℕ
  pub storage_value_read_cache : HashMap (List ℕ) ℕ
  pub storage_value_write_cache : HashMap (List ℕ) ℕ
  pub storage_layout_change : Option StorageLayout
  pub code_hash : ℕ
  pub code : Option CodeInfo
  pub is_newly_created_contract : Bool
  pub invalidated_storage : Bool

module _ ⦃k : Keccak⦄ where
  unfoldable pub from_loaded : AddressWithSpace → Account → OverlayAccount
  from_loaded address account = record {
    address = address;
    balance = account.balance;
    nonce = account.nonce;
    storage_value_read_cache = [];
    storage_value_write_cache = [];
    storage_layout_change = none;
    code_hash = account.code_hash;
    code = none;
    is_newly_created_contract = false;
    invalidated_storage = false;
  }

  unfoldable pub new_basic : AddressWithSpace → ℕ → ℕ → OverlayAccount
  new_basic address balance nonce = record {
    address = address;
    balance = balance;
    nonce = nonce;
    storage_value_read_cache = [];
    storage_value_write_cache = [];
    storage_layout_change = none;
    code_hash = keccak_empty;
    code = none;
    is_newly_created_contract = false;
    invalidated_storage = false;
  }

  unfoldable pub new_removed : AddressWithSpace → OverlayAccount
  new_removed address = record {
    address = address;
    balance = 0;
    nonce = 0;
    storage_value_read_cache = [];
    storage_value_write_cache = [];
    storage_layout_change = none;
    code_hash = keccak_empty;
    code = none;
    is_newly_created_contract = false;
    invalidated_storage = true;
  }

  -- `OverlayAccount::new_contract`
  unfoldable pub new_contract_account :
      AddressWithSpace → ℕ → ℕ → Bool → Option StorageLayout → OverlayAccount
  new_contract_account address balance nonce invalidated storage_layout = record {
    address = address;
    balance = balance;
    nonce = nonce;
    storage_value_read_cache = [];
    storage_value_write_cache = [];
    storage_layout_change = storage_layout;
    code_hash = keccak_empty;
    code = none;
    is_newly_created_contract = true;
    invalidated_storage = invalidated;
  }

  unfoldable pub as_account : OverlayAccount → Account
  as_account acc = record {
    address_local_info = acc.address;
    balance = acc.balance;
    nonce = acc.nonce;
    code_hash = acc.code_hash;
  }

  -- `AddressUtil::is_builtin_address`: the high half of the first of the twenty bytes is zero.
  unfoldable pub is_builtin_address : ℕ → Bool
  is_builtin_address a = a / 2 ^ 156 == 0 && not (a == 0)

  unfoldable pub fresh_storage : OverlayAccount → Bool
  unfolding is_builtin_address
  fresh_storage acc =
      acc.is_newly_created_contract && not (is_builtin_address acc.address.address)
      || acc.invalidated_storage

  unfoldable pub removed_without_update : OverlayAccount → Bool
  unfolding as_account account_is_default
  removed_without_update acc = acc.invalidated_storage && account_is_default (as_account acc)

  unfoldable pub is_code_loaded : OverlayAccount → Bool
  is_code_loaded acc = elim acc.code [ some c ↦ true | none ↦ acc.code_hash == keccak_empty ]

  unfoldable pub is_null : OverlayAccount → Bool
  is_null acc = acc.balance == 0 && acc.nonce == 0 && acc.code_hash == keccak_empty

  -- The account may change also where the read fails.
  unfoldable pub cache_code : ⦃rlp : Rlp⦄ → OverlayAccount → StateDb → Result Bool × OverlayAccount
  unfolding is_code_loaded
  cache_code acc db =
      if is_code_loaded acc then (ok true, acc) else elim (get_code acc.address acc.code_hash db) [
        | ok (some c) ↦ (ok true, record acc { code = some c })
        | ok none ↦ (ok false, record acc { code = none })
        | err e ↦ (err e, acc)
        | panic ↦ (panic, acc)
      ]

  unfoldable pub init_code : List ℕ → OverlayAccount → OverlayAccount
  init_code code acc = record acc {
    code_hash = k.keccak code;
    code = some (record { code = code });
  }

unfoldable pub set_account_nonce : ℕ → OverlayAccount → OverlayAccount
set_account_nonce n acc = record acc { nonce = n }

-- The `+` of a U256 panics where it overflows.
unfoldable pub inc_account_nonce : OverlayAccount → Result OverlayAccount
inc_account_nonce acc =
    if ltb (acc.nonce + 1) u256_mod then ok (record acc { nonce = acc.nonce + 1 }) else panic

unfoldable pub add_account_balance : ℕ → OverlayAccount → Result OverlayAccount
add_account_balance by acc =
    if ltb (acc.balance + by) u256_mod
    then ok (record acc { balance = acc.balance + by })
    else panic

unfoldable pub sub_account_balance : ℕ → OverlayAccount → Result OverlayAccount
sub_account_balance by acc =
    if ltb acc.balance by then panic else ok (record acc { balance = acc.balance - by })

unfoldable pub clone_basic : OverlayAccount → OverlayAccount
clone_basic acc = record acc {
  storage_value_read_cache = [];
  storage_value_write_cache = [];
  storage_layout_change = none;
}

unfoldable pub clone_dirty : OverlayAccount → OverlayAccount
unfolding clone_basic
clone_dirty acc = record (clone_basic acc) {
  storage_value_write_cache = acc.storage_value_write_cache;
  storage_value_read_cache = acc.storage_value_read_cache;
  storage_layout_change = acc.storage_layout_change;
}

-- `OverlayAccount::set_storage`
unfoldable pub set_account_storage : List ℕ → ℕ → OverlayAccount → OverlayAccount
set_account_storage key value acc = record acc {
  storage_value_write_cache = insert key value acc.storage_value_write_cache;
}

unfoldable pub cached_storage_at : List ℕ → OverlayAccount → Option ℕ
cached_storage_at key acc = elim (lookup key acc.storage_value_write_cache) [
  | some v ↦ some v
  | none ↦ lookup key acc.storage_value_read_cache
]

-- `get_and_cache_storage`: the value read, and the read cache that remembers it.
unfoldable pub get_and_cache_storage :
    ⦃rlp : Rlp⦄ → StateDb → List ℕ → OverlayAccount → Result ℕ × OverlayAccount
get_and_cache_storage db key acc = elim (get_storage_value acc.address key db) [
  | ok (some v) ↦
      (ok v, record acc { storage_value_read_cache = insert key v acc.storage_value_read_cache })
  | ok none ↦
      (ok 0, record acc { storage_value_read_cache = insert key 0 acc.storage_value_read_cache })
  | err e ↦ (err e, acc)
  | panic ↦ (panic, acc)
]

-- `OverlayAccount::storage_at`
unfoldable pub account_storage_at :
    ⦃k : Keccak⦄ ⦃rlp : Rlp⦄ → StateDb → List ℕ → OverlayAccount → Result ℕ × OverlayAccount
unfolding cached_storage_at fresh_storage get_and_cache_storage
account_storage_at db key acc = elim (cached_storage_at key acc) [
  | some v ↦ (ok v, acc)
  | none ↦ if fresh_storage acc then (ok 0, acc) else get_and_cache_storage db key acc
]

-- `OverlayAccount::overwrite_with`: all but the address.
unfoldable pub overwrite_account_with : OverlayAccount → OverlayAccount → OverlayAccount
overwrite_account_with other acc = record other { address = acc.address }

-- `AccountState`
pub data AccountState : Type 0 where
  clean_fresh clean_cached dirty committed : AccountState

pub record AccountEntry : Type 0 where
  pub account : Option OverlayAccount
  pub old_balance : Option ℕ
  pub state : AccountState

unfoldable pub is_dirty : AccountEntry → Bool
is_dirty e = elim e.state [ dirty ↦ true | _ ↦ false ]

-- `AccountEntry::overwrite_with`
unfoldable pub overwrite_with : AccountEntry → AccountEntry → AccountEntry
unfolding overwrite_account_with
overwrite_with other e = record e {
  state = other.state;
  account = elim other.account [
    | none ↦ none
    | some acc ↦ elim e.account [
      | none ↦ some acc
      | some ours ↦ some (overwrite_account_with acc ours)
    ]
  ];
}

-- `AccountEntry::clone_dirty`
unfoldable pub clone_dirty_entry : AccountEntry → AccountEntry
unfolding clone_dirty
clone_dirty_entry e = record e {
  account = elim e.account [ none ↦ none | some acc ↦ some (clone_dirty acc) ];
}

abbrev balance_of : Option OverlayAccount → Option ℕ
balance_of none = none
balance_of (some acc) = some acc.balance

unfoldable pub new_dirty : Option OverlayAccount → AccountEntry
new_dirty account = record { account = account; old_balance = balance_of account; state = dirty }

unfoldable pub new_clean : Option OverlayAccount → AccountEntry
new_clean account = record {
  account = account;
  old_balance = balance_of account;
  state = clean_fresh;
}
