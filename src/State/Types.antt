-- ===== src/State/Types.antt =====
-- The state of src/state/mod.rs. The vectors of checkpoints are lists with the last one first.
use cfx_evm.Base.{ℕ, List, Option, HashMap}
use cfx_evm.Primitives.{AddressWithSpace, Account}
use cfx_evm.StateDb.{StateDb}
use cfx_evm.State.Account.{AccountEntry}

-- `RequireCache`; the variant `None` is `nothing` here.
pub data RequireCache : Type 0 where
  nothing code : RequireCache

pub record WorldStatistics : Type 0 where
  pub total_issued_tokens : ℕ

-- An element of `accounts_to_notify`: an updated account, or the address of a deleted one.
pub data Notice : Type 0 where
  updated : Account → Notice
  deleted : AddressWithSpace → Notice

abbrev pub Cache : Type 0
Cache = HashMap AddressWithSpace AccountEntry

-- What a checkpoint remembers: the entry that an address had, or that it had none.
abbrev pub Saved : Type 0
Saved = HashMap AddressWithSpace (Option AccountEntry)

pub record State : Type 0 where
  pub db : StateDb
  pub accounts_to_notify : List Notice
  pub cache : Cache
  pub world_statistics : WorldStatistics
  pub world_statistics_checkpoints : List WorldStatistics
  pub checkpoints : List Saved
