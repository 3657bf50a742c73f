-- ===== src/State/Commit/Database.antt =====
-- What the database holds after `commit` of src/state/mod.rs.
use cfx_evm.Base.{ℕ, List, [], ◌++◌, Option, ◌==◌}
use cfx_evm.Primitives.{address_eq, with_evm_space, Keccak}
use cfx_evm.Primitives.Keys.{StateKey, storage_key}
use cfx_evm.StateDb.{Rlp, StateDb, total_tokens_key, storage_interest_staking_contract_address}
use cfx_evm.State.{State, Cache}
use cfx_evm.State.Commit.Puts.{put, stored}
use cfx_evm.State.Commit.Stored.{recycled, store_entries, killed_of, notices_of}

-- The key of the issued tokens.
abbrev pub tokens_key : StateKey
tokens_key = storage_key (with_evm_space storage_interest_staking_contract_address) total_tokens_key

module _ ⦃k : Keccak⦄ ⦃rlp : Rlp⦄ where
  abbrev tokens_value : ℕ → Option (List ℕ)
  tokens_value n = stored (n == 0) (rlp.encode_u256 n)

  abbrev committed : Cache → State → State
  committed m s = record s {
    db =
        put tokens_key (tokens_value s.world_statistics.total_issued_tokens)
          (recycled (killed_of m) (store_entries m s.db));
    accounts_to_notify = s.accounts_to_notify ++ notices_of m;
    cache = [];
  }
