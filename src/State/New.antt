-- ===== src/State/New.antt =====
-- `State::new` of src/state/mod.rs.
use cfx_evm.Base.{ℕ, []}
use cfx_evm.StateDb.{Result, Result_map, Rlp, StateDb, get_total_issued_tokens}
use cfx_evm.State.Types.{State}

-- The state that has read the tokens issued so far, and nothing else.
abbrev pub fresh : StateDb → ℕ → State
fresh db total = record {
  db = db;
  accounts_to_notify = [];
  cache = [];
  world_statistics = record { total_issued_tokens = total };
  world_statistics_checkpoints = [];
  checkpoints = [];
}

unfoldable pub new_state : ⦃rlp : Rlp⦄ → StateDb → Result State
unfolding get_total_issued_tokens
new_state db = Result_map (fresh db) (get_total_issued_tokens db)
