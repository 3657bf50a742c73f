-- ===== src/Execution/Fees.antt =====
-- What a transaction pays for its gas: the purchase and the refund in src/execution/executor.rs.
use cfx_evm.Base.{ℕ}
use cfx_evm.Primitives.{Keccak}
use cfx_evm.Spec.{Spec}
use cfx_evm.StateDb.{Rlp}
use cfx_evm.State
use cfx_evm.State.{Action, ◌>>=◌, ◌>>◌, pure}
use cfx_evm.Substate.{Substate, new_substate, cleanup_mode, write_back}
use cfx_evm.Execution.Types.{Transaction}

module _ ⦃k : Keccak⦄ ⦃rlp : Rlp⦄ where
  -- The sender's nonce goes up, and `cost` is taken from its balance.
  abbrev pub takes : Transaction → Spec → ℕ → Action Substate
  takes tx spec cost =
      State.inc_nonce tx.sender spec.account_start_nonce
      >> (State.sub_balance tx.sender cost (cleanup_mode new_substate spec) >>= λ mode.
          pure (write_back mode new_substate))
