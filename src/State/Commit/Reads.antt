-- ===== src/State/Commit/Reads.antt =====
-- What a state that is opened after `commit` of src/state/mod.rs loads: `get_account` of
-- backend/statedb/src/statedb_ext.rs on the committed database.
use cfx_evm.Base.{ℕ, List, Option, none, some}
use cfx_evm.Primitives.{AddressWithSpace, Keccak, Account, EthereumAccount, from_ethereum_account}
use cfx_evm.StateDb.{Result, Result_map, decoded, account_error, ok, Rlp}
use cfx_evm.State.{State}

module _ ⦃k : Keccak⦄ ⦃rlp : Rlp⦄ where
  account_found : AddressWithSpace → Option (List ℕ) → Result (Option Account)
  account_found a o =
      Result_map
        (λ (x : Option EthereumAccount). elim x [
          | none ↦ none
          | some e ↦ some (from_ethereum_account a.address e)
        ])
        (decoded rlp.decode_account account_error (ok o))
