-- ===== src/State/Commit/Tests.antt =====
-- A commit on a concrete state.
use cfx_evm.Base.{false, [], ◌∷◌, none, some}
use cfx_evm.State.{State, fresh}
use cfx_evm.State.Account.{OverlayAccount, dirty}
use cfx_evm.Tests.{test_keccak, alice, empty_db}

abbrev alice_account : OverlayAccount
alice_account = record {
  address = alice;
  balance = 7;
  nonce = 1;
  storage_value_read_cache = [];
  storage_value_write_cache = (9 ∷ [], 5) ∷ [];
  storage_layout_change = none;
  code_hash = 0;
  code = none;
  is_newly_created_contract = false;
  invalidated_storage = false;
}

abbrev cached : State
cached = record (fresh empty_db 3) {
  cache = (alice, record { account = some alice_account; state = dirty; old_balance = none }) ∷ [];
}
