-- ===== src/Frame/Context/Answer.antt =====
-- The methods of InternalRefContext, and the answer of a context to every question of its frame.
use cfx_evm.Base.{ℕ, List, [], ◌∷◌, ◌++◌, nat_eq}
use cfx_evm.Primitives.{⊤, AddressWithSpace, address_eq, Keccak}
use cfx_evm.StateDb.{Rlp}
use cfx_evm.State
use cfx_evm.State.{set_insert}
use cfx_evm.Substate.{FrameStackInfo}
use cfx_evm.Vm.{ActionParams}
use cfx_evm.Frame.World.{FrameContext, Act, ◌>>=◌, pure, update, of_state, with_cleanup}
use cfx_evm.Frame.Program.{Ask, Answer, Machine, InternalContract}
use cfx_evm.Frame.Program
use cfx_evm.Frame.Context.Basics.{append_log, code_bytes, unless_static, blockhash, log}
use cfx_evm.Frame.Context.Accounts.{
  storage_at, set_storage, exists, exists_and_not_null, balance, origin_balance, suicide,
}
use cfx_evm.Frame.Context.Calls.{create, call, extcode, extcodehash, extcodesize}

-- The methods of `InternalRefContext`.
unfoldable pub internal_log : FrameContext → ActionParams → List ℕ → List ℕ → Act ⊤
internal_log c params topics bytes = unless_static c (
    update (
      append_log (record {
        address = params.address;
        topics = topics;
        log_data = bytes;
        space = params.space;
      })))

abbrev pub receiver_of : ActionParams → AddressWithSpace
receiver_of params = record { address = params.address; space = params.space }

module _ ⦃k : Keccak⦄ ⦃rlp : Rlp⦄ where
  unfoldable pub internal_set_storage : ActionParams → List ℕ → ℕ → Act ⊤
  internal_set_storage params key value =
      of_state (State.set_storage (receiver_of params) key value)

  unfoldable pub internal_storage_at : ActionParams → List ℕ → Act ℕ
  internal_storage_at params key = of_state (State.storage_at (receiver_of params) key)

module _ ⦃k : Keccak⦄ ⦃rlp : Rlp⦄ ⦃m : Machine⦄ where
  -- The answer of the context to a question of the program.
  unfoldable pub answer : FrameContext → FrameStackInfo → (q : Ask) → Act (Answer q)
  answer c cs (Program.storage_at key) = storage_at c key
  answer c cs (Program.set_storage key value) = set_storage c key value
  answer c cs (Program.exists a) = exists c a
  answer c cs (Program.exists_and_not_null a) = exists_and_not_null c a
  answer c cs (Program.balance a) = balance c a
  answer c cs (Program.extcode a) = extcode c a
  answer c cs (Program.extcodehash a) = extcodehash c a
  answer c cs (Program.extcodesize a) = extcodesize c a
  answer c cs Program.origin_balance = origin_balance c
  answer c cs Program.callstack = pure cs
  answer c cs (Program.blockhash n) = blockhash c n
  answer c cs (Program.create gas value bytes scheme) = create c gas value bytes scheme
  answer c cs (Program.call gas sender to value bytes code kind) =
      call c gas sender to value bytes code kind
  answer c cs (Program.log topics bytes) = log c topics bytes
  answer c cs (Program.suicide refund start) = suicide c refund start
  answer c cs (Program.internal_log params topics bytes) = internal_log c params topics bytes
  answer c cs (Program.internal_set_storage params key value) =
      internal_set_storage params key value
  answer c cs (Program.internal_storage_at params key) = internal_storage_at params key
  answer c cs (Program.internal_exists_and_not_null a) = of_state (State.exists_and_not_null a)
  answer c cs (Program.internal_balance a) = of_state (State.balance a)
  answer c cs (Program.internal_nonce a) = of_state (State.nonce a)
  answer c cs (Program.internal_code a) = do
    found ← of_state (State.account_code a)
    pure (code_bytes found)
  answer c cs (Program.internal_code_hash a) = of_state (State.code_hash a)
  answer c cs (Program.internal_is_contract_with_code a) = of_state (State.is_contract_with_code a)
  answer c cs (Program.internal_created a) =
      update (λ s. record s { contracts_created = s.contracts_created ++ a ∷ [] })
  answer c cs (Program.internal_inc_nonce a start) = of_state (State.inc_nonce a start)
  answer c cs (Program.internal_init_code a bytes) = of_state (State.init_account_code a bytes)
  answer c cs (Program.internal_new_contract a v n layout) =
      of_state (State.new_contract a v n layout)
  answer c cs (Program.internal_transfer_balance from to v start) =
      with_cleanup c.spec (λ mode. State.transfer_balance from to v mode start)
