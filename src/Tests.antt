-- ===== src/Tests.antt =====
-- Runs of the models of src/state and of the state keys on concrete inputs.
use cfx_evm.Base.{ℕ, ◌≡◌, refl, List, [], ◌∷◌, Option, none, some, lookup, length, arith}
use cfx_evm.Primitives.{AddressWithSpace, with_evm_space, EthereumAccount, Keccak}
use cfx_evm.Primitives.Keys.{storage_key, key_bytes-injective}
use cfx_evm.StateDb.{Rlp, StateDb, ok}
use cfx_evm.State.{
  no_empty, tail, State, checkpoint, discard_checkpoint, revert_to_checkpoint, fresh, new_state,
}
use cfx_evm.State
use cfx_evm.State.Storage.{storage_at-set_storage}
use cfx_evm.State.View.{IsValid, Same, view}
use cfx_evm.State.Seen.{storage_of, storage_at-view}
use cfx_evm.State.Frames.{Runs, here, call, kept, perform, add_balance, set_nonce, set_storage}
use cfx_evm.State.Frames.Close.{checkpoint-IsValid}
use cfx_evm.State.Frames.Atomic.{revert-checkpoint, Runs-keep, new_state-IsValid}

-- A hash and a codec for the tests.
instance unfoldable pub test_keccak : Keccak
test_keccak = record { keccak = length }

abbrev decode_list : List ℕ → Option EthereumAccount
decode_list (b ∷ n ∷ h ∷ []) = some (record { balance = b; nonce = n; code_hash = h })
decode_list _ = none

abbrev decode_number : List ℕ → Option ℕ
decode_number (n ∷ []) = some n
decode_number _ = none

instance unfoldable pub test_rlp : Rlp
test_rlp = record {
  encode_account = λ a. a.balance ∷ a.nonce ∷ a.code_hash ∷ [];
  decode_account = decode_list;
  encode_u256 = λ n. n ∷ [];
  decode_u256 = decode_number;
  encode_storage_value = λ n. n ∷ [];
  decode_storage_value = decode_number;
  encode_code = λ c. c.code;
  decode_code = λ bytes. some (record { code = bytes });
  decode-encode_account = λ a. refl;
  decode-encode_u256 = λ n. refl;
  decode-encode_storage_value = λ n. refl;
  decode-encode_code = λ c. refl;
}

abbrev pub empty_db : StateDb
empty_db = record { inner = [] }

abbrev pub start : State
start = fresh empty_db 0

abbrev pub alice : AddressWithSpace
alice = with_evm_space 1

abbrev pub bob : AddressWithSpace
bob = with_evm_space 2

-- A frame that pays alice, and an inner frame, kept, that writes her storage and bob's nonce.
abbrev paid : State
paid = perform (add_balance alice 7 no_empty 0) (checkpoint start).1

abbrev inner : State
inner = perform (set_nonce bob 3) (perform (set_storage alice [] 5) (checkpoint paid).1)

inner_run : Runs (checkpoint paid).1 inner
inner_run = call (call here (set_storage alice [] 5)) (set_nonce bob 3)

frame_run : Runs (checkpoint start).1 (discard_checkpoint inner)
frame_run = kept (call here (add_balance alice 7 no_empty 0)) inner_run

pub start_opens : new_state empty_db ≡ ok start
unfolding new_state lookup
start_opens = refl

pub start-IsValid : IsValid start
start-IsValid = new_state-IsValid empty_db start start start_opens here

revert-checkpoint_example :
    (v : State) × (revert_to_checkpoint (discard_checkpoint inner) ≡ some v) × Same start v
revert-checkpoint_example =
    revert-checkpoint start (discard_checkpoint inner) start-IsValid frame_run

new_state-IsValid_example : IsValid (discard_checkpoint (discard_checkpoint inner))
new_state-IsValid_example =
    new_state-IsValid empty_db start (discard_checkpoint (discard_checkpoint inner)) start_opens
      (kept here frame_run)

Runs-keep_example :
    ((discard_checkpoint inner).db ≡ (checkpoint start).1.db)
    × ((discard_checkpoint inner).world_statistics_checkpoints
        ≡ (checkpoint start).1.world_statistics_checkpoints)
    × (length (discard_checkpoint inner).checkpoints ≡ length (checkpoint start).1.checkpoints)
    × (tail (discard_checkpoint inner).checkpoints ≡ tail (checkpoint start).1.checkpoints)
Runs-keep_example =
    Runs-keep (checkpoint start).1 (discard_checkpoint inner)
      (checkpoint-IsValid start start-IsValid) frame_run

key_bytes-injective_example : storage_key alice (9 ∷ []) ≡ storage_key alice (9 ∷ [])
key_bytes-injective_example =
    key_bytes-injective (storage_key alice (9 ∷ [])) (storage_key alice (9 ∷ [])) (omega arith)
      (omega arith) refl

-- The state that a write of alice's storage leaves.
abbrev written : State
written = perform (set_storage alice (9 ∷ []) 5) paid

write_succeeds : State.set_storage alice (9 ∷ []) 5 paid ≡ (ok tt, written)
unfolding State.set_storage perform State.add_balance checkpoint State.loaded_account
    cfx_evm.StateDb.get_account cfx_evm.Base.insert State.update_account_cache
    State.add_account_balance cfx_evm.StateDb.get_storage_value
write_succeeds = refl

storage_at-set_storage_example : (State.storage_at alice (9 ∷ []) written).0 ≡ ok 5
storage_at-set_storage_example = storage_at-set_storage alice (9 ∷ []) 5 paid written write_succeeds

storage_at-view_example :
    (State.storage_at alice (9 ∷ []) written).0 ≡ storage_of (9 ∷ []) (view written alice)
storage_at-view_example = storage_at-view alice (9 ∷ []) written
