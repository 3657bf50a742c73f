-- ===== src/StateDb.antt =====
-- The database under the state: backend/storage/src/in_memory.rs, the only storage of this
-- repository, and backend/statedb/src/impls.rs and statedb_ext.rs, which read and write typed values
-- in it. The RLP codec is a crate and enters as the interface `Rlp`.
use cfx_evm.Base.{
  ℕ, ◌≡◌, Bool, List, [], ◌∷◌, Option, none, some, ◌==◌, if◌then◌else◌, HashMap, bytes_eq, lookup,
  insert, remove,
}
use cfx_evm.Primitives.{
  AddressWithSpace, with_evm_space, Account, EthereumAccount, CodeInfo, Keccak,
  from_ethereum_account, to_evm_account, account_is_default, code_is_default,
}
use cfx_evm.Primitives.Keys.{StateKey, account_key, storage_key, code_key, key_bytes}

-- `ErrorKind`: an incomplete database, an account that does not decode, another value that does not.
pub data DbError : Type 0 where
  incomplete_database : ℕ → DbError
  account_error : DbError
  decoder_error : DbError

-- `DbResult`, and a Rust panic.
pub data Result (A : Type 0) : Type 0 where
  ok : A → Result A
  err : DbError → Result A
  panic : Result A

abbrev pub Result_map : {A B : Type 0} → (A → B) → Result A → Result B
Result_map f (ok a) = ok (f a)
Result_map f (err e) = err e
Result_map f panic = panic

-- The encodings of the `rlp` crate: what is encoded decodes to itself.
pub record Rlp : Type 0 where
  pub encode_account : EthereumAccount → List ℕ
  pub decode_account : List ℕ → Option EthereumAccount
  pub encode_u256 : ℕ → List ℕ
  pub decode_u256 : List ℕ → Option ℕ
  pub encode_storage_value : ℕ → List ℕ
  pub decode_storage_value : List ℕ → Option ℕ
  pub encode_code : CodeInfo → List ℕ
  pub decode_code : List ℕ → Option CodeInfo
  pub decode-encode_account : (a : EthereumAccount) → decode_account (encode_account a) ≡ some a
  pub decode-encode_u256 : (n : ℕ) → decode_u256 (encode_u256 n) ≡ some n
  pub decode-encode_storage_value : (n : ℕ) → decode_storage_value (encode_storage_value n) ≡ some n
  pub decode-encode_code : (c : CodeInfo) → decode_code (encode_code c) ≡ some c

-- `InMemoryDb`, in the wrappers `StorageKeyWrapper` and `StateDb`, which add nothing to it.
pub record StateDb : Type 0 where
  pub inner : HashMap (List ℕ) (List ℕ)

unfoldable pub get_raw : StateKey → StateDb → Result (Option (List ℕ))
get_raw key db = ok (lookup (key_bytes key) db.inner)

unfoldable pub set_raw : StateKey → List ℕ → StateDb → Result StateDb
set_raw key value db = ok (record { inner = insert (key_bytes key) value db.inner })

unfoldable pub delete : StateKey → StateDb → Result StateDb
delete key db = ok (record { inner = remove (key_bytes key) db.inner })

-- The value that a read returned, decoded, or the error `e`.
abbrev pub decoded :
    {B A : Type 0} → (B → Option A) → DbError → Result (Option B) → Result (Option A)
decoded decode e (ok none) = ok none
decoded decode e (ok (some raw)) = elim (decode raw) [ none ↦ err e | some a ↦ ok (some a) ]
decoded decode e (err e') = err e'
decoded decode e panic = panic

module _ ⦃rlp : Rlp⦄ where
  -- `get::<T>`, at the type whose decoder is given
  unfoldable pub get : {A : Type 0} → (List ℕ → Option A) → StateKey → StateDb → Result (Option A)
  unfolding get_raw
  get decode key db = decoded decode decoder_error (get_raw key db)

  -- `set::<T>`: a default value is deleted.
  unfoldable pub set : StateKey → Bool → List ℕ → StateDb → Result StateDb
  unfolding delete set_raw
  set key is_default raw db = if is_default then delete key db else set_raw key raw db

  unfoldable pub get_account : AddressWithSpace → StateDb → Result (Option Account)
  unfolding get_raw
  get_account a db =
      Result_map
        (λ (o : Option EthereumAccount). elim o [
          | none ↦ none
          | some e ↦ some (from_ethereum_account a.address e)
        ])
        (decoded rlp.decode_account account_error (get_raw (account_key a) db))

  -- The hash is not used.
  unfoldable pub get_code : AddressWithSpace → ℕ → StateDb → Result (Option CodeInfo)
  unfolding get
  get_code a code_hash db = get rlp.decode_code (code_key a) db

  -- `get::<StorageValue>` under a storage key
  unfoldable pub get_storage_value : AddressWithSpace → List ℕ → StateDb → Result (Option ℕ)
  unfolding get
  get_storage_value a k db = get rlp.decode_storage_value (storage_key a k) db

  unfoldable pub set_storage_value : AddressWithSpace → List ℕ → ℕ → StateDb → Result StateDb
  unfolding set
  set_storage_value a k v db = set (storage_key a k) (v == 0) (rlp.encode_storage_value v) db

  unfoldable pub set_code : AddressWithSpace → CodeInfo → StateDb → Result StateDb
  unfolding set
  set_code a c db = set (code_key a) (code_is_default c) (rlp.encode_code c) db

  unfoldable pub set_account : ⦃k : Keccak⦄ → AddressWithSpace → Account → StateDb → Result StateDb
  unfolding set
  set_account a acc db =
      set (account_key a) (account_is_default acc) (rlp.encode_account (to_evm_account acc)) db

-- `STORAGE_INTEREST_STAKING_CONTRACT_ADDRESS`
abbrev pub storage_interest_staking_contract_address : ℕ
storage_interest_staking_contract_address = 0x0888000000000000000000000000000000000002

-- `TOTAL_TOKENS_KEY`
abbrev pub total_tokens_key : List ℕ
total_tokens_key =
    b't' ∷ b'o' ∷ b't' ∷ b'a' ∷ b'l' ∷ b'_' ∷ b'i' ∷ b's' ∷ b's' ∷ b'u' ∷ b'e' ∷ b'd' ∷ b'_' ∷ b't'
    ∷ b'o' ∷ b'k' ∷ b'e' ∷ b'n' ∷ b's' ∷ []

module _ ⦃rlp : Rlp⦄ where
  unfoldable pub get_total_issued_tokens : StateDb → Result ℕ
  unfolding get
  get_total_issued_tokens db =
      Result_map (λ (o : Option ℕ). elim o [ none ↦ 0 | some n ↦ n ])
        (get rlp.decode_u256
          (storage_key (with_evm_space storage_interest_staking_contract_address) total_tokens_key)
          db)

  unfoldable pub set_total_issued_tokens : ℕ → StateDb → Result StateDb
  unfolding set
  set_total_issued_tokens n db =
      set (storage_key (with_evm_space storage_interest_staking_contract_address) total_tokens_key)
        (n == 0) (rlp.encode_u256 n) db
