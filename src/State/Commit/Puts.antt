-- ===== src/State/Commit/Puts.antt =====
-- The writes of a commit as changes of single keys of the database.
use cfx_evm.Base.{
  ℕ, ◌≡◌, refl, ap, ◌∙◌, Bool, true, false, List, Option, none, some, ◌==◌, arith, if◌then◌else◌,
  HashMap, ◌=?◌, lookup, insert, remove, lookup-insert, lookup-remove, bytes_eq, bytes_beq_iff,
  drain_into, drain_into-slot, drain_into-keeps, Unique,
}
use mathlib.Core.Path.{subst}
use cfx_evm.Primitives.{
  AddressWithSpace, CodeInfo, Keccak, to_evm_account, account_is_default, code_is_default,
}
use cfx_evm.Primitives.Keys.{
  StateKey, account_key, storage_key, code_key, key_bytes, key_address, key_bytes-injective, IsH160,
}
use cfx_evm.StateDb.{ok, Rlp, StateDb, delete, set_raw, set, set_storage_value}
use cfx_evm.State.{OverlayAccount, as_account, commit_slot}

abbrev pub put : StateKey → Option (List ℕ) → StateDb → StateDb
put key none db = record { inner = remove (key_bytes key) db.inner }
put key (some value) db = record { inner = insert (key_bytes key) value db.inner }

-- What the database holds under a key.
abbrev pub raw : StateKey → StateDb → Option (List ℕ)
raw key db = lookup (key_bytes key) db.inner

abbrev pub stored : Bool → List ℕ → Option (List ℕ)
stored is_default value = if is_default then none else some value

raw-put :
    (key l : StateKey) (v : Option (List ℕ)) (db : StateDb)
    → raw l (put key v db) ≡ (if key_bytes key =? key_bytes l then v else raw l db)
raw-put key l none db = lookup-remove (key_bytes key) (key_bytes l) db.inner
raw-put key l (some v) db = lookup-insert (key_bytes key) (key_bytes l) v db.inner

pub raw-put_same :
    (key : StateKey) (v : Option (List ℕ)) (db : StateDb) → raw key (put key v db) ≡ v
raw-put_same key v db =
    ground (arith, raw-put key key v db, bytes_beq_iff (key_bytes key) (key_bytes key))

pub raw-put_other :
    (key l : StateKey) (v : Option (List ℕ)) (db : StateDb)
    → IsH160 (key_address key)
    → IsH160 (key_address l)
    → ¬ (key ≡ l)
    → raw l (put key v db) ≡ raw l db
raw-put_other key l v db hk hl n = ground (
  arith,
  raw-put key l v db,
  bytes_beq_iff (key_bytes key) (key_bytes l),
  key_bytes-injective key l hk hl,
)

pub set-put :
    ⦃rlp : Rlp⦄ (key : StateKey) (d : Bool) (value : List ℕ) (db : StateDb)
    → set key d value db ≡ ok (put key (stored d value) db)
unfolding set delete set_raw
set-put key true value db = refl
set-put key false value db = refl

module _ ⦃k : Keccak⦄ ⦃rlp : Rlp⦄ where
  abbrev pub slot_value : ℕ → Option (List ℕ)
  slot_value v = stored (v == 0) (rlp.encode_storage_value v)

  abbrev pub code_value : CodeInfo → Option (List ℕ)
  code_value c = stored (code_is_default c) (rlp.encode_code c)

  abbrev pub account_value : OverlayAccount → Option (List ℕ)
  account_value acc =
      stored (account_is_default (as_account acc))
        (rlp.encode_account (to_evm_account (as_account acc)))

  pub commit_slot-put :
      (a : AddressWithSpace) (key : List ℕ) (v : ℕ) (db : StateDb)
      → commit_slot a key v db ≡ ok (put (storage_key a key) (slot_value v) db)
  unfolding set_storage_value delete
  commit_slot-put a key v db =
      ground (arith, set-put (storage_key a key) (v == 0) (rlp.encode_storage_value v) db)

  unfoldable pub store_slots : AddressWithSpace → HashMap (List ℕ) ℕ → StateDb → StateDb
  store_slots a m db = drain_into (λ key v. put (storage_key a key) (slot_value v)) m db

  abbrev pub store_code : AddressWithSpace → Option CodeInfo → StateDb → StateDb
  store_code a none db = db
  store_code a (some c) db = put (code_key a) (code_value c) db

  abbrev pub forget : AddressWithSpace → Bool → StateDb → StateDb
  forget a true db = put (account_key a) none db
  forget a false db = db

  -- What the commit of an account makes of the database.
  unfoldable pub store_account : AddressWithSpace → OverlayAccount → StateDb → StateDb
  unfolding store_slots
  store_account a acc db = put (account_key a) (account_value acc) (
      store_code a acc.code
        (store_slots a acc.storage_value_write_cache (forget a acc.invalidated_storage db)))

  -- What it leaves under a key of the account, where `old` was before.
  abbrev pub written_key : OverlayAccount → StateKey → Option (List ℕ) → Option (List ℕ)
  written_key acc (account_key a) old = account_value acc
  written_key acc (storage_key a key) old = elim (lookup key acc.storage_value_write_cache) [
    | none ↦ old
    | some v ↦ slot_value v
  ]
  written_key acc (code_key a) old = elim acc.code [ none ↦ old | some c ↦ code_value c ]

  same_slot :
      (a : AddressWithSpace) (i j : List ℕ) (v : ℕ) (db : StateDb)
      → IsH160 a
      → raw (storage_key a j) (put (storage_key a i) (slot_value v) db)
        ≡ (if i =? j then slot_value v else raw (storage_key a j) db)
  same_slot a i j v db h =
      elim (i =? j)
          as (λ b.
            ((i =? j) ≡ b)
            → raw (storage_key a j) (put (storage_key a i) (slot_value v) db)
              ≡ (if b then slot_value v else raw (storage_key a j) db)) [
                | true ↦ λ e.
                    subst
                      (λ x.
                        raw (storage_key a x) (put (storage_key a i) (slot_value v) db)
                        ≡ slot_value v)
                      ((bytes_beq_iff i j).0 e) (raw-put_same (storage_key a i) (slot_value v) db)
                | false ↦ λ e.
                    raw-put_other (storage_key a i) (storage_key a j) (slot_value v) db h h
                      (λ q. ground (arith, bytes_beq_iff i j))
              ]
        refl

  slots_keep :
      (a : AddressWithSpace) (l : StateKey) (m : HashMap (List ℕ) ℕ) (db : StateDb)
      → IsH160 a
      → IsH160 (key_address l)
      → ((key : List ℕ) → ¬ (storage_key a key ≡ l))
      → raw l (store_slots a m db) ≡ raw l db
  unfolding store_slots
  slots_keep a l m db ha hl n =
      drain_into-keeps (λ d. raw l d ≡ raw l db) (λ key v. put (storage_key a key) (slot_value v))
        (λ key v d q. raw-put_other (storage_key a key) l (slot_value v) d ha hl (n key) ∙ q) m db
        refl

  slots_read :
      (a : AddressWithSpace) (key : List ℕ) (m : HashMap (List ℕ) ℕ) (db : StateDb)
      → IsH160 a
      → Unique m
      → raw (storage_key a key) (store_slots a m db)
        ≡ (elim (lookup key m) [ none ↦ raw (storage_key a key) db | some v ↦ slot_value v ])
  unfolding store_slots
  slots_read a key m db h u =
      drain_into-slot (λ j. raw (storage_key a j)) (λ i v. put (storage_key a i) (slot_value v))
        (λ v old. slot_value v) (λ i j v d. same_slot a i j v d h) key m db u

  forget_keep :
      (a : AddressWithSpace) (l : StateKey) (b : Bool) (db : StateDb)
      → IsH160 a
      → IsH160 (key_address l)
      → ¬ (account_key a ≡ l)
      → raw l (forget a b db) ≡ raw l db
  forget_keep a l true db ha hl n = raw-put_other (account_key a) l none db ha hl n
  forget_keep a l false db ha hl n = refl

  code_keep :
      (a : AddressWithSpace) (l : StateKey) (c : Option CodeInfo) (db : StateDb)
      → IsH160 a
      → IsH160 (key_address l)
      → ¬ (code_key a ≡ l)
      → raw l (store_code a c db) ≡ raw l db
  code_keep a l none db ha hl n = refl
  code_keep a l (some c) db ha hl n = raw-put_other (code_key a) l (code_value c) db ha hl n

  code_read :
      (a : AddressWithSpace) (c : Option CodeInfo) (db : StateDb)
      → raw (code_key a) (store_code a c db)
        ≡ (elim c [ none ↦ raw (code_key a) db | some c ↦ code_value c ])
  code_read a none db = refl
  code_read a (some c) db = raw-put_same (code_key a) (code_value c) db

  -- Under a key of another address nothing changes.
  pub store_account-keep :
      (a : AddressWithSpace) (acc : OverlayAccount) (l : StateKey) (db : StateDb)
      → IsH160 a
      → IsH160 (key_address l)
      → ¬ (a ≡ key_address l)
      → raw l (store_account a acc db) ≡ raw l db
  unfolding store_account
  store_account-keep a acc l db ha hl n =
      raw-put_other (account_key a) l (account_value acc) _ ha hl (λ q. n (ap key_address q))
      ∙ code_keep a l acc.code _ ha hl (λ q. n (ap key_address q))
      ∙ slots_keep a l acc.storage_value_write_cache _ ha hl (λ key q. n (ap key_address q))
      ∙ forget_keep a l acc.invalidated_storage db ha hl (λ q. n (ap key_address q))

  -- Under a key of its own, what the account says.
  pub store_account-own :
      (acc : OverlayAccount) (l : StateKey) (db : StateDb)
      → IsH160 (key_address l)
      → Unique acc.storage_value_write_cache
      → raw l (store_account (key_address l) acc db) ≡ written_key acc l (raw l db)
  unfolding store_account
  store_account-own acc (account_key a) db h u = raw-put_same (account_key a) (account_value acc) _
  store_account-own acc (storage_key a key) db h u =
      raw-put_other (account_key a) (storage_key a key) (account_value acc) _ h h (λ q. cc)
      ∙ code_keep a (storage_key a key) acc.code _ h h (λ q. cc)
      ∙ slots_read a key acc.storage_value_write_cache _ h u
      ∙ ap
          (λ old. elim (lookup key acc.storage_value_write_cache) [
            | none ↦ old
            | some v ↦ slot_value v
          ])
          (forget_keep a (storage_key a key) acc.invalidated_storage db h h (λ q. cc))
  store_account-own acc (code_key a) db h u =
      raw-put_other (account_key a) (code_key a) (account_value acc) _ h h (λ q. cc)
      ∙ code_read a acc.code _
      ∙ ap (λ old. elim acc.code [ none ↦ old | some c ↦ code_value c ])
          (slots_keep a (code_key a) acc.storage_value_write_cache _ h h (λ key q. cc)
            ∙ forget_keep a (code_key a) acc.invalidated_storage db h h (λ q. cc))
