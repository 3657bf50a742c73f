-- ===== src/State/Commit/Killed.antt =====
-- What the deletion of the killed accounts changes under one key of the database.
use cfx_evm.Base.{
  ℕ, ◌≡◌, refl, ap, ◌∙◌, Bool, true, false, List, [], ◌∷◌, Option, none, some, arith, if◌then◌else◌,
  ◌=?◌, lookup, ◌||◌,
}
use mathlib.Core.Path.{subst}
use cfx_evm.Primitives.{AddressWithSpace, address_eq, Keccak}
use cfx_evm.Primitives.Keys.{StateKey, account_key, storage_key, code_key, key_address, IsH160}
use cfx_evm.StateDb.{Rlp, StateDb}
use cfx_evm.State.{Cache, OverlayAccount, AccountEntry, removed_without_update}
use cfx_evm.State.Commit.Puts.{put, raw, raw-put_other, raw-put_same, account_value, written_key}
use cfx_evm.State.Commit.Stored.{recycled, killed_of, is_killed, IsCommittable}
use cfx_evm.State.Commit.Entries.{live, own_address}

module _ ⦃k : Keccak⦄ ⦃rlp : Rlp⦄ where
  abbrev pub mem : AddressWithSpace → List AddressWithSpace → Bool
  mem a [] = false
  mem a (b ∷ bs) = (b =? a) || mem a bs

  abbrev pub AllH160 : List AddressWithSpace → Type 0
  AllH160 [] = Unit
  AllH160 (a ∷ rest) = IsH160 a × AllH160 rest

  abbrev pub erased : List AddressWithSpace → StateKey → Option (List ℕ) → Option (List ℕ)
  erased killed (account_key a) old = if mem a killed then none else old
  erased killed (storage_key a key) old = old
  erased killed (code_key a) old = old

  erase_account :
      (a b : AddressWithSpace) (db : StateDb)
      → IsH160 a
      → IsH160 b
      → raw (account_key a) (put (account_key b) none db)
        ≡ (if b =? a then none else raw (account_key a) db)
  erase_account a b db ha hb =
      elim (b =? a)
          as (λ t.
            ((b =? a) ≡ t)
            → raw (account_key a) (put (account_key b) none db)
              ≡ (if t then none else raw (account_key a) db)) [
                | true ↦ λ q.
                    subst (λ x. raw (account_key x) (put (account_key b) none db) ≡ none)
                      ((address_eq.beq_iff b a).0 q) (raw-put_same (account_key b) none db)
                | false ↦ λ q.
                    raw-put_other (account_key b) (account_key a) none db hb ha
                      (λ r. ground (arith, address_eq.beq_iff b a, ap key_address r))
              ]
        refl

  pub recycled-read :
      (killed : List AddressWithSpace) (l : StateKey) (db : StateDb)
      → IsH160 (key_address l)
      → AllH160 killed
      → raw l (recycled killed db) ≡ erased killed l (raw l db)
  unfolding recycled
  recycled-read [] (account_key a) db h c = refl
  recycled-read [] (storage_key a key) db h c = refl
  recycled-read [] (code_key a) db h c = refl
  recycled-read (b ∷ killed) (account_key a) db h c =
      recycled-read killed (account_key a) (put (account_key b) none db) h c.1
      ∙ ground (arith, erase_account a b db h c.0)
  recycled-read (b ∷ killed) (storage_key a key) db h c =
      recycled-read killed (storage_key a key) (put (account_key b) none db) h c.1
      ∙ raw-put_other (account_key b) (storage_key a key) none db c.0 h (λ q. cc)
  recycled-read (b ∷ killed) (code_key a) db h c =
      recycled-read killed (code_key a) (put (account_key b) none db) h c.1
      ∙ raw-put_other (account_key b) (code_key a) none db c.0 h (λ q. cc)

  abbrev pub killed_slot : Option AccountEntry → Bool
  killed_slot none = false
  killed_slot (some e) = is_killed e.account

  pub mem-killed_of :
      (a : AddressWithSpace) (m : Cache)
      → IsCommittable m
      → mem a (killed_of m) ≡ killed_slot (lookup a m)
  unfolding killed_of lookup
  mem-killed_of a [] c = refl
  mem-killed_of a ((b, e) ∷ m) c =
      ground (arith, mem-killed_of a m c.2, address_eq.beq_iff b a, c.0)

  pub killed_of-AllH160 : (m : Cache) → IsCommittable m → AllH160 (killed_of m)
  unfolding killed_of
  killed_of-AllH160 [] c = tt
  killed_of-AllH160 ((b, e) ∷ m) c = listed (killed_of-AllH160 m c.2) (is_killed e.account)
    where
      listed :
          AllH160 (killed_of m) → (t : Bool) → AllH160 (if t then b ∷ killed_of m else killed_of m)
      listed r true = (own_address b e.account c.1, r)
      listed r false = r

  -- A killed account leaves nothing under the key of the account, and its other keys as they were.
  abbrev pub removed_key : StateKey → Option (List ℕ) → Option (List ℕ)
  removed_key (account_key a) old = none
  removed_key (storage_key a key) old = old
  removed_key (code_key a) old = old

  -- What a slot of the cache has pending for a key of its address.
  abbrev pub pending : Option AccountEntry → StateKey → Option (List ℕ) → Option (List ℕ)
  pending none l old = old
  pending (some e) l old = elim e.account [
    | none ↦ old
    | some acc ↦ if removed_without_update acc then removed_key l old else written_key acc l old
  ]

  account_slot :
      (o : Option AccountEntry) (a : AddressWithSpace) (old : Option (List ℕ))
      → (if killed_slot o then none else live o (account_key a) old) ≡ pending o (account_key a) old
  account_slot none a old = refl
  account_slot (some e) a old = entry e.account
    where
      entry :
          (x : Option OverlayAccount)
          → (if is_killed x then none else elim x [
            | none ↦ old
            | some acc ↦ if removed_without_update acc then old else account_value acc
          ])
            ≡ (elim x [
              | none ↦ old
              | some acc ↦ if removed_without_update acc then none else account_value acc
            ])
      entry none = refl
      entry (some acc) = ground arith

  pub erased-live :
      (o : Option AccountEntry) (killed : List AddressWithSpace) (l : StateKey)
      (old : Option (List ℕ))
      → mem (key_address l) killed ≡ killed_slot o
      → erased killed l (live o l old) ≡ pending o l old
  erased-live o killed (account_key a) old h =
      ap (λ b. if b then none else live o (account_key a) old) h ∙ account_slot o a old
  erased-live none killed (storage_key a key) old h = refl
  erased-live (some e) killed (storage_key a key) old h = refl
  erased-live none killed (code_key a) old h = refl
  erased-live (some e) killed (code_key a) old h = refl
