-- ===== src/Primitives/Keys.antt =====
-- The byte strings under which the state is stored: utils/primitives/src/storage_key.rs.
use cfx_evm.Base.{ℕ, ◌^◌, ◌<◌, ◌≡◌, refl, sym, ap, ◌∙◌, List, [], ◌∷◌, ◌++◌, arith}
use mathlib.Core.List.{append-nil}
use cfx_evm.Primitives.Bytes.{be_bytes, length-be_bytes, be_bytes-injective, append-cancel}
use cfx_evm.Primitives.Defs.{AddressWithSpace, ethereum, Space}

pub data StateKey : Type 0 where
  account_key : AddressWithSpace → StateKey
  storage_key : AddressWithSpace → List ℕ → StateKey
  code_key : AddressWithSpace → StateKey

-- `STORAGE_PREFIX`
abbrev storage_prefix : List ℕ
storage_prefix = b's' ∷ b't' ∷ b'o' ∷ b'r' ∷ b'e' ∷ []

-- `CODE_PREFIX`
abbrev code_prefix : List ℕ
code_prefix = b'c' ∷ b'o' ∷ b'd' ∷ b'e' ∷ []

abbrev address_bytes : AddressWithSpace → List ℕ
address_bytes a = be_bytes 20 a.address

-- `From<OwnedStateKey> for Vec<u8>`
unfoldable pub key_bytes : StateKey → List ℕ
key_bytes (account_key a) = address_bytes a
key_bytes (storage_key a k) = address_bytes a ++ (storage_prefix ++ k)
key_bytes (code_key a) = address_bytes a ++ code_prefix

abbrev pub key_address : StateKey → AddressWithSpace
key_address (account_key a) = a
key_address (storage_key a k) = a
key_address (code_key a) = a

-- What follows the address in a key.
abbrev key_tail : StateKey → List ℕ
key_tail (account_key a) = []
key_tail (storage_key a k) = storage_prefix ++ k
key_tail (code_key a) = code_prefix

-- The address fits in the twenty bytes of an H160.
abbrev pub IsH160 : AddressWithSpace → Type 0
IsH160 a = a.address < 2 ^ 160

key_bytes-eq : (k : StateKey) → key_bytes k ≡ address_bytes (key_address k) ++ key_tail k
unfolding key_bytes
key_bytes-eq (account_key a) = sym (append-nil (address_bytes a))
key_bytes-eq (storage_key a k) = refl
key_bytes-eq (code_key a) = refl

address-injective :
    (a b : AddressWithSpace) → IsH160 a → IsH160 b → address_bytes a ≡ address_bytes b → a ≡ b
address-injective a b ha hb e =
    space_only a b (be_bytes-injective 20 a.address b.address (omega arith) (omega arith) e)
  where
    spaces : (s t : Space) → s ≡ t
    spaces ethereum ethereum = refl

    space_only : (a b : AddressWithSpace) → a.address ≡ b.address → a ≡ b
    space_only a b e = ground (arith, spaces a.space b.space)

key_tail-injective :
    (k l : StateKey) → key_address k ≡ key_address l → key_tail k ≡ key_tail l → k ≡ l
key_tail-injective (account_key a) (account_key b) h e = ap account_key h
key_tail-injective (account_key a) (storage_key b l) h e = cc
key_tail-injective (account_key a) (code_key b) h e = cc
key_tail-injective (storage_key a k) (account_key b) h e = cc
key_tail-injective (storage_key a k) (storage_key b l) h e = ground arith
key_tail-injective (storage_key a k) (code_key b) h e = ground arith
key_tail-injective (code_key a) (account_key b) h e = cc
key_tail-injective (code_key a) (storage_key b l) h e = ground arith
key_tail-injective (code_key a) (code_key b) h e = ap code_key h

-- Two different items of the state are never stored under the same byte string, whatever their
-- kinds, if their addresses fit in twenty bytes.
pub key_bytes-injective :
    (k l : StateKey)
    → IsH160 (key_address k)
    → IsH160 (key_address l)
    → key_bytes k ≡ key_bytes l
    → k ≡ l
key_bytes-injective k l hk hl e =
    key_tail-injective k l (address-injective (key_address k) (key_address l) hk hl parts.0) parts.1
  where
    parts :
        (address_bytes (key_address k) ≡ address_bytes (key_address l)) × (key_tail k ≡ key_tail l)
    parts =
        append-cancel (address_bytes (key_address k)) (address_bytes (key_address l))
          (length-be_bytes 20 _ ∙ sym (length-be_bytes 20 _))
          (sym (key_bytes-eq k) ∙ e ∙ key_bytes-eq l)
