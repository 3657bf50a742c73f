-- ===== src/Primitives/Defs.antt =====
-- Spaces, addresses and accounts: utils/cfx_types/src/lib.rs, utils/primitives/src/account.rs and
-- is_default.rs. A U256, an H256 and an address are numbers, a byte string is a list of numbers.
use cfx_evm.Base.{ℕ, ◌^◌, ◌≡◌, Bool, true, ◌&&◌, List, [], arith, ◌==◌, length, Eq, ◌↔◌}

abbrev pub u256_mod : ℕ
u256_mod = 2 ^ 256

abbrev pub u512_mod : ℕ
u512_mod = 2 ^ 512

abbrev pub ⊤ : Type 0
⊤ = Unit

-- `Space` has one variant left in this repository.
pub data Space : Type 0 where
  ethereum : Space

pub record AddressWithSpace : Type 0 where
  pub address : ℕ
  pub space : Space

abbrev pub space_beq : Space → Space → Bool
space_beq ethereum ethereum = true

abbrev pub address_beq : AddressWithSpace → AddressWithSpace → Bool
address_beq a b = a.address == b.address && space_beq a.space b.space

pub address_beq_iff : (a b : AddressWithSpace) → (address_beq a b ≡ true) ↔ (a ≡ b)
address_beq_iff a b = (λ h. ground arith, λ h. ground arith)

instance abbrev pub address_eq : Eq AddressWithSpace
address_eq = record { beq = address_beq; beq_iff = address_beq_iff }

-- `with_evm_space`
abbrev pub with_evm_space : ℕ → AddressWithSpace
with_evm_space a = record { address = a; space = ethereum }

-- The hash function of the `keccak-hash` crate.
pub record Keccak : Type 0 where
  pub keccak : List ℕ → ℕ

-- `KECCAK_EMPTY`, which that crate documents as the hash of the empty string.
abbrev pub keccak_empty : ⦃k : Keccak⦄ → ℕ
keccak_empty ⦃k⦄ = k.keccak []

pub record Account : Type 0 where
  pub address_local_info : AddressWithSpace
  pub balance : ℕ
  pub nonce : ℕ
  pub code_hash : ℕ

pub record EthereumAccount : Type 0 where
  pub balance : ℕ
  pub nonce : ℕ
  pub code_hash : ℕ

pub record CodeInfo : Type 0 where
  pub code : List ℕ

abbrev pub code_size : CodeInfo → ℕ
code_size c = length c.code

unfoldable pub new_empty : ⦃k : Keccak⦄ → AddressWithSpace → Account
new_empty a = record { address_local_info = a; balance = 0; nonce = 0; code_hash = keccak_empty }

-- `from_ethereum_account`
unfoldable pub from_ethereum_account : ℕ → EthereumAccount → Account
from_ethereum_account a e = record {
  address_local_info = with_evm_space a;
  balance = e.balance;
  nonce = e.nonce;
  code_hash = e.code_hash;
}

-- Its assertion holds by the type: there is one space.
unfoldable pub to_evm_account : Account → EthereumAccount
to_evm_account a = record { balance = a.balance; nonce = a.nonce; code_hash = a.code_hash }

-- `IsDefault for Account`
unfoldable pub account_is_default : ⦃k : Keccak⦄ → Account → Bool
account_is_default a = a.balance == 0 && a.nonce == 0 && a.code_hash == keccak_empty

-- `IsDefault for CodeInfo`
unfoldable pub code_is_default : CodeInfo → Bool
code_is_default c = length c.code == 0
