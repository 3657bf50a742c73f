-- ===== src/Evm/Cost.antt =====
-- The types that gas is counted in, U256 and usize: `CostType` of src/evm/evm.rs. A cost is a number
-- below 2 to the width of its type; usize has 64 bits.
use cfx_evm.Base.{ℕ, ◌+◌, ◌*◌, ◌/◌, ◌%◌, ◌^◌, Bool, not, ltb, leb, ◌==◌, ◌||◌, if◌then◌else◌}
use cfx_evm.Evm.Error.{VmResult, ok, err, panic, out_of_gas}

pub record CostType : Type 0 where
  pub width : ℕ
  pub from_u256 : ℕ → VmResult ℕ
  pub as_usize : ℕ → VmResult ℕ
  pub overflow_mul_shr : ℕ → ℕ → ℕ → ℕ × Bool

-- The operations that both types write the same way.
unfoldable pub overflow_add : CostType → ℕ → ℕ → ℕ × Bool
overflow_add c a b = ((a + b) % 2 ^ c.width, leb (2 ^ c.width) (a + b))

unfoldable pub overflow_mul : CostType → ℕ → ℕ → ℕ × Bool
overflow_mul c a b = ((a * b) % 2 ^ c.width, leb (2 ^ c.width) (a * b))

-- The shift `<< 5` drops the bits that leave the type.
abbrev pub shl : CostType → ℕ → ℕ → ℕ
shl c a k = (a * 2 ^ k) % 2 ^ c.width

-- `as_u64` panics on a number of more than 64 bits. The overflow of `overflow_mul_shr` is that of the
-- product, before the shift.
abbrev pub u256_cost : CostType
u256_cost = record {
  width = 256;
  from_u256 = λ v. ok v;
  as_usize = λ v. if ltb v (2 ^ 64) then ok v else panic;
  overflow_mul_shr = λ a b k. ((a * b / 2 ^ k) % 2 ^ 256, leb (2 ^ 256) (a * b));
}

abbrev pub usize_cost : CostType
usize_cost = record {
  width = 64;
  from_u256 = λ v. if v % 2 ^ 64 == v then ok (v % 2 ^ 64) else err out_of_gas;
  as_usize = λ v. ok v;
  overflow_mul_shr = λ a b k.
      ((a * b / 2 ^ k) % 2 ^ 64, leb (2 ^ 128) (a * b) || not (a * b / 2 ^ 64 % 2 ^ 64 == 0));
}
