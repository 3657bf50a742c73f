-- ===== src/Evm/Gasometer/Memory.antt =====
-- What memory costs: `mem_gas_cost` of src/evm/interpreter/gasometer.rs.
use cfx_evm.Base.{
  ℕ, ◌+◌, ◌-◌, ◌*◌, ◌/◌, ◌%◌, ◌^◌, ◌≤◌, ◌<◌, max, ◌≡◌, refl, ap, ◌∙◌, true, false, inl, inr,
  Bool-cases, ltb, leb, arith,
}
use native.Mathlib.Nat.{mul-le-mul}
use cfx_evm.Spec.{Spec}
use cfx_evm.Evm.Error.{ok, overflowing, ◌>>=◌}
use cfx_evm.Evm.Cost.{CostType, u256_cost, usize_cost, overflow_add, overflow_mul, shl}
use cfx_evm.Evm.Gasometer.{Gasometer, to_word_size, gas_for_mem, mem_gas_cost}

-- The price of a memory of `w` words.
abbrev pub mem_price : ℕ → ℕ
mem_price w = 3 * w + w * w / 512

square_mono : (v w : ℕ) → v ≤ w → v * v ≤ w * w
square_mono v w h = mul-le-mul h h

mem_price_mono : (v w : ℕ) → v ≤ w → mem_price v ≤ mem_price w
mem_price_mono v w h = omega (arith, square_mono v w h)

-- The words that cover `n` bytes.
abbrev pub words : ℕ → ℕ
words n = (n + 31) / 32

-- The two types of gas, between which `Factory::create` of src/evm/factory.rs chooses by the gas.
pub data Cost : Type 0 where
  u256 usize : Cost

abbrev pub cost_type : Cost → CostType
cost_type u256 = u256_cost
cost_type usize = usize_cost

-- The words that are priced without an overflow: for a usize the square must fit 64 bits.
abbrev pub max_words : Cost → ℕ
max_words u256 = 2 ^ 59 - 1
max_words usize = 2 ^ 32 - 1

to_word_size-lem :
    (t : Cost) (n : ℕ)
    → n + 31 < 2 ^ 64
    → overflowing (to_word_size (cost_type t) n) ≡ ok ((n + 31) / 32)
unfolding to_word_size overflow_add
to_word_size-lem u256 n h = ground arith
to_word_size-lem usize n h = ground arith

-- A sum or a product that fits is not cut.
overflowing-fits :
    (t : Cost) (n : ℕ)
    → n < 2 ^ (cost_type t).width
    → overflowing (n % 2 ^ (cost_type t).width, leb (2 ^ (cost_type t).width) n) ≡ ok n
overflowing-fits u256 n h = ground arith
overflowing-fits usize n h = ground arith

small_words : (t : Cost) (w : ℕ) → w ≤ max_words t → w ≤ 2 ^ 59 - 1
small_words u256 w h = h
small_words usize w h = omega arith

mem_price-fits : (t : Cost) (w : ℕ) → w ≤ max_words t → mem_price w < 2 ^ (cost_type t).width
mem_price-fits u256 w h = omega (arith, square_mono w (2 ^ 59 - 1) h)
mem_price-fits usize w h = omega (arith, square_mono w (2 ^ 32 - 1) h)

shifted_square :
    (t : Cost) (w : ℕ)
    → w ≤ max_words t
    → overflowing ((cost_type t).overflow_mul_shr w w 9) ≡ ok (w * w / 512)
shifted_square u256 w h =
    let small : w * w ≤ (2 ^ 59 - 1) * (2 ^ 59 - 1) = square_mono w (2 ^ 59 - 1) h in ground arith
shifted_square usize w h =
    let small : w * w ≤ (2 ^ 32 - 1) * (2 ^ 32 - 1) = square_mono w (2 ^ 32 - 1) h in ground arith

gas_for_mem-lem :
    (t : Cost) (spec : Spec) (w : ℕ)
    → spec.memory_gas ≡ 3
    → spec.quad_coeff_div ≡ 512
    → w ≤ max_words t
    → gas_for_mem (cost_type t) spec (32 * w) ≡ ok (mem_price w)
unfolding gas_for_mem overflow_add overflow_mul ◌>>=◌
gas_for_mem-lem t spec w m q h = rw m (
    rw q (
      rw halved (
        rw (overflowing-fits t (w * 3) (omega (arith, fits))) (
          rw (shifted_square t w h) (
            overflowing-fits t (w * 3 + w * w / 512) (omega (arith, fits))
            ∙ ap ok (omega arith))))))
  where
    halved : 32 * w / 2 ^ 5 ≡ w
    halved = omega arith

    fits : mem_price w < 2 ^ (cost_type t).width
    fits = mem_price-fits t w h

-- The size of a memory that is priced fits a usize, and the shift that computes it drops no bit.
rounded_size :
    (t : Cost) (w : ℕ)
    → w ≤ max_words t
    → (shl (cost_type t) w 5 ≡ 32 * w) × ((cost_type t).as_usize (32 * w) ≡ ok (32 * w))
rounded_size u256 w h = (omega arith, ground arith)
rounded_size usize w h = (omega arith, refl)

-- Gas is counted in a U256 or, where it fits, in a usize, and a word of memory costs 3 at a quadratic
-- divisor of 512. The memory has `w` words, and what was paid for it is their price. Then an
-- instruction that needs the first `n` bytes leaves a memory of the words that cover them, or of `w`
-- words if these are more; the charge is the difference of the two prices, so that what was paid is
-- the price again, whatever the steps in which memory grows. The words are at most `max_words`: less
-- than 2 to the 59 for a U256 and less than 2 to the 32 for a usize.
pub mem_gas_cost-lem :
    (t : Cost) (spec : Spec) (g : Gasometer) (w n : ℕ)
    → spec.memory_gas ≡ 3
    → spec.quad_coeff_div ≡ 512
    → w ≤ max_words t
    → words n ≤ max_words t
    → g.current_mem_gas ≡ mem_price w
    → mem_gas_cost (cost_type t) spec (32 * w) n g
      ≡ ok (mem_price (max w (words n)) - mem_price w, mem_price (max w (words n)), 32 * words n)
unfolding mem_gas_cost ◌>>=◌
mem_gas_cost-lem t spec g w n m q b l paid =
    rw (to_word_size-lem t n (omega (arith, small_words t (words n) l))) (
      rw (rounded_size t (words n) l).0 (elim (Bool-cases (ltb (32 * w) (32 * words n))) [
        | inl e ↦ rw e (
            rw (gas_for_mem-lem t spec (words n) m q l)
              (rw paid (rw (paid_less e) (rw (rounded_size t (words n) l).1 (rw (larger e) refl)))))
        | inr f ↦ rw f (
            rw paid (
              rw (rounded_size t (words n) l).1
                (rw (smaller f) (ap (λ z. ok (z, mem_price w, 32 * words n)) (omega arith)))))
      ]))
  where
    larger : ltb (32 * w) (32 * words n) ≡ true → max w (words n) ≡ words n
    larger e = ground arith

    smaller : ltb (32 * w) (32 * words n) ≡ false → max w (words n) ≡ w
    smaller e = ground arith

    less : ltb (32 * w) (32 * words n) ≡ true → w ≤ words n
    less e = ground arith

    paid_less : ltb (32 * w) (32 * words n) ≡ true → leb (mem_price w) (mem_price (words n)) ≡ true
    paid_less e = ground (arith, mem_price_mono w (words n) (less e))
