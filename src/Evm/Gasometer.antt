-- ===== src/Evm/Gasometer.antt =====
-- What an instruction costs, and what it may pass on: src/evm/interpreter/gasometer.rs.
use cfx_evm.Base.{
  ℕ, ◌-◌, ◌/◌, ◌^◌, min, Bool, false, Option, none, some, ltb, leb, ◌==◌, if◌then◌else◌,
}
use cfx_evm.Primitives.{⊤}
use cfx_evm.Spec.{Spec}
use cfx_evm.Evm.Error.{VmResult, ok, err, panic, out_of_gas, ◌>>=◌, overflowing}
use cfx_evm.Evm.Cost.{CostType, overflow_add, overflow_mul, shl}
pub mod Bounds
pub mod Memory

pub record Gasometer : Type 0 where
  pub current_gas : ℕ
  pub current_mem_gas : ℕ

unfoldable pub verify_gas : ℕ → Gasometer → VmResult ⊤
verify_gas gas_cost g = if ltb g.current_gas gas_cost then err out_of_gas else ok tt

-- The requested gas, once it is converted: `requested.map(Gas::from_u256)`.
abbrev pub converted : CostType → Option ℕ → Option (VmResult ℕ)
converted c none = none
converted c (some r) = some (c.from_u256 r)

-- `min` with a request that fits the type, and all of it otherwise.
abbrev pub capped : ℕ → Option (VmResult ℕ) → VmResult ℕ
capped limit (some (ok r)) = ok (min r limit)
capped limit _ = ok limit

-- `gas_remaining - gas_remaining / cap_divisor`, where a zero divisor panics.
abbrev pub max_gas_provided : ℕ → ℕ → VmResult ℕ
max_gas_provided divisor remaining =
    if divisor == 64
    then ok (remaining - remaining / 2 ^ 6)
    else if divisor == 0
    then panic
    else ok (remaining - remaining / divisor)

abbrev pub uncapped : ℕ → ℕ → Option (VmResult ℕ) → VmResult ℕ
uncapped current needed (some r) = r
uncapped current needed none = if leb needed current then ok (current - needed) else ok 0

abbrev pub provided_with : CostType → ℕ → ℕ → Option (VmResult ℕ) → Option ℕ → VmResult ℕ
provided_with c current needed requested (some divisor) =
    if leb needed current
    then (max_gas_provided divisor (current - needed) >>= λ limit. capped limit requested)
    else uncapped current needed requested
provided_with c current needed requested none = uncapped current needed requested

unfoldable pub gas_provided : CostType → Spec → ℕ → Option ℕ → Gasometer → VmResult ℕ
gas_provided c spec needed requested g =
    provided_with c g.current_gas needed (converted c requested) spec.sub_gas_cap_divisor

unfoldable pub to_word_size : CostType → ℕ → ℕ × Bool
unfolding overflow_add
to_word_size c value =
    let (gas, overflow) = overflow_add c value 31 in
    if overflow then (gas, overflow) else (gas / 2 ^ 5, false)

unfoldable pub mem_needed_const : CostType → ℕ → ℕ → VmResult ℕ
unfolding overflow_add
mem_needed_const c mem add =
    overflowing (overflow_add (record c { width = 256 }) mem add) >>= c.from_u256

unfoldable pub mem_needed : CostType → ℕ → ℕ → VmResult ℕ
unfolding overflow_add
mem_needed c offset size =
    if size == 0
    then ok 0
    else (overflowing (overflow_add (record c { width = 256 }) offset size) >>= c.from_u256)

-- The closure of `mem_gas_cost`: what a memory of `mem_size` bytes has cost in all.
unfoldable pub gas_for_mem : CostType → Spec → ℕ → VmResult ℕ
unfolding overflow_add overflow_mul
gas_for_mem c spec mem_size =
    let s = mem_size / 2 ^ 5 in
    overflowing (overflow_mul c s spec.memory_gas) >>= λ a.
    if spec.quad_coeff_div == 512
    then (overflowing (c.overflow_mul_shr s s 9) >>= λ b. overflowing (overflow_add c a b))
    else panic

-- The subtraction of the gas paid before panics where it is more than the new total.
abbrev pub charge : ℕ → ℕ → VmResult (ℕ × ℕ)
charge new_mem_gas paid =
    if leb paid new_mem_gas then ok (new_mem_gas - paid, new_mem_gas) else panic

unfoldable pub mem_gas_cost : CostType → Spec → ℕ → ℕ → Gasometer → VmResult (ℕ × ℕ × ℕ)
unfolding to_word_size gas_for_mem
mem_gas_cost c spec current_mem_size mem_size g = overflowing (to_word_size c mem_size) >>= λ words.
    let rounded = shl c words 5 in
    (if ltb current_mem_size rounded
      then (gas_for_mem c spec rounded >>= λ total. charge total g.current_mem_gas)
      else ok (0, g.current_mem_gas))
    >>= λ (cost, total). c.as_usize rounded >>= λ size. ok (cost, total, size)
