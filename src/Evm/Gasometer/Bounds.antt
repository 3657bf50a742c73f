-- ===== src/Evm/Gasometer/Bounds.antt =====
-- What a call may be given: `gas_provided` of src/evm/interpreter/gasometer.rs.
use cfx_evm.Base.{ℕ, ◌+◌, ◌-◌, ◌/◌, ◌^◌, ◌≤◌, min, ◌≡◌, refl, true, Option, none, some, leb, arith}
use cfx_evm.Spec.{Spec}
use cfx_evm.Evm.Error.{◌>>=◌, VmResult, ok, err, panic}
use cfx_evm.Evm.Cost.{CostType}
use cfx_evm.Evm.Gasometer.{Gasometer, gas_provided, converted, capped}

capped-bounds :
    (limit : ℕ) (r : Option (VmResult ℕ)) → (p : ℕ) × (capped limit r ≡ ok p) × (p ≤ limit)
capped-bounds limit none = (limit, refl, omega arith)
capped-bounds limit (some (ok r)) = (min r limit, refl, omega arith)
capped-bounds limit (some (err e)) = (limit, refl, omega arith)
capped-bounds limit (some panic) = (limit, refl, omega arith)

-- Where the specification caps the gas of a call at all but one 64th, and the gas left pays for the
-- instruction, a call is given gas whatever it requests: at most what is left after the instruction
-- is paid less a 64th of it, rounded down, so the instruction and the call together cost no more
-- than the gas left.
pub gas_provided-bounds :
    (c : CostType) (spec : Spec) (needed : ℕ) (requested : Option ℕ) (g : Gasometer)
    → spec.sub_gas_cap_divisor ≡ some 64
    → needed ≤ g.current_gas
    → (p : ℕ) × (gas_provided c spec needed requested g ≡ ok p)
      × (p + (g.current_gas - needed) / 64 ≤ g.current_gas - needed)
      × (needed + p ≤ g.current_gas)
unfolding gas_provided ◌>>=◌
gas_provided-bounds c spec needed requested g h n =
    let remaining = g.current_gas - needed in
    let (p, q, b) = capped-bounds (remaining - remaining / 2 ^ 6) (converted c requested) in
    let covered : leb needed g.current_gas ≡ true = ground arith in
    (p, rw h (rw covered q), omega arith, omega arith)
