-- ===== src/Evm/Requirements/Affords.antt =====
-- A call that can be paid for is not made too dear by the gas it passes on: the end of
-- `requirements` and `verify_gas` of src/evm/interpreter/gasometer.rs.
use cfx_evm.Base.{
  ℕ, ◌+◌, ◌%◌, ◌^◌, ◌≤◌, ◌<◌, ◌≡◌, refl, sym, ap, ◌∙◌, Option, some, inl, inr, leb, arith,
  Bool-cases,
}
use mathlib.Core.Path.{subst}
use native.Mathlib.Nat.{mod-eq_of_lt}
use cfx_evm.Spec.{Spec}
use cfx_evm.Evm.Error.{VmResult, ok, err, panic, overflowing, ◌>>=◌}
use cfx_evm.Evm.Cost.{CostType, overflow_add}
use cfx_evm.Evm.Gasometer.{Gasometer, verify_gas, gas_provided, mem_gas_cost}
use cfx_evm.Evm.Gasometer.Bounds.{gas_provided-bounds}
use cfx_evm.Evm.Requirements.Types.{gas_mem_provide, InstructionRequirements}
use cfx_evm.Evm.Requirements.Fulfil.{fulfil}

-- A sum that is not flagged is exact.
overflowing-overflow_add :
    (c : CostType) (a b t : ℕ) → overflowing (overflow_add c a b) ≡ ok t → t ≡ a + b
unfolding overflow_add
overflowing-overflow_add c a b t h = exact (2 ^ c.width) (a + b) h
  where
    exact : (m n : ℕ) → overflowing (n % m, leb m n) ≡ ok t → t ≡ n
    exact m n h = elim (Bool-cases (leb m n)) [
      | inl l ↦ absurd (let b = subst (λ x. overflowing (n % m, x) ≡ ok t) l h in cc)
      | inr f ↦
          let b : ◌≡◌ {A = VmResult ℕ} (ok (n % m)) (ok t) =
            subst (λ x. overflowing (n % m, x) ≡ ok t) f h in
          let small : n < m = ground arith in let e : n % m ≡ t = cc in sym e ∙ mod-eq_of_lt small
    ]

verify_gas-lem : (g : Gasometer) (n : ℕ) → n ≤ g.current_gas → verify_gas n g ≡ ok tt
unfolding verify_gas
verify_gas-lem g n h = ground arith

module _ (c : CostType) (spec : Spec) (g : Gasometer) (requested : Option ℕ)
    (r : InstructionRequirements) (p : ℕ) (cap : spec.sub_gas_cap_divisor ≡ some 64)
    (provides : r.provide_gas ≡ some p) (paid : r.gas_cost ≤ g.current_gas + p) where
  abbrev summed : ℕ → ℕ → ℕ → ℕ → VmResult ℕ → VmResult InstructionRequirements
  summed needed provided mem size m = m >>= λ total. ok (record {
    gas_cost = total;
    provide_gas = some provided;
    memory_total_gas = mem;
    memory_required_size = size;
  })

  after_sum :
      (needed provided mem size : ℕ) (m : VmResult ℕ)
      → overflowing (overflow_add c needed provided) ≡ m
      → gas_provided c spec needed requested g ≡ ok provided
      → summed needed provided mem size m ≡ ok r
      → verify_gas r.gas_cost g ≡ ok tt
  unfolding ◌>>=◌
  after_sum needed provided mem size (ok total) e q h =
      let sum : total ≡ needed + provided = overflowing-overflow_add c needed provided total e in
      let same : ◌≡◌ {A = InstructionRequirements} _ r = ok_eq h in
      let cost : total ≡ r.gas_cost = ap (λ (x : InstructionRequirements). x.gas_cost) same in
      let given : ◌≡◌ {A = Option ℕ} (some provided) (some p) =
        ap (λ (x : InstructionRequirements). x.provide_gas) same ∙ provides in
      let gift : provided ≡ p = cc in
      let (p', q', b, l) = gas_provided-bounds c spec needed requested g cap (omega arith) in
      let agree : ◌≡◌ {A = VmResult ℕ} (ok p') (ok provided) = sym q' ∙ q in
      let agreed : p' ≡ provided = cc in verify_gas-lem g r.gas_cost (omega arith)
    where
      ok_eq :
          {x y : InstructionRequirements}
          → ◌≡◌ {A = VmResult InstructionRequirements} (ok x) (ok y)
          → x ≡ y
      ok_eq h = cc
  after_sum needed provided mem size (err x) e q h = absurd (cc)
  after_sum needed provided mem size panic e q h = absurd (cc)

  after_gas :
      (needed mem size : ℕ) (m : VmResult ℕ)
      → gas_provided c spec needed requested g ≡ m
      → (m >>= λ provided.
          summed needed provided mem size (overflowing (overflow_add c needed provided)))
        ≡ ok r
      → verify_gas r.gas_cost g ≡ ok tt
  unfolding ◌>>=◌
  after_gas needed mem size (ok provided) q h = after_sum needed provided mem size _ refl q h
  after_gas needed mem size (err x) q h = absurd (cc)
  after_gas needed mem size panic q h = absurd (cc)

  after_need :
      (mem size : ℕ) (m : VmResult ℕ)
      → (m >>= λ needed. gas_provided c spec needed requested g >>= λ provided.
          summed needed provided mem size (overflowing (overflow_add c needed provided)))
        ≡ ok r
      → verify_gas r.gas_cost g ≡ ok tt
  unfolding ◌>>=◌
  after_need mem size (ok needed) h = after_gas needed mem size _ refl h
  after_need mem size (err x) h = absurd (cc)
  after_need mem size panic h = absurd (cc)

  after_mem :
      (cost : ℕ) (m : VmResult (ℕ × ℕ × ℕ))
      → (m >>= λ x. overflowing (overflow_add c cost x.0) >>= λ needed.
          gas_provided c spec needed requested g >>= λ provided.
          summed needed provided x.1 x.2 (overflowing (overflow_add c needed provided)))
        ≡ ok r
      → verify_gas r.gas_cost g ≡ ok tt
  unfolding ◌>>=◌
  after_mem cost (ok (mc, mem, size)) h =
      after_need mem size (overflowing (overflow_add c cost mc)) h
  after_mem cost (err x) h = absurd (cc)
  after_mem cost panic h = absurd (cc)

-- Where the gas of a call is capped at all but one 64th: if the requirements of a call or a creation
-- are computed without an error, and the gas left pays for them without the gas that they pass on,
-- then the check of the gas passes.
pub verify_gas-fulfil :
    (c : CostType) (spec : Spec) (g : Gasometer) (cost mem_size current_mem_size p : ℕ)
    (requested : Option ℕ) (r : InstructionRequirements)
    → spec.sub_gas_cap_divisor ≡ some 64
    → fulfil c spec current_mem_size g (gas_mem_provide cost mem_size requested) ≡ ok r
    → r.provide_gas ≡ some p
    → r.gas_cost ≤ g.current_gas + p
    → verify_gas r.gas_cost g ≡ ok tt
unfolding fulfil
verify_gas-fulfil c spec g cost mem_size current_mem_size p requested r cap h provides paid =
    after_mem c spec g requested r p cap provides paid cost
      (mem_gas_cost c spec current_mem_size mem_size g) h
