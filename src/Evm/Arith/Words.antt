-- ===== src/Evm/Arith/Words.antt =====
-- The shortcuts and the wide steps of the arithmetic in src/evm/interpreter/mod.rs are exact.
use cfx_evm.Base.{
  ℕ, ◌+◌, ◌-◌, ◌*◌, ◌/◌, ◌%◌, ◌^◌, ◌≤◌, ◌<◌, ◌≡◌, refl, sym, ap, ◌∙◌, true, false, inl, inr, ltb,
  ◌==◌, if◌then◌else◌, arith, Bool-cases, ==_iff,
}
use native.Mathlib.Nat.{mul-le-mul, mod-lt}
use cfx_evm.Evm.Error.{ok, panic}
use cfx_evm.Evm.Arith.{bool_to_u256, set_sign, get_and_reset_sign, div, slt, sgt, addmod, mulmod}

-- One test of the chain of divisors.
if-literal : (a b n q rest : ℕ) → q ≡ a / n → rest ≡ a / b → (if b == n then q else rest) ≡ a / b
if-literal a b n q rest l h = elim (Bool-cases (b == n)) [
  | inl e ↦ rw e (l ∙ ap (λ x. a / x) (sym ((==_iff b n).0 e)))
  | inr f ↦ rw f h
]

-- DIV is the division of the words, 0 for a divisor 0: the shifts for ten divisors do not change it.
pub div-lem : (a b : ℕ) → div a b ≡ (if b == 0 then 0 else a / b)
unfolding div
div-lem a b = elim (Bool-cases (b == 0)) [
  | inl e ↦ rw e refl
  | inr f ↦ rw f (
      if-literal a b 1 _ _ (omega arith) (
        if-literal a b 2 _ _ refl (
          if-literal a b (2 ^ 5) _ _ refl (
            if-literal a b (2 ^ 8) _ _ refl (
              if-literal a b (2 ^ 16) _ _ refl (
                if-literal a b (2 ^ 24) _ _ refl (
                  if-literal a b (2 ^ 64) _ _ refl (
                    if-literal a b (2 ^ 96) _ _ refl (
                      if-literal a b (2 ^ 224) _ _ refl
                        (if-literal a b (2 ^ 248) _ _ refl refl))))))))))
]

-- On words, SLT compares as the order of two's complement does: that of the words with the sign bit flipped.
pub slt-lem :
    (x y : ℕ)
    → x < 2 ^ 256
    → y < 2 ^ 256
    → slt x y ≡ bool_to_u256 (ltb ((x + 2 ^ 255) % 2 ^ 256) ((y + 2 ^ 255) % 2 ^ 256))
unfolding slt get_and_reset_sign set_sign
slt-lem x y h g = ground arith

-- On words, SGT is SLT with its operands exchanged.
pub sgt-slt : (x y : ℕ) → x < 2 ^ 256 → y < 2 ^ 256 → sgt x y ≡ slt y x
unfolding slt sgt get_and_reset_sign set_sign
sgt-slt x y h g = ground arith

below_modulus :
    (n c : ℕ)
    → c < 2 ^ 256
    → n < 2 ^ 512
    → (c == 0) ≡ false
    → (if ltb ((n % 2 ^ 512) % c) (2 ^ 256) then ok ((n % 2 ^ 512) % c) else panic) ≡ ok (n % c)
below_modulus n c h l z = rw (exact) (rw (small) refl)
  where
    positive : 0 < c
    positive = ground arith

    exact : n % 2 ^ 512 ≡ n
    exact = omega arith

    small : ltb (n % c) (2 ^ 256) ≡ true
    small = let b = mod-lt n positive in let l : n % c < 2 ^ 256 = omega (arith, b) in ground arith

-- ADDMOD never panics on words, and is the remainder of the exact sum, 0 for a modulus 0.
pub addmod-lem :
    (a b c : ℕ)
    → a < 2 ^ 256
    → b < 2 ^ 256
    → c < 2 ^ 256
    → addmod a b c ≡ ok (if c == 0 then 0 else (a + b) % c)
unfolding addmod
addmod-lem a b c ha hb hc = elim (Bool-cases (c == 0)) [
  | inl e ↦ rw e refl
  | inr f ↦ rw f (below_modulus (a + b) c hc (omega arith) f)
]

-- MULMOD never panics on words, and is the remainder of the exact product, 0 for a modulus 0.
pub mulmod-lem :
    (a b c : ℕ)
    → a < 2 ^ 256
    → b < 2 ^ 256
    → c < 2 ^ 256
    → mulmod a b c ≡ ok (if c == 0 then 0 else a * b % c)
unfolding mulmod
mulmod-lem a b c ha hb hc = elim (Bool-cases (c == 0)) [
  | inl e ↦ rw e refl
  | inr f ↦ rw f (below_modulus (a * b) c hc small f)
]
  where
    top : a * b ≤ (2 ^ 256 - 1) * (2 ^ 256 - 1)
    top = mul-le-mul {n₂ = 2 ^ 256 - 1} {m₂ = 2 ^ 256 - 1} (omega arith) (omega arith)

    small : a * b < 2 ^ 512
    small = omega (arith, top)
