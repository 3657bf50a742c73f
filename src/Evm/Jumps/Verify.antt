-- ===== src/Evm/Jumps/Verify.antt =====
-- Where a jump goes: `verify_jump` of src/evm/interpreter/mod.rs.
use cfx_evm.Base.{
  ℕ, ◌%◌, ◌^◌, ◌<◌, ◌≡◌, sym, inl, inr, ◌↔◌, true, ◌&&◌, List, some, ◌==◌, nat_eq, length,
  get_elem?, if◌then◌else◌, arith, Bool-cases,
}
use mathlib.Core.Path.{subst}
use cfx_evm.Evm.Error.{ok, err, bad_jump_destination}
use cfx_evm.Evm.Jumps.{contains, find_jump_and_sub_destinations, verify_jump}
use cfx_evm.Evm.Jumps.Scan.{Reaches, get_elem?-bound, find_jump_and_sub_destinations-lem}

verify_jump-ok :
    (j p : ℕ) (ds : List ℕ) → verify_jump j ds ≡ ok p → (p ≡ j) × (contains j ds ≡ true)
unfolding verify_jump
verify_jump-ok j p ds h = elim (Bool-cases (j % 2 ^ 64 == j)) [
  | inl e ↦
      let e' : j % 2 ^ 64 ≡ j = ground arith in
      let (c, q) = whole (
        subst (λ n. (if contains n ds && n == j then ok n else err (bad_jump_destination n)) ≡ ok p)
          e' h) in
      (q, c)
  | inr f ↦ absurd (ground arith)
]
  where
    whole :
        (if contains j ds && j == j then ok j else err (bad_jump_destination j)) ≡ ok p
        → (contains j ds ≡ true) × (p ≡ j)
    whole h = ground arith

verify_jump-taken :
    (j : ℕ) (ds : List ℕ) → j < 2 ^ 64 → contains j ds ≡ true → verify_jump j ds ≡ ok j
unfolding verify_jump
verify_jump-taken j ds l c =
    let e : j % 2 ^ 64 ≡ j = omega arith in
    subst (λ n. (if contains n ds && n == j then ok n else err (bad_jump_destination n)) ≡ ok j)
      (sym e) (ground arith)

-- In a code of less than 2 to the 64 bytes, a jump to a number is taken exactly if the number itself,
-- and not only its last 64 bits, is a valid destination of the
-- code: an instruction starts there and its byte is JUMPDEST.
pub verify_jump-lem :
    (code : List ℕ) (j p : ℕ)
    → length code < 2 ^ 64
    → (verify_jump j (find_jump_and_sub_destinations code).jump_destination ≡ ok p)
      ↔ ((p ≡ j) × Reaches code 0 j × (get_elem? code j ≡ some 0x5b))
unfolding verify_jump
verify_jump-lem code j p l = (
  (λ h.
      let (e, c) = verify_jump-ok j p _ h in
      let (w, x) = (find_jump_and_sub_destinations-lem code j).0 c in (e, w, x)),
  (λ (e, w, x).
      let b = get_elem?-bound code j 0x5b x in
      subst (λ n. verify_jump j (find_jump_and_sub_destinations code).jump_destination ≡ ok n)
        (sym e)
        (verify_jump-taken j _ (omega arith)
          ((find_jump_and_sub_destinations-lem code j).1 (w, x)))),
)
