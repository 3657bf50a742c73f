-- ===== src/Evm/Jumps/Scan.antt =====
-- The jump destinations of a code are the JUMPDEST bytes that no push swallows:
-- src/evm/interpreter/shared_cache.rs.
use cfx_evm.Base.{
  ℕ, zero, suc, ◌+◌, ◌-◌, ◌≤◌, ◌<◌, ◌≡◌, refl, sym, ap, ◌∙◌, ◌⊎◌, inl, inr, ◌↔◌, Bool, true, ◌||◌,
  ◌&&◌, List, [], ◌∷◌, Option, none, some, ◌==◌, leb, ltb, lookup, nat_eq, ==_iff, length,
  get_elem?, if◌then◌else◌, arith, Bool-cases,
}
use mathlib.Core.Path.{subst}
use cfx_evm.Evm.Instruction.Enum.{Instruction, to_u8, from_u8, op_jumpdest}
use cfx_evm.Evm.Instruction.Queries.{push_bytes, is_push}
use cfx_evm.Evm.Instruction.Laws.{to_u8-from_u8}
use cfx_evm.Evm.Jumps.{CacheItem, contains, mark, skip, scan, find_jump_and_sub_destinations}

-- The bytes that follow a byte as the operand of a push.
abbrev pub immediate : ℕ → ℕ
immediate b = if leb 0x60 b && leb b 0x7f then b - 0x5f else 0

-- From `q` on, the instructions of the code lead to one that starts at `p`.
pub data Reaches (code : List ℕ) : ℕ → ℕ → Type 0 where
  here : {p : ℕ} → Reaches code p p
  next :
      {q p b : ℕ}
      → get_elem? code q ≡ some b
      → Reaches code (q + immediate b + 1) p
      → Reaches code q p

abbrev all_below : (ℕ → Bool) → ℕ → Bool
all_below test zero = true
all_below test (suc n) = test n && all_below test n

below : (test : ℕ → Bool) (n k : ℕ) → all_below test n ≡ true → k < n → test k ≡ true
below test zero k h l = absurd (omega arith)
below test (suc n) k h l = elim (Bool-cases (k == n)) [
  | inl e ↦ let e' : k ≡ n = ground arith in subst (λ x. test x ≡ true) (sym e') (ground arith)
  | inr e ↦ below test n k (ground arith) (ground arith)
]

-- The loop passes over the operand of a push, and over nothing else.
skip-immediate : (b : ℕ) → skip (from_u8 b) ≡ immediate b
unfolding skip push_bytes is_push to_u8 from_u8 lookup
skip-immediate b = elim (Bool-cases (ltb b 128)) [
  | inl l ↦ (==_iff _ _).0 (below (λ b. skip (from_u8 b) == immediate b) 128 b refl (ground arith))
  | inr g ↦ high (from_u8 b) refl (ground arith)
]
  where
    high : (o : Option Instruction) → from_u8 b ≡ o → 128 ≤ b → skip o ≡ immediate b
    high none q g = ground arith
    high (some i) q g = ground (arith, to_u8-from_u8 b i q)

from_u8_jumpdest : (b : ℕ) → b ≡ 0x5b → from_u8 b ≡ some op_jumpdest
unfolding from_u8 lookup to_u8
from_u8_jumpdest b e = subst (λ x. from_u8 x ≡ some op_jumpdest) (sym e) refl

-- A round marks a position as a destination if and only if it stands on a JUMPDEST.
mark-contains :
    (b q p : ℕ) (item : CacheItem)
    → contains p (mark (from_u8 b) q item).jump_destination
      ≡ (p == q && b == 0x5b || contains p item.jump_destination)
unfolding mark contains to_u8
mark-contains b q p item = go (from_u8 b) refl
  where
    go :
        (o : Option Instruction)
        → from_u8 b ≡ o
        → contains p (mark o q item).jump_destination
          ≡ (p == q && b == 0x5b || contains p item.jump_destination)
    go none e = ground (arith, from_u8_jumpdest b)
    go (some i) e = ground (arith, to_u8-from_u8 b i e)

-- The positions that the loop marks beyond those it starts with.
abbrev Marked : List ℕ → ℕ → ℕ → Type 0
Marked code q p = Reaches code q p × (get_elem? code p ≡ some 0x5b)

abbrev marks : CacheItem → ℕ → Bool
marks item p = contains p item.jump_destination

scan_sound :
    (fuel : ℕ) (code : List ℕ) (q p : ℕ) (item : CacheItem)
    → marks (scan fuel code q item) p ≡ true
    → (marks item p ≡ true) ⊎ Marked code q p
unfolding scan
scan_sound zero code q p item h = inl h
scan_sound (suc fuel) code q p item h =
    go (λ b r. scan_sound fuel code (q + skip (from_u8 b) + 1) p (mark (from_u8 b) q item) r)
      (get_elem? code q) refl h
  where
    Rest : ℕ → Type 0
    Rest b =
        marks (scan fuel code (q + skip (from_u8 b) + 1) (mark (from_u8 b) q item)) p ≡ true
        → (marks (mark (from_u8 b) q item) p ≡ true) ⊎ Marked code (q + skip (from_u8 b) + 1) p

    go :
        ((b : ℕ) → Rest b)
        → (o : Option ℕ) → get_elem? code q ≡ o
        → marks
            (elim o [
              | none ↦ item
              | some b ↦ scan fuel code (q + skip (from_u8 b) + 1) (mark (from_u8 b) q item)
            ])
            p
          ≡ true
        → (marks item p ≡ true) ⊎ Marked code q p
    go rest none e r = inl r
    go rest (some b) e r = elim (rest b r) [
      | inr (w, x) ↦ inr (next e (subst (λ n. Reaches code (q + n + 1) p) (skip-immediate b) w), x)
      | inl m ↦ elim (Bool-cases (p == q && b == 0x5b)) [
        | inr f ↦ inl (ground (arith, mark-contains b q p item))
        | inl t ↦
            let pq : q ≡ p = ground arith in
            let b5 : b ≡ 0x5b = ground arith in
            inr (
              subst (Reaches code q) pq here,
              subst (λ x. get_elem? code x ≡ some 0x5b) pq (e ∙ ap some b5),
            )
      ]
    ]

scan-keeps :
    (fuel : ℕ) (code : List ℕ) (q p : ℕ) (item : CacheItem)
    → marks item p ≡ true
    → marks (scan fuel code q item) p ≡ true
unfolding scan
scan-keeps zero code q p item h = h
scan-keeps (suc fuel) code q p item h =
    go
      (λ b.
        scan-keeps fuel code (q + skip (from_u8 b) + 1) p (mark (from_u8 b) q item)
          (ground (arith, mark-contains b q p item)))
      (get_elem? code q)
  where
    go :
        ((b : ℕ)
          → marks (scan fuel code (q + skip (from_u8 b) + 1) (mark (from_u8 b) q item)) p ≡ true)
        → (o : Option ℕ)
        → marks
            (elim o [
              | none ↦ item
              | some b ↦ scan fuel code (q + skip (from_u8 b) + 1) (mark (from_u8 b) q item)
            ])
            p
          ≡ true
    go rest none = h
    go rest (some b) = rest b

pub get_elem?-bound : (code : List ℕ) (q b : ℕ) → get_elem? code q ≡ some b → q < length code
get_elem?-bound [] q b h = absurd (cc)
get_elem?-bound (x ∷ xs) zero b h = omega arith
get_elem?-bound (x ∷ xs) (suc q) b h = omega (arith, get_elem?-bound xs q b h)

scan_complete :
    (fuel : ℕ) (code : List ℕ) (q p : ℕ) (item : CacheItem)
    → length code ≤ q + fuel
    → Reaches code q p
    → get_elem? code p ≡ some 0x5b
    → marks (scan fuel code q item) p ≡ true
unfolding scan
scan_complete zero code q p item l here x =
    absurd (let b = get_elem?-bound code q 0x5b x in omega arith)
scan_complete zero code q p item l (next {b = b} e w) x =
    absurd (let g = get_elem?-bound code q b e in omega arith)
scan_complete (suc fuel) code q p item l here x =
    rw (x, scan) (scan-keeps fuel code _ p _ (ground (arith, mark-contains 0x5b q q item)))
scan_complete (suc fuel) code q p item l (next {b = b} e w) x =
    rw (e, scan)
      (scan_complete fuel code (q + skip (from_u8 b) + 1) p (mark (from_u8 b) q item) (omega arith)
        (subst (λ n. Reaches code (q + n + 1) p) (sym (skip-immediate b)) w) x)

-- A position is a valid jump destination exactly if an instruction starts there, as the code is read
-- from its first byte with the operands of pushes passed over, and the byte there is JUMPDEST.
pub find_jump_and_sub_destinations-lem :
    (code : List ℕ) (p : ℕ)
    → (contains p (find_jump_and_sub_destinations code).jump_destination ≡ true)
      ↔ (Reaches code 0 p × (get_elem? code p ≡ some 0x5b))
unfolding find_jump_and_sub_destinations contains
find_jump_and_sub_destinations-lem code p = (
  (λ h. elim (scan_sound (length code) code 0 p _ h) [ inl e ↦ absurd (cc) | inr m ↦ m ]),
  (λ (w, x). scan_complete (length code) code 0 p _ (omega arith) w x),
)
