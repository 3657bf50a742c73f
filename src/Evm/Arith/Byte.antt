-- ===== src/Evm/Arith/Byte.antt =====
-- BYTE of src/evm/interpreter/mod.rs, next to the big-endian bytes of a word.
use cfx_evm.Base.{
  ℕ, zero, suc, ◌+◌, ◌-◌, ◌*◌, ◌/◌, ◌%◌, ◌^◌, ◌<◌, ◌≡◌, refl, sym, ap, ◌∙◌, List, [], ◌∷◌, ◌++◌,
  some, inl, inr, arith, ltb, length, get_elem?, Bool-cases,
}
use native.Mathlib.Nat.{pow-suc, div-div-eq-div-mul}
use cfx_evm.Primitives.{be_bytes, length-be_bytes}
use cfx_evm.Evm.Arith.{byte}

get_elem?-append_left :
    (xs ys : List ℕ) (i : ℕ) → i < length xs → get_elem? (xs ++ ys) i ≡ get_elem? xs i
get_elem?-append_left [] ys i h = absurd (omega arith)
get_elem?-append_left (x ∷ xs) ys zero h = refl
get_elem?-append_left (x ∷ xs) ys (suc i) h = get_elem?-append_left xs ys i (omega arith)

get_elem?-append_last : (xs : List ℕ) (y : ℕ) → get_elem? (xs ++ y ∷ []) (length xs) ≡ some y
get_elem?-append_last [] y = refl
get_elem?-append_last (x ∷ xs) y = get_elem?-append_last xs y

get_elem?-be_bytes :
    (n x i j : ℕ) → i + j + 1 ≡ n → get_elem? (be_bytes n x) i ≡ some (x / 256 ^ j % 256)
unfolding be_bytes
get_elem?-be_bytes zero x i j h = absurd (omega arith)
get_elem?-be_bytes (suc n) x i zero h =
    ap (get_elem? (be_bytes n (x / 256) ++ (x % 256) ∷ []))
      (omega (arith, length-be_bytes n (x / 256)))
    ∙ get_elem?-append_last (be_bytes n (x / 256)) (x % 256)
    ∙ ap some (omega arith)
get_elem?-be_bytes (suc n) x i (suc j) h =
    get_elem?-append_left (be_bytes n (x / 256)) ((x % 256) ∷ []) i
      (omega (arith, length-be_bytes n (x / 256)))
    ∙ get_elem?-be_bytes n (x / 256) i j (omega arith)
    ∙ ap (λ z. some (z % 256))
        (div-div-eq-div-mul x 256 (256 ^ j) ∙ ap (λ z. x / z) (omega (arith, pow-suc 256 j)))

pow_eight : (j : ℕ) → 2 ^ (8 * j) ≡ 256 ^ j
pow_eight zero = refl
pow_eight (suc j) =
    ap (λ e. 2 ^ e) (omega arith)
    ∙ doubled (8 * j)
    ∙ ap (λ z. 256 * z) (pow_eight j)
    ∙ omega (arith, pow-suc 256 j)
  where
    doubled : (m : ℕ) → 2 ^ (suc (suc (suc (suc (suc (suc (suc (suc m)))))))) ≡ 256 * 2 ^ m
    doubled m = omega (
      arith,
      pow-suc 2 m,
      pow-suc 2 (suc m),
      pow-suc 2 (suc (suc m)),
      pow-suc 2 (suc (suc (suc m))),
      pow-suc 2 (suc (suc (suc (suc m)))),
      pow-suc 2 (suc (suc (suc (suc (suc m))))),
      pow-suc 2 (suc (suc (suc (suc (suc (suc m)))))),
      pow-suc 2 (suc (suc (suc (suc (suc (suc (suc m))))))),
    )

-- For an index below 32, BYTE is the byte of the word at that place, the highest first.
pub byte-be_bytes : (i v : ℕ) → i < 32 → get_elem? (be_bytes 32 v) i ≡ some (byte i v)
unfolding byte
byte-be_bytes i v h = elim (Bool-cases (ltb i 32)) [
  | inl l ↦
      get_elem?-be_bytes 32 v i (31 - i) (omega arith)
      ∙ rw l (ap (λ z. some (v / z % 256)) (sym (pow_eight (31 - i))))
  | inr g ↦ absurd (ground arith)
]
