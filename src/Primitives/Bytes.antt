-- ===== src/Primitives/Bytes.antt =====
-- Big-endian bytes: `to_big_endian`, `U256::from(&[u8])` and the bytes of an address or a hash.
use cfx_evm.Base.{
  ℕ, zero, suc, ◌+◌, ◌*◌, ◌/◌, ◌%◌, ◌^◌, ◌<◌, ◌≡◌, refl, sym, ap, ◌∙◌, List, [], ◌∷◌, ◌++◌, arith,
  length, length-append,
}
use native.Mathlib.Nat.{pow-suc}

-- The low `n` bytes of a number, the highest first.
unfoldable pub be_bytes : ℕ → ℕ → List ℕ
be_bytes zero x = []
be_bytes (suc n) x = be_bytes n (x / 256) ++ (x % 256) ∷ []

-- The number that a byte string stands for, after the number `acc`.
unfoldable pub be_from : ℕ → List ℕ → ℕ
be_from acc [] = acc
be_from acc (b ∷ bs) = be_from (acc * 256 + b) bs

abbrev pub be_value : List ℕ → ℕ
be_value = be_from 0

pub length-be_bytes : (n x : ℕ) → length (be_bytes n x) ≡ n
unfolding be_bytes
length-be_bytes zero x = refl
length-be_bytes (suc n) x =
    omega
      (arith, length-be_bytes n (x / 256), length-append (be_bytes n (x / 256)) ((x % 256) ∷ []))

be_from-append : (acc : ℕ) (xs ys : List ℕ) → be_from acc (xs ++ ys) ≡ be_from (be_from acc xs) ys
unfolding be_from
be_from-append acc [] ys = refl
be_from-append acc (x ∷ xs) ys = be_from-append (acc * 256 + x) xs ys

pub be_value-be_bytes : (n x : ℕ) → x < 256 ^ n → be_value (be_bytes n x) ≡ x
unfolding be_bytes be_from
be_value-be_bytes zero x h = omega arith
be_value-be_bytes (suc n) x h =
    let small : x / 256 < 256 ^ n = omega (arith, pow-suc 256 n) in
    rw
      (
        be_from-append 0 (be_bytes n (x / 256)) ((x % 256) ∷ []),
        be_value-be_bytes n (x / 256) small,
      )
      (omega arith)

-- Two numbers of `n` bytes with the same bytes are equal.
pub be_bytes-injective :
    (n x y : ℕ) → x < 256 ^ n → y < 256 ^ n → be_bytes n x ≡ be_bytes n y → x ≡ y
be_bytes-injective n x y hx hy h =
    sym (be_value-be_bytes n x hx) ∙ ap be_value h ∙ be_value-be_bytes n y hy

-- A prefix of known length can be taken off.
pub append-cancel {ℓ} :
    {A : Type ℓ} (xs ys : List A) {s t : List A}
    → length xs ≡ length ys
    → xs ++ s ≡ ys ++ t
    → (xs ≡ ys) × (s ≡ t)
append-cancel [] [] h e = (refl, e)
append-cancel [] (y ∷ ys) h e = absurd (omega arith)
append-cancel (x ∷ xs) [] h e = absurd (omega arith)
append-cancel (x ∷ xs) (y ∷ ys) {s} {t} h e = ground (arith, append-cancel xs ys {s = s} {t = t})
