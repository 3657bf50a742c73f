-- ===== src/Evm/Arith.antt =====
-- The arithmetic of the machine: the arms of `exec_instruction` in src/evm/interpreter/mod.rs, as
-- functions of the items they take from the stack. A word is a number below 2 to the 256.
use cfx_evm.Base.{
  ℕ, ◌+◌, ◌-◌, ◌*◌, ◌/◌, ◌%◌, ◌^◌, Bool, true, false, not, ◌&&◌, ◌||◌, Option, none, some, ltb, leb,
  ◌==◌, if◌then◌else◌,
}
use cfx_evm.Evm.Error.{VmResult, ok, panic}
pub mod Words
pub mod Byte

abbrev pub bool_to_u256 : Bool → ℕ
bool_to_u256 true = 1
bool_to_u256 false = 0

-- `a ^ b` of two signs.
abbrev pub xor : Bool → Bool → Bool
xor true b = not b
xor false b = b

-- The complement of a word, and one more.
unfoldable pub set_sign : ℕ → Bool → ℕ
set_sign value sign = if sign then (2 ^ 256 - 1 - value + 1) % 2 ^ 256 else value

unfoldable pub get_and_reset_sign : ℕ → ℕ × Bool
unfolding set_sign
get_and_reset_sign value = let sign = leb (2 ^ 255) value in (set_sign value sign, sign)

unfoldable pub add : ℕ → ℕ → ℕ
add a b = (a + b) % 2 ^ 256

unfoldable pub mul : ℕ → ℕ → ℕ
mul a b = (a * b) % 2 ^ 256

unfoldable pub sub : ℕ → ℕ → ℕ
sub a b = (a + 2 ^ 256 - b) % 2 ^ 256

unfoldable pub div : ℕ → ℕ → ℕ
div a b =
    if not (b == 0)
    then (if b == 1
        then a
        else if b == 2
        then a / 2 ^ 1
        else if b == 2 ^ 5
        then a / 2 ^ 5
        else if b == 2 ^ 8
        then a / 2 ^ 8
        else if b == 2 ^ 16
        then a / 2 ^ 16
        else if b == 2 ^ 24
        then a / 2 ^ 24
        else if b == 2 ^ 64
        then a / 2 ^ 64
        else if b == 2 ^ 96
        then a / 2 ^ 96
        else if b == 2 ^ 224
        then a / 2 ^ 224
        else if b == 2 ^ 248
        then a / 2 ^ 248
        else a / b)
    else 0

unfoldable pub mod_op : ℕ → ℕ → ℕ
mod_op a b = if not (b == 0) then a % b else 0

unfoldable pub sdiv : ℕ → ℕ → ℕ
unfolding get_and_reset_sign set_sign
sdiv x y =
    let (a, sign_a) = get_and_reset_sign x in
    let (b, sign_b) = get_and_reset_sign y in
    let least = 2 ^ 255 - 1 in
    if b == 0
    then 0
    else if a == least && b == 2 ^ 256 - 1
    then least
    else set_sign (a / b) (xor sign_a sign_b)

unfoldable pub smod : ℕ → ℕ → ℕ
unfolding get_and_reset_sign set_sign
smod x y =
    let (a, sign_a) = get_and_reset_sign x in
    let b = (get_and_reset_sign y).0 in if not (b == 0) then set_sign (a % b) sign_a else 0

unfoldable pub slt : ℕ → ℕ → ℕ
unfolding get_and_reset_sign
slt x y =
    let (a, neg_a) = get_and_reset_sign x in
    let (b, neg_b) = get_and_reset_sign y in
    let is_positive_lt = ltb a b && not (neg_a || neg_b) in
    let is_negative_lt = ltb b a && (neg_a && neg_b) in
    let has_different_signs = neg_a && not neg_b in
    bool_to_u256 (is_positive_lt || is_negative_lt || has_different_signs)

unfoldable pub sgt : ℕ → ℕ → ℕ
unfolding get_and_reset_sign
sgt x y =
    let (a, neg_a) = get_and_reset_sign x in
    let (b, neg_b) = get_and_reset_sign y in
    let is_positive_gt = ltb b a && not (neg_a || neg_b) in
    let is_negative_gt = ltb a b && (neg_a && neg_b) in
    let has_different_signs = not neg_a && neg_b in
    bool_to_u256 (is_positive_gt || is_negative_gt || has_different_signs)

-- `U256::try_from(x).expect(..)` on a number of 512 bits.
abbrev to_u256 : ℕ → VmResult ℕ
to_u256 x = if ltb x (2 ^ 256) then ok x else panic

unfoldable pub addmod : ℕ → ℕ → ℕ → VmResult ℕ
addmod a b c = if not (c == 0) then to_u256 (((a + b) % 2 ^ 512) % c) else ok 0

unfoldable pub mulmod : ℕ → ℕ → ℕ → VmResult ℕ
mulmod a b c = if not (c == 0) then to_u256 (((a * b) % 2 ^ 512) % c) else ok 0

unfoldable pub byte : ℕ → ℕ → ℕ
byte word val = if ltb word 32 then val / 2 ^ (8 * (31 - word)) % 2 ^ 8 else 0

unfoldable pub shl : ℕ → ℕ → ℕ
shl shift value = if leb 256 shift then 0 else (value * 2 ^ shift) % 2 ^ 256

unfoldable pub shr : ℕ → ℕ → ℕ
shr shift value = if leb 256 shift then 0 else value / 2 ^ shift
