-- ===== src/Evm/Jumps.antt =====
-- The jump destinations of a code: src/evm/interpreter/shared_cache.rs, and `verify_jump` of
-- src/evm/interpreter/mod.rs. A `BitSet` is the list of its members.
use cfx_evm.Base.{
  ℕ, zero, suc, ◌+◌, ◌%◌, ◌^◌, Bool, true, false, ◌||◌, ◌&&◌, List, [], ◌∷◌, Option, none, some,
  ◌==◌, length, get_elem?, if◌then◌else◌,
}
use cfx_evm.Evm.Instruction.Enum.{Instruction, to_u8, from_u8, op_jumpdest, op_beginsub}
use cfx_evm.Evm.Instruction.Queries.{push_bytes}
use cfx_evm.Evm.Error.{VmResult, ok, err, bad_jump_destination}
pub mod Scan
pub mod Verify

pub record CacheItem : Type 0 where
  pub jump_destination : List ℕ
  pub sub_entrypoint : List ℕ

-- `BitSet::contains`
unfoldable pub contains : ℕ → List ℕ → Bool
contains p [] = false
contains p (q ∷ qs) = p == q || contains p qs

abbrev pub is_op : Instruction → Instruction → Bool
is_op i j = to_u8 i == to_u8 j

-- What one round of the loop marks.
unfoldable pub mark : Option Instruction → ℕ → CacheItem → CacheItem
unfolding to_u8
mark none position item = item
mark (some i) position item =
    if is_op i op_jumpdest
    then record item { jump_destination = position ∷ item.jump_destination }
    else if is_op i op_beginsub
    then record item { sub_entrypoint = position ∷ item.sub_entrypoint }
    else item

abbrev pub or_zero : Option ℕ → ℕ
or_zero none = 0
or_zero (some n) = n

-- The bytes that the round passes over after the instruction.
unfoldable pub skip : Option Instruction → ℕ
unfolding to_u8 push_bytes
skip none = 0
skip (some i) = if is_op i op_jumpdest || is_op i op_beginsub then 0 else or_zero (push_bytes i)

-- The loop; a round for each byte of the code is enough fuel.
unfoldable pub scan : ℕ → List ℕ → ℕ → CacheItem → CacheItem
unfolding mark skip from_u8
scan zero code position item = item
scan (suc fuel) code position item = elim (get_elem? code position) [
  | none ↦ item
  | some b ↦ scan fuel code (position + skip (from_u8 b) + 1) (mark (from_u8 b) position item)
]

unfoldable pub find_jump_and_sub_destinations : List ℕ → CacheItem
unfolding scan
find_jump_and_sub_destinations code =
    scan (length code) code 0 (record { jump_destination = []; sub_entrypoint = [] })

-- A destination on the stack, of 256 bits, against the set of valid ones.
unfoldable pub verify_jump : ℕ → List ℕ → VmResult ℕ
unfolding contains
verify_jump jump_u valid_jump_destinations =
    let jump = jump_u % 2 ^ 64 in
    if contains jump valid_jump_destinations && jump == jump_u
    then ok jump
    else err (bad_jump_destination jump)
