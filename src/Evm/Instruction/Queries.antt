-- ===== src/Evm/Instruction/Queries.antt =====
-- The questions that src/evm/instructions.rs answers of an instruction.
use cfx_evm.Base.{ℕ, ◌+◌, ◌-◌, Bool, ◌&&◌, Option, none, some, leb, if◌then◌else◌}
use cfx_evm.Evm.Instruction.Enum.{
  Instruction, to_u8, op_push1, op_push32, op_dup1, op_dup16, op_swap1, op_swap16, op_log0, op_log4,
}

-- `*self >= first && *self <= last`: the derived order is that of the codes.
abbrev is_between : Instruction → Instruction → Instruction → Bool
is_between i first last = leb (to_u8 first) (to_u8 i) && leb (to_u8 i) (to_u8 last)

unfoldable pub is_push : Instruction → Bool
unfolding to_u8
is_push i = is_between i op_push1 op_push32

unfoldable pub push_bytes : Instruction → Option ℕ
unfolding is_push to_u8
push_bytes i = if is_push i then some (to_u8 i - to_u8 op_push1 + 1) else none

unfoldable pub dup_position : Instruction → Option ℕ
unfolding to_u8
dup_position i = if is_between i op_dup1 op_dup16 then some (to_u8 i - to_u8 op_dup1) else none

unfoldable pub swap_position : Instruction → Option ℕ
unfolding to_u8
swap_position i =
    if is_between i op_swap1 op_swap16 then some (to_u8 i - to_u8 op_swap1 + 1) else none

unfoldable pub log_topics : Instruction → Option ℕ
unfolding to_u8
log_topics i = if is_between i op_log0 op_log4 then some (to_u8 i - to_u8 op_log0) else none
