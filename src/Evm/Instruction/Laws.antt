-- ===== src/Evm/Instruction/Laws.antt =====
-- The codes and the table of instructions fit together: src/evm/instructions.rs.
use cfx_evm.Base.{
  ℕ, ◌+◌, ◌≡◌, ◌≤◌, refl, Bool, true, false, ◌&&◌, ◌==◌, List, [], ◌∷◌, map, Option, none, some,
  leb, arith, lookup, nat_eq,
}
use mathlib.Core.Path.{subst}
use cfx_evm.Evm.Instruction.Enum.{
  Instruction, to_u8, from_u8, discriminators, variants, op_stop, op_add, op_mul, op_sub, op_div,
  op_sdiv, op_mod, op_smod, op_addmod, op_mulmod, op_exp, op_signextend, op_lt, op_gt, op_slt,
  op_sgt, op_eq, op_iszero, op_and, op_or, op_xor, op_not, op_byte, op_shl, op_shr, op_sar, op_sha3,
  op_address, op_balance, op_origin, op_caller, op_callvalue, op_calldataload, op_calldatasize,
  op_calldatacopy, op_codesize, op_codecopy, op_gasprice, op_extcodesize, op_extcodecopy,
  op_returndatasize, op_returndatacopy, op_extcodehash, op_blockhash, op_coinbase, op_timestamp,
  op_number, op_difficulty, op_gaslimit, op_chainid, op_selfbalance, op_pop, op_mload, op_mstore,
  op_mstore8, op_sload, op_sstore, op_jump, op_jumpi, op_pc, op_msize, op_gas, op_jumpdest,
  op_beginsub, op_returnsub, op_jumpsub, op_push1, op_push2, op_push3, op_push4, op_push5, op_push6,
  op_push7, op_push8, op_push9, op_push10, op_push11, op_push12, op_push13, op_push14, op_push15,
  op_push16, op_push17, op_push18, op_push19, op_push20, op_push21, op_push22, op_push23, op_push24,
  op_push25, op_push26, op_push27, op_push28, op_push29, op_push30, op_push31, op_push32, op_dup1,
  op_dup2, op_dup3, op_dup4, op_dup5, op_dup6, op_dup7, op_dup8, op_dup9, op_dup10, op_dup11,
  op_dup12, op_dup13, op_dup14, op_dup15, op_dup16, op_swap1, op_swap2, op_swap3, op_swap4,
  op_swap5, op_swap6, op_swap7, op_swap8, op_swap9, op_swap10, op_swap11, op_swap12, op_swap13,
  op_swap14, op_swap15, op_swap16, op_log0, op_log1, op_log2, op_log3, op_log4, op_create, op_call,
  op_callcode, op_return, op_delegatecall, op_create2, op_revert, op_staticcall, op_suicide,
}
use cfx_evm.Evm.Instruction.Table.{InstructionInfo, info, instructions}
use cfx_evm.Evm.Instruction.Queries.{is_push, push_bytes, dup_position, swap_position, log_topics}

-- Every instruction is read back from its code.
pub from_u8-to_u8 : (i : Instruction) → from_u8 (to_u8 i) ≡ some i
unfolding from_u8 to_u8 lookup discriminators
from_u8-to_u8 i = elim i as (λ i. from_u8 (to_u8 i) ≡ some i) [
  | op_stop ↦ refl
  | op_add ↦ refl
  | op_mul ↦ refl
  | op_sub ↦ refl
  | op_div ↦ refl
  | op_sdiv ↦ refl
  | op_mod ↦ refl
  | op_smod ↦ refl
  | op_addmod ↦ refl
  | op_mulmod ↦ refl
  | op_exp ↦ refl
  | op_signextend ↦ refl
  | op_lt ↦ refl
  | op_gt ↦ refl
  | op_slt ↦ refl
  | op_sgt ↦ refl
  | op_eq ↦ refl
  | op_iszero ↦ refl
  | op_and ↦ refl
  | op_or ↦ refl
  | op_xor ↦ refl
  | op_not ↦ refl
  | op_byte ↦ refl
  | op_shl ↦ refl
  | op_shr ↦ refl
  | op_sar ↦ refl
  | op_sha3 ↦ refl
  | op_address ↦ refl
  | op_balance ↦ refl
  | op_origin ↦ refl
  | op_caller ↦ refl
  | op_callvalue ↦ refl
  | op_calldataload ↦ refl
  | op_calldatasize ↦ refl
  | op_calldatacopy ↦ refl
  | op_codesize ↦ refl
  | op_codecopy ↦ refl
  | op_gasprice ↦ refl
  | op_extcodesize ↦ refl
  | op_extcodecopy ↦ refl
  | op_returndatasize ↦ refl
  | op_returndatacopy ↦ refl
  | op_extcodehash ↦ refl
  | op_blockhash ↦ refl
  | op_coinbase ↦ refl
  | op_timestamp ↦ refl
  | op_number ↦ refl
  | op_difficulty ↦ refl
  | op_gaslimit ↦ refl
  | op_chainid ↦ refl
  | op_selfbalance ↦ refl
  | op_pop ↦ refl
  | op_mload ↦ refl
  | op_mstore ↦ refl
  | op_mstore8 ↦ refl
  | op_sload ↦ refl
  | op_sstore ↦ refl
  | op_jump ↦ refl
  | op_jumpi ↦ refl
  | op_pc ↦ refl
  | op_msize ↦ refl
  | op_gas ↦ refl
  | op_jumpdest ↦ refl
  | op_beginsub ↦ refl
  | op_returnsub ↦ refl
  | op_jumpsub ↦ refl
  | op_push1 ↦ refl
  | op_push2 ↦ refl
  | op_push3 ↦ refl
  | op_push4 ↦ refl
  | op_push5 ↦ refl
  | op_push6 ↦ refl
  | op_push7 ↦ refl
  | op_push8 ↦ refl
  | op_push9 ↦ refl
  | op_push10 ↦ refl
  | op_push11 ↦ refl
  | op_push12 ↦ refl
  | op_push13 ↦ refl
  | op_push14 ↦ refl
  | op_push15 ↦ refl
  | op_push16 ↦ refl
  | op_push17 ↦ refl
  | op_push18 ↦ refl
  | op_push19 ↦ refl
  | op_push20 ↦ refl
  | op_push21 ↦ refl
  | op_push22 ↦ refl
  | op_push23 ↦ refl
  | op_push24 ↦ refl
  | op_push25 ↦ refl
  | op_push26 ↦ refl
  | op_push27 ↦ refl
  | op_push28 ↦ refl
  | op_push29 ↦ refl
  | op_push30 ↦ refl
  | op_push31 ↦ refl
  | op_push32 ↦ refl
  | op_dup1 ↦ refl
  | op_dup2 ↦ refl
  | op_dup3 ↦ refl
  | op_dup4 ↦ refl
  | op_dup5 ↦ refl
  | op_dup6 ↦ refl
  | op_dup7 ↦ refl
  | op_dup8 ↦ refl
  | op_dup9 ↦ refl
  | op_dup10 ↦ refl
  | op_dup11 ↦ refl
  | op_dup12 ↦ refl
  | op_dup13 ↦ refl
  | op_dup14 ↦ refl
  | op_dup15 ↦ refl
  | op_dup16 ↦ refl
  | op_swap1 ↦ refl
  | op_swap2 ↦ refl
  | op_swap3 ↦ refl
  | op_swap4 ↦ refl
  | op_swap5 ↦ refl
  | op_swap6 ↦ refl
  | op_swap7 ↦ refl
  | op_swap8 ↦ refl
  | op_swap9 ↦ refl
  | op_swap10 ↦ refl
  | op_swap11 ↦ refl
  | op_swap12 ↦ refl
  | op_swap13 ↦ refl
  | op_swap14 ↦ refl
  | op_swap15 ↦ refl
  | op_swap16 ↦ refl
  | op_log0 ↦ refl
  | op_log1 ↦ refl
  | op_log2 ↦ refl
  | op_log3 ↦ refl
  | op_log4 ↦ refl
  | op_create ↦ refl
  | op_call ↦ refl
  | op_callcode ↦ refl
  | op_return ↦ refl
  | op_delegatecall ↦ refl
  | op_create2 ↦ refl
  | op_revert ↦ refl
  | op_staticcall ↦ refl
  | op_suicide ↦ refl
]

-- A test that holds of every item of a list.
abbrev pub all : {A : Type 0} → (A → Bool) → List A → Bool
all test [] = true
all test (i ∷ is) = test i && all test is

all-lookup :
    {A : Type 0} (code : A → ℕ) (test : A → Bool) (is : List A) (n : ℕ) (i : A)
    → all test is ≡ true
    → lookup n (map (λ j. (code j, j)) is) ≡ some i
    → test i ≡ true
unfolding lookup
all-lookup code test [] n i h q = absurd (cc)
all-lookup code test (j ∷ is) n i h q = ground (arith, all-lookup code test is n i)

-- What is tested on the list of variants holds of every instruction.
pub every :
    (test : Instruction → Bool) → all test variants ≡ true → (i : Instruction) → test i ≡ true
unfolding from_u8 discriminators
every test h i = all-lookup to_u8 test variants (to_u8 i) i h (from_u8-to_u8 i)

lookup-coded :
    (is : List Instruction) (n : ℕ) (i : Instruction)
    → lookup n (map (λ j. (to_u8 j, j)) is) ≡ some i
    → to_u8 i ≡ n
unfolding lookup
lookup-coded [] n i q = absurd (cc)
lookup-coded (j ∷ is) n i q = ground (arith, lookup-coded is n i)

-- Every byte that is read as an instruction is the code of that instruction.
pub to_u8-from_u8 : (n : ℕ) (i : Instruction) → from_u8 n ≡ some i → to_u8 i ≡ n
unfolding from_u8 discriminators
to_u8-from_u8 n i h = lookup-coded variants n i h

-- The stack items that an instruction of one of the four families takes and leaves, by its position
-- in the family.
unfoldable pub family_shape : Instruction → Option (ℕ × ℕ)
unfolding push_bytes dup_position swap_position log_topics
family_shape i = elim (push_bytes i) [
  | some n ↦ some (0, 1)
  | none ↦ elim (dup_position i) [
    | some n ↦ some (n + 1, n + 2)
    | none ↦ elim (swap_position i) [
      | some n ↦ some (n + 1, n + 1)
      | none ↦ elim (log_topics i) [ some n ↦ some (n + 2, 0) | none ↦ none ]
    ]
  ]
]

abbrev agrees : Option (ℕ × ℕ) → InstructionInfo → Bool
agrees none e = true
agrees (some (a, r)) e = e.args == a && e.ret == r

abbrev in_table : (InstructionInfo → Bool) → Option InstructionInfo → Bool
in_table test none = false
in_table test (some e) = test e

in_table-entry :
    (test : InstructionInfo → Bool) (o : Option InstructionInfo)
    → in_table test o ≡ true
    → (e : InstructionInfo) × (o ≡ some e) × (test e ≡ true)
in_table-entry test none h = absurd (cc)
in_table-entry test (some e) h = (e, refl, h)

-- Every instruction has an entry in the table, which never takes more than 17 stack items and never
-- leaves more than one item more than it takes.
pub info-bounds :
    (i : Instruction)
    → (e : InstructionInfo) × (info i ≡ some e) × (e.args ≤ 17) × (e.ret ≤ e.args + 1)
unfolding info instructions to_u8 lookup
info-bounds i =
    let test : InstructionInfo → Bool = λ e. leb e.args 17 && leb e.ret (e.args + 1) in
    let (e, q, h) = in_table-entry test (info i) (every (λ i. in_table test (info i)) refl i) in
    (e, q, ground arith, ground arith)

-- The table and the four families agree: if the position of an instruction among the pushes, the
-- duplications, the swaps or the logs says that it takes `a` items and leaves `r`, then so does its
-- entry in the table.
pub info-family_shape :
    (i : Instruction) (a r : ℕ)
    → family_shape i ≡ some (a, r)
    → (e : InstructionInfo) × (info i ≡ some e) × (e.args ≡ a) × (e.ret ≡ r)
unfolding info instructions to_u8 lookup is_push push_bytes dup_position swap_position log_topics
    family_shape
info-family_shape i a r h =
    let (e, q, t) =
      in_table-entry (agrees (family_shape i)) (info i)
        (every (λ i. in_table (agrees (family_shape i)) (info i)) refl i) in
    let t' : agrees (some (a, r)) e ≡ true = subst (λ o. agrees o e ≡ true) h t in
    (e, q, ground arith, ground arith)
