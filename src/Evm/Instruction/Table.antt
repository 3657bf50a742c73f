-- ===== src/Evm/Instruction/Table.antt =====
-- The table of instructions in src/evm/instructions.rs.
use Prim.Native.String.{String}
use cfx_evm.Base.{ℕ, [], ◌∷◌, Option, HashMap, lookup, nat_eq}
use cfx_evm.Evm.Instruction.Enum.{
  Instruction, to_u8, op_stop, op_add, op_mul, op_sub, op_div, op_sdiv, op_mod, op_smod, op_addmod,
  op_mulmod, op_exp, op_signextend, op_lt, op_gt, op_slt, op_sgt, op_eq, op_iszero, op_and, op_or,
  op_xor, op_not, op_byte, op_shl, op_shr, op_sar, op_sha3, op_address, op_balance, op_origin,
  op_caller, op_callvalue, op_calldataload, op_calldatasize, op_calldatacopy, op_codesize,
  op_codecopy, op_gasprice, op_extcodesize, op_extcodecopy, op_returndatasize, op_returndatacopy,
  op_extcodehash, op_blockhash, op_coinbase, op_timestamp, op_number, op_difficulty, op_gaslimit,
  op_chainid, op_selfbalance, op_pop, op_mload, op_mstore, op_mstore8, op_sload, op_sstore, op_jump,
  op_jumpi, op_pc, op_msize, op_gas, op_jumpdest, op_beginsub, op_returnsub, op_jumpsub, op_push1,
  op_push2, op_push3, op_push4, op_push5, op_push6, op_push7, op_push8, op_push9, op_push10,
  op_push11, op_push12, op_push13, op_push14, op_push15, op_push16, op_push17, op_push18, op_push19,
  op_push20, op_push21, op_push22, op_push23, op_push24, op_push25, op_push26, op_push27, op_push28,
  op_push29, op_push30, op_push31, op_push32, op_dup1, op_dup2, op_dup3, op_dup4, op_dup5, op_dup6,
  op_dup7, op_dup8, op_dup9, op_dup10, op_dup11, op_dup12, op_dup13, op_dup14, op_dup15, op_dup16,
  op_swap1, op_swap2, op_swap3, op_swap4, op_swap5, op_swap6, op_swap7, op_swap8, op_swap9,
  op_swap10, op_swap11, op_swap12, op_swap13, op_swap14, op_swap15, op_swap16, op_log0, op_log1,
  op_log2, op_log3, op_log4, op_create, op_call, op_callcode, op_return, op_delegatecall,
  op_create2, op_revert, op_staticcall, op_suicide,
}

pub data GasPriceTier : Type 0 where
  zero base very_low low mid high ext special : GasPriceTier

unfoldable pub idx : GasPriceTier → ℕ
idx zero = 0
idx base = 1
idx very_low = 2
idx low = 3
idx mid = 4
idx high = 5
idx ext = 6
idx special = 7

pub record InstructionInfo : Type 0 where
  pub name : String
  pub args : ℕ
  pub ret : ℕ
  pub tier : GasPriceTier

-- `arr[i as usize] = Some(InstructionInfo::new(name, args, ret, tier))`
abbrev set : Instruction → String → ℕ → ℕ → GasPriceTier → ℕ × InstructionInfo
set i name args ret tier = (to_u8 i, record { name = name; args = args; ret = ret; tier = tier })

-- `INSTRUCTIONS`, with an entry for each index that the source gives one.
unfoldable pub instructions : HashMap ℕ InstructionInfo
instructions =
    set op_stop "STOP" 0 0 zero
    ∷ set op_add "ADD" 2 1 very_low
    ∷ set op_sub "SUB" 2 1 very_low
    ∷ set op_mul "MUL" 2 1 low
    ∷ set op_div "DIV" 2 1 low
    ∷ set op_sdiv "SDIV" 2 1 low
    ∷ set op_mod "MOD" 2 1 low
    ∷ set op_smod "SMOD" 2 1 low
    ∷ set op_exp "EXP" 2 1 special
    ∷ set op_not "NOT" 1 1 very_low
    ∷ set op_lt "LT" 2 1 very_low
    ∷ set op_gt "GT" 2 1 very_low
    ∷ set op_slt "SLT" 2 1 very_low
    ∷ set op_sgt "SGT" 2 1 very_low
    ∷ set op_eq "EQ" 2 1 very_low
    ∷ set op_iszero "ISZERO" 1 1 very_low
    ∷ set op_and "AND" 2 1 very_low
    ∷ set op_or "OR" 2 1 very_low
    ∷ set op_xor "XOR" 2 1 very_low
    ∷ set op_byte "BYTE" 2 1 very_low
    ∷ set op_shl "SHL" 2 1 very_low
    ∷ set op_shr "SHR" 2 1 very_low
    ∷ set op_sar "SAR" 2 1 very_low
    ∷ set op_addmod "ADDMOD" 3 1 mid
    ∷ set op_mulmod "MULMOD" 3 1 mid
    ∷ set op_signextend "SIGNEXTEND" 2 1 low
    ∷ set op_returndatasize "RETURNDATASIZE" 0 1 base
    ∷ set op_returndatacopy "RETURNDATACOPY" 3 0 very_low
    ∷ set op_sha3 "SHA3" 2 1 special
    ∷ set op_address "ADDRESS" 0 1 base
    ∷ set op_balance "BALANCE" 1 1 special
    ∷ set op_origin "ORIGIN" 0 1 base
    ∷ set op_caller "CALLER" 0 1 base
    ∷ set op_callvalue "CALLVALUE" 0 1 base
    ∷ set op_calldataload "CALLDATALOAD" 1 1 very_low
    ∷ set op_calldatasize "CALLDATASIZE" 0 1 base
    ∷ set op_calldatacopy "CALLDATACOPY" 3 0 very_low
    ∷ set op_extcodehash "EXTCODEHASH" 1 1 special
    ∷ set op_codesize "CODESIZE" 0 1 base
    ∷ set op_codecopy "CODECOPY" 3 0 very_low
    ∷ set op_gasprice "GASPRICE" 0 1 base
    ∷ set op_extcodesize "EXTCODESIZE" 1 1 special
    ∷ set op_extcodecopy "EXTCODECOPY" 4 0 special
    ∷ set op_blockhash "BLOCKHASH" 1 1 ext
    ∷ set op_coinbase "COINBASE" 0 1 base
    ∷ set op_timestamp "TIMESTAMP" 0 1 base
    ∷ set op_number "NUMBER" 0 1 base
    ∷ set op_difficulty "DIFFICULTY" 0 1 base
    ∷ set op_gaslimit "GASLIMIT" 0 1 base
    ∷ set op_chainid "CHAINID" 0 1 base
    ∷ set op_selfbalance "SELFBALANCE" 0 1 low
    ∷ set op_pop "POP" 1 0 base
    ∷ set op_mload "MLOAD" 1 1 very_low
    ∷ set op_mstore "MSTORE" 2 0 very_low
    ∷ set op_mstore8 "MSTORE8" 2 0 very_low
    ∷ set op_sload "SLOAD" 1 1 special
    ∷ set op_sstore "SSTORE" 2 0 special
    ∷ set op_jump "JUMP" 1 0 mid
    ∷ set op_jumpi "JUMPI" 2 0 high
    ∷ set op_pc "PC" 0 1 base
    ∷ set op_msize "MSIZE" 0 1 base
    ∷ set op_gas "GAS" 0 1 base
    ∷ set op_jumpdest "JUMPDEST" 0 0 special
    ∷ set op_push1 "PUSH1" 0 1 very_low
    ∷ set op_push2 "PUSH2" 0 1 very_low
    ∷ set op_push3 "PUSH3" 0 1 very_low
    ∷ set op_push4 "PUSH4" 0 1 very_low
    ∷ set op_push5 "PUSH5" 0 1 very_low
    ∷ set op_push6 "PUSH6" 0 1 very_low
    ∷ set op_push7 "PUSH7" 0 1 very_low
    ∷ set op_push8 "PUSH8" 0 1 very_low
    ∷ set op_push9 "PUSH9" 0 1 very_low
    ∷ set op_push10 "PUSH10" 0 1 very_low
    ∷ set op_push11 "PUSH11" 0 1 very_low
    ∷ set op_push12 "PUSH12" 0 1 very_low
    ∷ set op_push13 "PUSH13" 0 1 very_low
    ∷ set op_push14 "PUSH14" 0 1 very_low
    ∷ set op_push15 "PUSH15" 0 1 very_low
    ∷ set op_push16 "PUSH16" 0 1 very_low
    ∷ set op_push17 "PUSH17" 0 1 very_low
    ∷ set op_push18 "PUSH18" 0 1 very_low
    ∷ set op_push19 "PUSH19" 0 1 very_low
    ∷ set op_push20 "PUSH20" 0 1 very_low
    ∷ set op_push21 "PUSH21" 0 1 very_low
    ∷ set op_push22 "PUSH22" 0 1 very_low
    ∷ set op_push23 "PUSH23" 0 1 very_low
    ∷ set op_push24 "PUSH24" 0 1 very_low
    ∷ set op_push25 "PUSH25" 0 1 very_low
    ∷ set op_push26 "PUSH26" 0 1 very_low
    ∷ set op_push27 "PUSH27" 0 1 very_low
    ∷ set op_push28 "PUSH28" 0 1 very_low
    ∷ set op_push29 "PUSH29" 0 1 very_low
    ∷ set op_push30 "PUSH30" 0 1 very_low
    ∷ set op_push31 "PUSH31" 0 1 very_low
    ∷ set op_push32 "PUSH32" 0 1 very_low
    ∷ set op_dup1 "DUP1" 1 2 very_low
    ∷ set op_dup2 "DUP2" 2 3 very_low
    ∷ set op_dup3 "DUP3" 3 4 very_low
    ∷ set op_dup4 "DUP4" 4 5 very_low
    ∷ set op_dup5 "DUP5" 5 6 very_low
    ∷ set op_dup6 "DUP6" 6 7 very_low
    ∷ set op_dup7 "DUP7" 7 8 very_low
    ∷ set op_dup8 "DUP8" 8 9 very_low
    ∷ set op_dup9 "DUP9" 9 10 very_low
    ∷ set op_dup10 "DUP10" 10 11 very_low
    ∷ set op_dup11 "DUP11" 11 12 very_low
    ∷ set op_dup12 "DUP12" 12 13 very_low
    ∷ set op_dup13 "DUP13" 13 14 very_low
    ∷ set op_dup14 "DUP14" 14 15 very_low
    ∷ set op_dup15 "DUP15" 15 16 very_low
    ∷ set op_dup16 "DUP16" 16 17 very_low
    ∷ set op_swap1 "SWAP1" 2 2 very_low
    ∷ set op_swap2 "SWAP2" 3 3 very_low
    ∷ set op_swap3 "SWAP3" 4 4 very_low
    ∷ set op_swap4 "SWAP4" 5 5 very_low
    ∷ set op_swap5 "SWAP5" 6 6 very_low
    ∷ set op_swap6 "SWAP6" 7 7 very_low
    ∷ set op_swap7 "SWAP7" 8 8 very_low
    ∷ set op_swap8 "SWAP8" 9 9 very_low
    ∷ set op_swap9 "SWAP9" 10 10 very_low
    ∷ set op_swap10 "SWAP10" 11 11 very_low
    ∷ set op_swap11 "SWAP11" 12 12 very_low
    ∷ set op_swap12 "SWAP12" 13 13 very_low
    ∷ set op_swap13 "SWAP13" 14 14 very_low
    ∷ set op_swap14 "SWAP14" 15 15 very_low
    ∷ set op_swap15 "SWAP15" 16 16 very_low
    ∷ set op_swap16 "SWAP16" 17 17 very_low
    ∷ set op_log0 "LOG0" 2 0 special
    ∷ set op_log1 "LOG1" 3 0 special
    ∷ set op_log2 "LOG2" 4 0 special
    ∷ set op_log3 "LOG3" 5 0 special
    ∷ set op_log4 "LOG4" 6 0 special
    ∷ set op_beginsub "BEGINSUB" 0 0 base
    ∷ set op_jumpsub "JUMPSUB" 1 0 high
    ∷ set op_returnsub "RETURNSUB" 0 0 low
    ∷ set op_create "CREATE" 3 1 special
    ∷ set op_call "CALL" 7 1 special
    ∷ set op_callcode "CALLCODE" 7 1 special
    ∷ set op_return "RETURN" 2 0 zero
    ∷ set op_delegatecall "DELEGATECALL" 6 1 special
    ∷ set op_staticcall "STATICCALL" 6 1 special
    ∷ set op_suicide "SUICIDE" 1 0 special
    ∷ set op_create2 "CREATE2" 4 1 special
    ∷ set op_revert "REVERT" 2 0 zero
    ∷ []

-- `Instruction::info`; `none` is the panic of `expect`.
unfoldable pub info : Instruction → Option InstructionInfo
unfolding instructions to_u8 lookup
info i = lookup (to_u8 i) instructions
