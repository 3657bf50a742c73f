-- ===== src/Evm/Instruction/Enum.antt =====
-- The instructions of src/evm/instructions.rs and their codes.
use cfx_evm.Base.{ℕ, List, [], ◌∷◌, map, Option, HashMap, lookup, nat_eq}

-- `STOP` is `op_stop` here, and so on.
pub data Instruction : Type 0 where
  op_stop op_add op_mul op_sub op_div op_sdiv op_mod op_smod op_addmod op_mulmod op_exp
        op_signextend op_lt op_gt op_slt op_sgt op_eq op_iszero op_and op_or op_xor op_not op_byte
        op_shl op_shr op_sar op_sha3 op_address op_balance op_origin op_caller op_callvalue
        op_calldataload op_calldatasize op_calldatacopy op_codesize op_codecopy op_gasprice
        op_extcodesize op_extcodecopy op_returndatasize op_returndatacopy op_extcodehash
        op_blockhash op_coinbase op_timestamp op_number op_difficulty op_gaslimit op_chainid
        op_selfbalance op_pop op_mload op_mstore op_mstore8 op_sload op_sstore op_jump op_jumpi
        op_pc op_msize op_gas op_jumpdest op_beginsub op_returnsub op_jumpsub op_push1 op_push2
        op_push3 op_push4 op_push5 op_push6 op_push7 op_push8 op_push9 op_push10 op_push11 op_push12
        op_push13 op_push14 op_push15 op_push16 op_push17 op_push18 op_push19 op_push20 op_push21
        op_push22 op_push23 op_push24 op_push25 op_push26 op_push27 op_push28 op_push29 op_push30
        op_push31 op_push32 op_dup1 op_dup2 op_dup3 op_dup4 op_dup5 op_dup6 op_dup7 op_dup8 op_dup9
        op_dup10 op_dup11 op_dup12 op_dup13 op_dup14 op_dup15 op_dup16 op_swap1 op_swap2 op_swap3
        op_swap4 op_swap5 op_swap6 op_swap7 op_swap8 op_swap9 op_swap10 op_swap11 op_swap12
        op_swap13 op_swap14 op_swap15 op_swap16 op_log0 op_log1 op_log2 op_log3 op_log4 op_create
        op_call op_callcode op_return op_delegatecall op_create2 op_revert op_staticcall
        op_suicide :
      Instruction

-- `instruction as u8`
unfoldable pub to_u8 : Instruction → ℕ
to_u8 op_stop = 0x00
to_u8 op_add = 0x01
to_u8 op_mul = 0x02
to_u8 op_sub = 0x03
to_u8 op_div = 0x04
to_u8 op_sdiv = 0x05
to_u8 op_mod = 0x06
to_u8 op_smod = 0x07
to_u8 op_addmod = 0x08
to_u8 op_mulmod = 0x09
to_u8 op_exp = 0x0a
to_u8 op_signextend = 0x0b
to_u8 op_lt = 0x10
to_u8 op_gt = 0x11
to_u8 op_slt = 0x12
to_u8 op_sgt = 0x13
to_u8 op_eq = 0x14
to_u8 op_iszero = 0x15
to_u8 op_and = 0x16
to_u8 op_or = 0x17
to_u8 op_xor = 0x18
to_u8 op_not = 0x19
to_u8 op_byte = 0x1a
to_u8 op_shl = 0x1b
to_u8 op_shr = 0x1c
to_u8 op_sar = 0x1d
to_u8 op_sha3 = 0x20
to_u8 op_address = 0x30
to_u8 op_balance = 0x31
to_u8 op_origin = 0x32
to_u8 op_caller = 0x33
to_u8 op_callvalue = 0x34
to_u8 op_calldataload = 0x35
to_u8 op_calldatasize = 0x36
to_u8 op_calldatacopy = 0x37
to_u8 op_codesize = 0x38
to_u8 op_codecopy = 0x39
to_u8 op_gasprice = 0x3a
to_u8 op_extcodesize = 0x3b
to_u8 op_extcodecopy = 0x3c
to_u8 op_returndatasize = 0x3d
to_u8 op_returndatacopy = 0x3e
to_u8 op_extcodehash = 0x3f
to_u8 op_blockhash = 0x40
to_u8 op_coinbase = 0x41
to_u8 op_timestamp = 0x42
to_u8 op_number = 0x43
to_u8 op_difficulty = 0x44
to_u8 op_gaslimit = 0x45
to_u8 op_chainid = 0x46
to_u8 op_selfbalance = 0x47
to_u8 op_pop = 0x50
to_u8 op_mload = 0x51
to_u8 op_mstore = 0x52
to_u8 op_mstore8 = 0x53
to_u8 op_sload = 0x54
to_u8 op_sstore = 0x55
to_u8 op_jump = 0x56
to_u8 op_jumpi = 0x57
to_u8 op_pc = 0x58
to_u8 op_msize = 0x59
to_u8 op_gas = 0x5a
to_u8 op_jumpdest = 0x5b
to_u8 op_beginsub = 0x5c
to_u8 op_returnsub = 0x5d
to_u8 op_jumpsub = 0x5e
to_u8 op_push1 = 0x60
to_u8 op_push2 = 0x61
to_u8 op_push3 = 0x62
to_u8 op_push4 = 0x63
to_u8 op_push5 = 0x64
to_u8 op_push6 = 0x65
to_u8 op_push7 = 0x66
to_u8 op_push8 = 0x67
to_u8 op_push9 = 0x68
to_u8 op_push10 = 0x69
to_u8 op_push11 = 0x6a
to_u8 op_push12 = 0x6b
to_u8 op_push13 = 0x6c
to_u8 op_push14 = 0x6d
to_u8 op_push15 = 0x6e
to_u8 op_push16 = 0x6f
to_u8 op_push17 = 0x70
to_u8 op_push18 = 0x71
to_u8 op_push19 = 0x72
to_u8 op_push20 = 0x73
to_u8 op_push21 = 0x74
to_u8 op_push22 = 0x75
to_u8 op_push23 = 0x76
to_u8 op_push24 = 0x77
to_u8 op_push25 = 0x78
to_u8 op_push26 = 0x79
to_u8 op_push27 = 0x7a
to_u8 op_push28 = 0x7b
to_u8 op_push29 = 0x7c
to_u8 op_push30 = 0x7d
to_u8 op_push31 = 0x7e
to_u8 op_push32 = 0x7f
to_u8 op_dup1 = 0x80
to_u8 op_dup2 = 0x81
to_u8 op_dup3 = 0x82
to_u8 op_dup4 = 0x83
to_u8 op_dup5 = 0x84
to_u8 op_dup6 = 0x85
to_u8 op_dup7 = 0x86
to_u8 op_dup8 = 0x87
to_u8 op_dup9 = 0x88
to_u8 op_dup10 = 0x89
to_u8 op_dup11 = 0x8a
to_u8 op_dup12 = 0x8b
to_u8 op_dup13 = 0x8c
to_u8 op_dup14 = 0x8d
to_u8 op_dup15 = 0x8e
to_u8 op_dup16 = 0x8f
to_u8 op_swap1 = 0x90
to_u8 op_swap2 = 0x91
to_u8 op_swap3 = 0x92
to_u8 op_swap4 = 0x93
to_u8 op_swap5 = 0x94
to_u8 op_swap6 = 0x95
to_u8 op_swap7 = 0x96
to_u8 op_swap8 = 0x97
to_u8 op_swap9 = 0x98
to_u8 op_swap10 = 0x99
to_u8 op_swap11 = 0x9a
to_u8 op_swap12 = 0x9b
to_u8 op_swap13 = 0x9c
to_u8 op_swap14 = 0x9d
to_u8 op_swap15 = 0x9e
to_u8 op_swap16 = 0x9f
to_u8 op_log0 = 0xa0
to_u8 op_log1 = 0xa1
to_u8 op_log2 = 0xa2
to_u8 op_log3 = 0xa3
to_u8 op_log4 = 0xa4
to_u8 op_create = 0xf0
to_u8 op_call = 0xf1
to_u8 op_callcode = 0xf2
to_u8 op_return = 0xf3
to_u8 op_delegatecall = 0xf4
to_u8 op_create2 = 0xf5
to_u8 op_revert = 0xfd
to_u8 op_staticcall = 0xfa
to_u8 op_suicide = 0xff

-- The variants in the order of the source; the macro writes one arm of the `match` for each.
abbrev pub variants : List Instruction
variants =
    op_stop ∷ op_add ∷ op_mul ∷ op_sub ∷ op_div ∷ op_sdiv ∷ op_mod ∷ op_smod ∷ op_addmod ∷ op_mulmod
    ∷ op_exp ∷ op_signextend ∷ op_lt ∷ op_gt ∷ op_slt ∷ op_sgt ∷ op_eq ∷ op_iszero ∷ op_and ∷ op_or
    ∷ op_xor ∷ op_not ∷ op_byte ∷ op_shl ∷ op_shr ∷ op_sar ∷ op_sha3 ∷ op_address ∷ op_balance
    ∷ op_origin ∷ op_caller ∷ op_callvalue ∷ op_calldataload ∷ op_calldatasize ∷ op_calldatacopy
    ∷ op_codesize ∷ op_codecopy ∷ op_gasprice ∷ op_extcodesize ∷ op_extcodecopy ∷ op_returndatasize
    ∷ op_returndatacopy ∷ op_extcodehash ∷ op_blockhash ∷ op_coinbase ∷ op_timestamp ∷ op_number
    ∷ op_difficulty ∷ op_gaslimit ∷ op_chainid ∷ op_selfbalance ∷ op_pop ∷ op_mload ∷ op_mstore
    ∷ op_mstore8 ∷ op_sload ∷ op_sstore ∷ op_jump ∷ op_jumpi ∷ op_pc ∷ op_msize ∷ op_gas
    ∷ op_jumpdest ∷ op_beginsub ∷ op_returnsub ∷ op_jumpsub ∷ op_push1 ∷ op_push2 ∷ op_push3
    ∷ op_push4 ∷ op_push5 ∷ op_push6 ∷ op_push7 ∷ op_push8 ∷ op_push9 ∷ op_push10 ∷ op_push11
    ∷ op_push12 ∷ op_push13 ∷ op_push14 ∷ op_push15 ∷ op_push16 ∷ op_push17 ∷ op_push18 ∷ op_push19
    ∷ op_push20 ∷ op_push21 ∷ op_push22 ∷ op_push23 ∷ op_push24 ∷ op_push25 ∷ op_push26 ∷ op_push27
    ∷ op_push28 ∷ op_push29 ∷ op_push30 ∷ op_push31 ∷ op_push32 ∷ op_dup1 ∷ op_dup2 ∷ op_dup3
    ∷ op_dup4 ∷ op_dup5 ∷ op_dup6 ∷ op_dup7 ∷ op_dup8 ∷ op_dup9 ∷ op_dup10 ∷ op_dup11 ∷ op_dup12
    ∷ op_dup13 ∷ op_dup14 ∷ op_dup15 ∷ op_dup16 ∷ op_swap1 ∷ op_swap2 ∷ op_swap3 ∷ op_swap4
    ∷ op_swap5 ∷ op_swap6 ∷ op_swap7 ∷ op_swap8 ∷ op_swap9 ∷ op_swap10 ∷ op_swap11 ∷ op_swap12
    ∷ op_swap13 ∷ op_swap14 ∷ op_swap15 ∷ op_swap16 ∷ op_log0 ∷ op_log1 ∷ op_log2 ∷ op_log3
    ∷ op_log4 ∷ op_create ∷ op_call ∷ op_callcode ∷ op_return ∷ op_delegatecall ∷ op_create2
    ∷ op_revert ∷ op_staticcall ∷ op_suicide ∷ []

-- The arms of the `match` that `enum_with_from_u8` writes: the code of each variant, and the variant.
unfoldable pub discriminators : HashMap ℕ Instruction
discriminators = map (λ i. (to_u8 i, i)) variants

-- `Instruction::from_u8`
unfoldable pub from_u8 : ℕ → Option Instruction
unfolding lookup discriminators
from_u8 value = lookup value discriminators
