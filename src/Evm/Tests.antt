-- ===== src/Evm/Tests.antt =====
-- Runs of the models of src/evm on concrete inputs.
use cfx_evm.Base.{
  ltb, ◌==◌, if◌then◌else◌, ◌%◌, ◌-◌, ℕ, ◌+◌, ◌*◌, ◌/◌, ◌≤◌, max, ◌≡◌, refl, ◌↔◌, true, List, [],
  ◌∷◌, some, get_elem?, arith, ◌^◌,
}
use cfx_evm.Evm.Arith.{byte, bool_to_u256, div, slt, sgt, addmod, mulmod}
use cfx_evm.Evm.Arith.Byte.{byte-be_bytes}
use cfx_evm.Evm.Arith.Words.{div-lem, slt-lem, sgt-slt, addmod-lem, mulmod-lem}
use cfx_evm.Spec.{genesis_spec}
use cfx_evm.Primitives.{be_bytes, ethereum}
use cfx_evm.Evm.Error.{ok, ◌>>=◌}
use cfx_evm.Evm.Cost.{u256_cost, usize_cost, overflow_add, overflow_mul}
use cfx_evm.Evm.Instruction.Enum.{to_u8, op_call, op_dup3}
use cfx_evm.Evm.Instruction.Table.{InstructionInfo, info, idx, special}
use cfx_evm.Evm.Instruction.Queries.{is_push, push_bytes, dup_position}
use cfx_evm.Evm.Instruction.Laws.{info-bounds, family_shape, info-family_shape}
use cfx_evm.Evm.Gasometer.{
  Gasometer, gas_provided, mem_gas_cost, mem_needed, gas_for_mem, to_word_size,
}
use cfx_evm.Evm.Gasometer.Bounds.{gas_provided-bounds}
use cfx_evm.Evm.Gasometer.Memory.{usize, mem_price, words, mem_gas_cost-lem}
use cfx_evm.Evm.Stack.{peek}
use cfx_evm.Evm.Requirements.Types.{gas_mem_provide, Context, InstructionRequirements, arm}
use cfx_evm.Evm.Requirements.Ask.{request, call_request, u256_to_address}
use cfx_evm.Evm.Requirements.Fulfil.{fulfil, requirements}
use cfx_evm.Evm.Requirements.Provides.{is_some, is_call_or_create, requirements-provide}
use cfx_evm.Evm.Gasometer.{verify_gas}
use cfx_evm.Evm.Requirements.Affords.{verify_gas-fulfil}
use cfx_evm.Evm.Jumps.{contains, find_jump_and_sub_destinations, verify_jump}
use cfx_evm.Evm.Jumps.Scan.{Reaches, find_jump_and_sub_destinations-lem}
use cfx_evm.Evm.Jumps.Verify.{verify_jump-lem}

abbrev gasometer : Gasometer
gasometer = record { current_gas = 10000; current_mem_gas = mem_price 2 }

gas_provided-bounds_example :
    (p : ℕ) × (gas_provided u256_cost genesis_spec 700 (some 9999) gasometer ≡ ok p)
    × (p + (gasometer.current_gas - 700) / 64 ≤ gasometer.current_gas - 700)
    × (700 + p ≤ gasometer.current_gas)
unfolding genesis_spec
gas_provided-bounds_example =
    gas_provided-bounds u256_cost genesis_spec 700 (some 9999) gasometer refl (omega arith)

mem_gas_cost-lem_example :
    mem_gas_cost usize_cost genesis_spec (32 * 2) 100 gasometer
    ≡ ok
        (mem_price (max 2 (words 100)) - mem_price 2, mem_price (max 2 (words 100)), 32 * words 100)
unfolding genesis_spec
mem_gas_cost-lem_example =
    mem_gas_cost-lem usize genesis_spec gasometer 2 100 refl refl (omega arith) (omega arith) refl

-- PUSH1 0x5b, JUMPDEST, STOP
abbrev pushed : List ℕ
pushed = 0x60 ∷ 0x5b ∷ 0x5b ∷ 0x00 ∷ []

find_jump_and_sub_destinations-lem_example :
    (contains 1 (find_jump_and_sub_destinations pushed).jump_destination ≡ true)
    ↔ (Reaches pushed 0 1 × (get_elem? pushed 1 ≡ some 0x5b))
find_jump_and_sub_destinations-lem_example = find_jump_and_sub_destinations-lem pushed 1

verify_jump-lem_example :
    (verify_jump 2 (find_jump_and_sub_destinations pushed).jump_destination ≡ ok 2)
    ↔ ((◌≡◌ {A = ℕ} 2 2) × Reaches pushed 0 2 × (get_elem? pushed 2 ≡ some 0x5b))
verify_jump-lem_example = verify_jump-lem pushed 2 2 (omega arith)

info-bounds_example :
    (e : InstructionInfo) × (info op_call ≡ some e) × (e.args ≤ 17) × (e.ret ≤ e.args + 1)
info-bounds_example = info-bounds op_call

info-family_shape_example :
    (e : InstructionInfo) × (info op_dup3 ≡ some e) × (e.args ≡ 3) × (e.ret ≡ 4)
unfolding family_shape to_u8 is_push push_bytes dup_position
info-family_shape_example = info-family_shape op_dup3 3 4 refl

abbrev context : Context
context = record {
  spec = genesis_spec;
  space = ethereum;
  storage_at = λ key. ok 0;
  exists = λ a. ok true;
  exists_and_not_null = λ a. ok true;
  origin_balance = ok 1;
}

-- CALL with 500 gas, no value, 32 bytes of input and 32 bytes of output, in the two words that are
-- paid for.
abbrev call_info : InstructionInfo
call_info = record { name = "CALL"; args = 7; ret = 1; tier = special }

abbrev call_requirements : InstructionRequirements
call_requirements = record {
  gas_cost = 1200;
  provide_gas = some 500;
  memory_total_gas = mem_price 2;
  memory_required_size = 64;
}

call_computed :
    requirements u256_cost context op_call call_info
      (500 ∷ 1 ∷ 0 ∷ 0 ∷ 32 ∷ 32 ∷ 32 ∷ [])
      64
      gasometer
    ≡ ok call_requirements
unfolding requirements fulfil request call_request arm idx genesis_spec peek u256_to_address
    overflow_add overflow_mul mem_needed mem_gas_cost gas_for_mem gas_provided to_word_size to_u8
    ◌>>=◌
call_computed = refl

requirements-provide_example : is_some (some 500) ≡ is_call_or_create op_call
requirements-provide_example =
    requirements-provide u256_cost context op_call call_info (500 ∷ 1 ∷ 0 ∷ 0 ∷ 32 ∷ 32 ∷ 32 ∷ [])
      64 gasometer call_requirements call_computed

slt-lem_example :
    slt (2 ^ 256 - 1) 5
    ≡ bool_to_u256 (ltb ((2 ^ 256 - 1 + 2 ^ 255) % 2 ^ 256) ((5 + 2 ^ 255) % 2 ^ 256))
slt-lem_example = slt-lem (2 ^ 256 - 1) 5 (omega arith) (omega arith)

sgt-slt_example : sgt (2 ^ 256 - 1) 5 ≡ slt 5 (2 ^ 256 - 1)
sgt-slt_example = sgt-slt (2 ^ 256 - 1) 5 (omega arith) (omega arith)

div-lem_example : div 100 (2 ^ 5) ≡ (if 2 ^ 5 == 0 then 0 else 100 / 2 ^ 5)
div-lem_example = div-lem 100 (2 ^ 5)

addmod-lem_example : addmod (2 ^ 256 - 1) 3 7 ≡ ok (if 7 == 0 then 0 else (2 ^ 256 - 1 + 3) % 7)
addmod-lem_example = addmod-lem (2 ^ 256 - 1) 3 7 (omega arith) (omega arith) (omega arith)

mulmod-lem_example : mulmod (2 ^ 256 - 1) 3 7 ≡ ok (if 7 == 0 then 0 else (2 ^ 256 - 1) * 3 % 7)
mulmod-lem_example = mulmod-lem (2 ^ 256 - 1) 3 7 (omega arith) (omega arith) (omega arith)

byte-be_bytes_example : get_elem? (be_bytes 32 0x1234) 30 ≡ some (byte 30 0x1234)
byte-be_bytes_example = byte-be_bytes 30 0x1234 (omega arith)

call_fulfilled :
    fulfil u256_cost genesis_spec 64 gasometer (gas_mem_provide 700 64 (some 500))
    ≡ ok call_requirements
unfolding fulfil genesis_spec overflow_add overflow_mul mem_gas_cost gas_for_mem gas_provided
    to_word_size ◌>>=◌
call_fulfilled = refl

verify_gas-fulfil_example : verify_gas 1200 gasometer ≡ ok tt
unfolding genesis_spec
verify_gas-fulfil_example =
    verify_gas-fulfil u256_cost genesis_spec gasometer 700 64 64 500 (some 500) call_requirements
      refl call_fulfilled refl (omega arith)
