-- ===== src/Spec.antt =====
-- The parameters of the virtual machine: src/vm/spec.rs.
use cfx_evm.Base.{ℕ, Bool, true, false, ◌&&◌, List, [], ◌∷◌, Option, none, some, leb, ltb}

pub data CleanDustMode : Type 0 where
  off basic_only with_code_and_storage : CleanDustMode

pub record WasmCosts : Type 0 where
  pub regular : ℕ
  pub div : ℕ
  pub mul : ℕ
  pub mem : ℕ
  pub static_u256 : ℕ
  pub static_address : ℕ
  pub initial_mem : ℕ
  pub grow_mem : ℕ
  pub memcpy : ℕ
  pub max_stack_height : ℕ
  pub opcodes_mul : ℕ
  pub opcodes_div : ℕ
  pub have_create2 : Bool
  pub have_gasleft : Bool

pub record Spec : Type 0 where
  pub exceptional_failed_code_deposit : Bool
  pub stack_limit : ℕ
  pub max_depth : ℕ
  pub tier_step_gas : List ℕ
  pub exp_gas : ℕ
  pub exp_byte_gas : ℕ
  pub sha3_gas : ℕ
  pub sha3_word_gas : ℕ
  pub sload_gas : ℕ
  pub sstore_set_gas : ℕ
  pub sstore_reset_gas : ℕ
  pub sstore_refund_gas : ℕ
  pub jumpdest_gas : ℕ
  pub log_gas : ℕ
  pub log_data_gas : ℕ
  pub log_topic_gas : ℕ
  pub create_gas : ℕ
  pub call_gas : ℕ
  pub call_stipend : ℕ
  pub call_value_transfer_gas : ℕ
  pub call_new_account_gas : ℕ
  pub suicide_refund_gas : ℕ
  pub memory_gas : ℕ
  pub quad_coeff_div : ℕ
  pub create_data_gas : ℕ
  pub create_data_limit : ℕ
  pub tx_gas : ℕ
  pub tx_create_gas : ℕ
  pub tx_data_zero_gas : ℕ
  pub tx_data_non_zero_gas : ℕ
  pub copy_gas : ℕ
  pub extcodesize_gas : ℕ
  pub extcodecopy_base_gas : ℕ
  pub balance_gas : ℕ
  pub extcodehash_gas : ℕ
  pub suicide_gas : ℕ
  pub retire_gas : ℕ
  pub eip1820_gas : ℕ
  pub suicide_to_new_account_cost : ℕ
  pub sub_gas_cap_divisor : Option ℕ
  pub no_empty : Bool
  pub kill_empty : Bool
  pub blockhash_gas : ℕ
  pub kill_dust : CleanDustMode
  pub keep_unsigned_nonce : Bool
  pub wasm : Option WasmCosts
  pub contract_start_nonce : ℕ
  pub account_start_nonce : ℕ
  pub evm_gas_ratio : ℕ
  pub cip43_init : Bool
  pub cip43_contract : Bool
  pub cip62 : Bool
  pub cip64 : Bool
  pub cip71 : Bool
  pub cip78a : Bool
  pub cip78b : Bool
  pub cip90 : Bool
  pub cip94 : Bool
  pub cip94_activation_block_number : ℕ
  pub cip97 : Bool
  pub cip98 : Bool
  pub cip105 : Bool
  pub cip_sigma_fix : Bool

unfoldable pub genesis_spec : Spec
genesis_spec = record {
  exceptional_failed_code_deposit = true;
  stack_limit = 1024;
  max_depth = 1024;
  tier_step_gas = 0 ∷ 2 ∷ 3 ∷ 5 ∷ 8 ∷ 10 ∷ 20 ∷ 0 ∷ [];
  exp_gas = 10;
  exp_byte_gas = 50;
  sha3_gas = 30;
  sha3_word_gas = 6;
  sload_gas = 200;
  sstore_set_gas = 20000;
  sstore_reset_gas = 5000;
  sstore_refund_gas = 15000;
  jumpdest_gas = 1;
  log_gas = 375;
  log_data_gas = 8;
  log_topic_gas = 375;
  create_gas = 32000;
  call_gas = 700;
  call_stipend = 2300;
  call_value_transfer_gas = 9000;
  call_new_account_gas = 25000;
  suicide_refund_gas = 24000;
  memory_gas = 3;
  quad_coeff_div = 512;
  create_data_gas = 200;
  create_data_limit = 49152;
  tx_gas = 21000;
  tx_create_gas = 53000;
  tx_data_zero_gas = 4;
  tx_data_non_zero_gas = 68;
  copy_gas = 3;
  extcodesize_gas = 700;
  extcodecopy_base_gas = 700;
  balance_gas = 400;
  extcodehash_gas = 400;
  suicide_gas = 5000;
  retire_gas = 5000000;
  eip1820_gas = 1500000;
  suicide_to_new_account_cost = 25000;
  sub_gas_cap_divisor = some 64;
  no_empty = true;
  kill_empty = true;
  blockhash_gas = 20;
  kill_dust = off;
  keep_unsigned_nonce = false;
  wasm = none;
  contract_start_nonce = 1;
  account_start_nonce = 0;
  evm_gas_ratio = 2;
  cip43_init = false;
  cip43_contract = false;
  cip62 = false;
  cip64 = false;
  cip71 = false;
  cip78a = false;
  cip78b = false;
  cip90 = false;
  cip94 = false;
  cip94_activation_block_number = 18446744073709551615;
  cip97 = false;
  cip98 = false;
  cip105 = false;
  cip_sigma_fix = false;
}

-- The fields of `CommonParams::transition_numbers` that the specification reads.
pub record TransitionNumbers : Type 0 where
  pub cip43a : ℕ
  pub cip43b : ℕ
  pub cip62 : ℕ
  pub cip64 : ℕ
  pub cip71 : ℕ
  pub cip78a : ℕ
  pub cip78b : ℕ
  pub cip90b : ℕ
  pub cip94 : ℕ
  pub cip97 : ℕ
  pub cip98 : ℕ
  pub cip105 : ℕ
  pub cip_sigma_fix : ℕ

unfoldable pub new_spec_from_common_params : TransitionNumbers → ℕ → Spec
unfolding genesis_spec
new_spec_from_common_params params number = record genesis_spec {
  cip43_contract = leb params.cip43a number;
  cip43_init = leb params.cip43a number && ltb number params.cip43b;
  cip62 = leb params.cip62 number;
  cip64 = leb params.cip64 number;
  cip71 = leb params.cip71 number;
  cip90 = leb params.cip90b number;
  cip78a = leb params.cip78a number;
  cip78b = leb params.cip78b number;
  cip94 = leb params.cip94 number;
  cip94_activation_block_number = params.cip94;
  cip97 = leb params.cip97 number;
  cip98 = leb params.cip98 number;
  cip105 = leb params.cip105 number;
  cip_sigma_fix = leb params.cip_sigma_fix number;
}
