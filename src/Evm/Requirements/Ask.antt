-- ===== src/Evm/Requirements/Ask.antt =====
-- The price of an instruction before memory: the `match` in `requirements` of
-- src/evm/interpreter/gasometer.rs.
use cfx_evm.Base.{
  ℕ, zero, suc, ◌+◌, ◌*◌, ◌/◌, ◌%◌, ◌^◌, max, Bool, true, false, not, ◌&&◌, List, none, some, ◌==◌,
  if◌then◌else◌,
}
use cfx_evm.Primitives.{Space, ethereum, be_bytes}
use cfx_evm.Evm.Instruction.Enum
use cfx_evm.Evm.Instruction.Enum.{Instruction}
use cfx_evm.Evm.Instruction.Queries.{log_topics}
use cfx_evm.Evm.Error.{VmResult, ok, ◌>>=◌, overflowing}
use cfx_evm.Evm.Cost.{CostType, overflow_add, overflow_mul}
use cfx_evm.Evm.Stack.{or_panic, peek}
use cfx_evm.Evm.Gasometer.{mem_needed, mem_needed_const, to_word_size}
use cfx_evm.Evm.Requirements.Types.{
  Context, Request, gas, gas_mem, gas_mem_provide, gas_mem_copy, Arm, jumpdest, sstore, sload,
  balance, extcodesize, extcodehash, suicide, word, byte, return, sha3, copy, extcodecopy, log,
  call, delegate, create, exp, blockhash, other,
}

-- The arithmetic of usize on the constants of the specification.
abbrev usize_mul : ℕ → ℕ → ℕ
usize_mul a b = (a * b) % 2 ^ 64

abbrev usize_add : ℕ → ℕ → ℕ
usize_add a b = (a + b) % 2 ^ 64

-- `U256::bits`: the position of the highest bit, by fuel for each bit of the number.
abbrev bits_of : ℕ → ℕ → ℕ
bits_of zero n = 0
bits_of (suc fuel) n = let rest = bits_of fuel (n / 2) in if n == 0 then 0 else rest + 1

abbrev pub bits : ℕ → ℕ
bits n = bits_of 256 n

unfoldable pub u256_to_address : ℕ → ℕ
u256_to_address value = value % 2 ^ 160

abbrev is_ethereum : Space → Bool
is_ethereum ethereum = true

-- `a && b?`: the second condition is computed only if the first holds.
abbrev and_then : Bool → VmResult Bool → VmResult Bool
and_then false b = ok false
and_then true b = b

abbrev or_else : VmResult Bool → VmResult Bool → VmResult Bool
or_else a b = a >>= λ x. if x then ok true else b

-- Whether the callee is charged for as a new account.
abbrev is_new_account : Context → Bool → ℕ → VmResult Bool
is_new_account ctx is_value_transfer address =
    or_else (and_then (not ctx.spec.no_empty) (ctx.exists address >>= λ there. ok (not there))) (
      and_then (ctx.spec.no_empty && is_value_transfer)
        (ctx.exists_and_not_null address >>= λ there. ok (not there)))

-- The factor of the account prices.
abbrev ratio : Context → ℕ
ratio ctx = if is_ethereum ctx.space then ctx.spec.evm_gas_ratio else 1

abbrev is_op : Instruction → Instruction → Bool
is_op i j = Enum.to_u8 i == Enum.to_u8 j

module _ (c : CostType) (ctx : Context) (stack : List ℕ) where
  -- `Gas::from_u256(*stack.peek(n))?`
  abbrev gas_at : ℕ → VmResult ℕ
  gas_at n = peek n stack >>= c.from_u256

  -- `mem_needed(stack.peek(offset), stack.peek(size))?`
  abbrev mem_at : ℕ → ℕ → VmResult ℕ
  mem_at offset size = do o ← peek offset stack; s ← peek size stack; mem_needed c o s

  -- The price of the words of a hashed slice, and the constant beside it.
  abbrev add_words : ℕ → ℕ → ℕ → VmResult ℕ
  add_words base word_price n = do
    words ← overflowing (to_word_size c n)
    word_gas ← overflowing (overflow_mul c word_price words)
    overflowing (overflow_add c base word_gas)

  unfoldable pub sstore_gas : VmResult ℕ
  unfolding peek
  sstore_gas = do
    key ← peek 0 stack
    new_value ← peek 1 stack
    value ← ctx.storage_at (be_bytes 32 key)
    ok (
        if value == 0 && not (new_value == 0)
        then usize_mul ctx.spec.sstore_set_gas ctx.spec.evm_gas_ratio
        else ctx.spec.sstore_reset_gas)

  unfoldable pub suicide_gas : VmResult ℕ
  unfolding peek u256_to_address overflow_add
  suicide_gas = do
    funds ← ctx.origin_balance
    target ← peek 0 stack
    fresh ← is_new_account ctx (not (funds == 0)) (u256_to_address target)
    if fresh
        then overflowing (
            overflow_add c ctx.spec.suicide_gas
              (usize_mul ctx.spec.suicide_to_new_account_cost (ratio ctx)))
        else ok ctx.spec.suicide_gas

  unfoldable pub call_request : Instruction → VmResult Request
  unfolding peek u256_to_address overflow_add mem_needed
  call_request i = do
    out ← mem_at 5 6
    input ← mem_at 3 4
    target ← peek 1 stack
    value ← peek 2 stack
    fresh ←
        and_then (is_op i Enum.op_call)
          (is_new_account ctx (not (value == 0)) (u256_to_address target))
    with_account ←
        (if fresh
          then overflowing (
              overflow_add c ctx.spec.call_gas
                (usize_mul ctx.spec.call_new_account_gas (ratio ctx)))
          else ok ctx.spec.call_gas)
    total ←
        (if value == 0
          then ok with_account
          else overflowing (overflow_add c with_account ctx.spec.call_value_transfer_gas))
    requested ← peek 0 stack
    ok (gas_mem_provide total (max out input) (some requested))

  unfoldable pub create_request : Instruction → VmResult Request
  unfolding peek to_word_size overflow_add overflow_mul mem_needed
  create_request i = do
    start ← peek 1 stack
    len ← peek 2 stack
    size ← c.from_u256 len
    words ← overflowing (to_word_size c size)
    word_gas ← overflowing (overflow_mul c ctx.spec.sha3_word_gas words)
    total ← overflowing (
        overflow_add c ctx.spec.create_gas
          (if is_op i Enum.op_create && is_ethereum ctx.space then 0 else word_gas))
    mem ← mem_needed c start len
    ok (gas_mem_provide total mem none)

  unfoldable pub log_request : Instruction → VmResult Request
  unfolding peek log_topics overflow_add overflow_mul mem_needed
  log_request i = do
    topics ← or_panic (log_topics i)
    size ← gas_at 1
    data_gas ← overflowing (overflow_mul c size ctx.spec.log_data_gas)
    total ← overflowing (
        overflow_add c data_gas
          (usize_add ctx.spec.log_gas (usize_mul ctx.spec.log_topic_gas topics)))
    mem ← mem_at 0 1
    ok (gas_mem total mem)

  -- The value of the `match`.
  unfoldable pub request : ℕ → Instruction → Arm → VmResult Request
  unfolding sstore_gas suicide_gas call_request create_request log_request mem_needed
      mem_needed_const to_word_size peek overflow_add overflow_mul
  request default_gas i jumpdest = ok (gas 1)
  request default_gas i sstore = do cost ← sstore_gas; ok (gas cost)
  request default_gas i sload = ok (gas ctx.spec.sload_gas)
  request default_gas i balance = ok (gas ctx.spec.balance_gas)
  request default_gas i extcodesize = ok (gas ctx.spec.extcodesize_gas)
  request default_gas i extcodehash = ok (gas ctx.spec.extcodehash_gas)
  request default_gas i suicide = do cost ← suicide_gas; ok (gas cost)
  request default_gas i word = do
    offset ← peek 0 stack
    mem ← mem_needed_const c offset 32
    ok (gas_mem default_gas mem)
  request default_gas i byte = do
    offset ← peek 0 stack
    mem ← mem_needed_const c offset 1
    ok (gas_mem default_gas mem)
  request default_gas i return = do mem ← mem_at 0 1; ok (gas_mem default_gas mem)
  request default_gas i sha3 = do
    size ← gas_at 1
    cost ← add_words ctx.spec.sha3_gas ctx.spec.sha3_word_gas size
    mem ← mem_at 0 1
    ok (gas_mem cost mem)
  request default_gas i copy = do
    mem ← mem_at 0 2
    size ← gas_at 2
    ok (gas_mem_copy default_gas mem size)
  request default_gas i extcodecopy = do
    mem ← mem_at 1 3
    size ← gas_at 3
    ok (gas_mem_copy ctx.spec.extcodecopy_base_gas mem size)
  request default_gas i log = log_request i
  request default_gas i call = call_request i
  request default_gas i delegate = do
    out ← mem_at 4 5
    input ← mem_at 2 3
    requested ← peek 0 stack
    ok (gas_mem_provide ctx.spec.call_gas (max out input) (some requested))
  request default_gas i create = create_request i
  request default_gas i exp = do
    exponent ← peek 1 stack
    ok (
        gas
          (usize_add ctx.spec.exp_gas (usize_mul ctx.spec.exp_byte_gas ((bits exponent + 7) / 8))))
  request default_gas i blockhash = ok (gas ctx.spec.blockhash_gas)
  request default_gas i other = ok (gas default_gas)
