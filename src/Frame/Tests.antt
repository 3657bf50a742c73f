-- ===== src/Frame/Tests.antt =====
-- Runs of the models of src/call_create_frame and of src/state/substate.rs on concrete inputs.
use cfx_evm.Base.{
  length, ℕ, zero, suc, ◌≡◌, ◌≤◌, refl, Bool, true, false, List, [], ◌∷◌, Option, none, some, leb,
  ltb, ◌==◌, ◌-◌, ◌+◌, ◌<◌, ◌↔◌, ◌&&◌, sym, if◌then◌else◌, arith, Bool-cases, inl, inr,
}
use mathlib.Core.Path.{subst}
use cfx_evm.Primitives.{AddressWithSpace, ethereum, u256_mod}
use cfx_evm.Spec.{genesis_spec}
use cfx_evm.StateDb
use cfx_evm.StateDb.{Rlp, Result}
use cfx_evm.State.{State, fresh, tail, no_empty, dirty}
use cfx_evm.State
use cfx_evm.State.View.{IsValid, Same}
use cfx_evm.State.Frames.{here, perform, add_balance}
use cfx_evm.State.Frames
use cfx_evm.State.Frames.Atomic.{new_state-IsValid}
use cfx_evm.Substate.{FrameStackInfo, new_substate, new_frame_stack, push, pop, is_on_stack}
use cfx_evm.Substate.Callstack.{
  IsConsistent, stands_in, new_frame_stack-IsConsistent, push-IsConsistent, pop_lem,
}
use cfx_evm.Vm.{ActionParams, Env, GasLeft, known, apparent, call, not_create, separate}
use cfx_evm.Evm.Error.{VmResult, ok, err, panic, out_of_gas}
use cfx_evm.Frame.World.{FrameContext, World}
use cfx_evm.Frame.Context.{blockhash}
use cfx_evm.Frame.Answers.{blockhash-panic}
use cfx_evm.Frame.Program.{
  Program, finish, ask, trap_call, IsTrapless, Machine, IsBounded, set_storage, log,
}
use cfx_evm.Frame.Types.{new_call_raw}
use cfx_evm.Frame.Exec.{Shared}
use cfx_evm.Frame.Stack.{FrameStackOutput, new_stack, new_shared, exec}
use cfx_evm.Frame.Atomic.{exec-not_applied, exec_balanced}
use cfx_evm.Tests.{test_keccak, test_rlp, empty_db, start, start_opens, alice, bob}

two_frames : FrameStackInfo
two_frames = push bob false (push alice true new_frame_stack)

pop_lem_example :
    (t : FrameStackInfo) × (pop (push bob false (push alice true new_frame_stack))
      ≡ some (some (bob, false), t))
    × (t.call_stack_recipient_addresses ≡ (alice, true) ∷ [])
    × IsConsistent t
    × ((a : AddressWithSpace) → is_on_stack a t ≡ stands_in a ((alice, true) ∷ []))
unfolding push
pop_lem_example =
    pop_lem (bob, false) ((alice, true) ∷ []) (push bob false (push alice true new_frame_stack))
      (push-IsConsistent bob false (push alice true new_frame_stack)
        (push-IsConsistent alice true new_frame_stack new_frame_stack-IsConsistent))
      refl

-- A call without value to the contract at an address.
abbrev pub call_to : ℕ → ActionParams
call_to a = record {
  space = ethereum;
  code_address = a;
  code_hash = none;
  address = a;
  sender = 9;
  original_sender = 9;
  gas = 100;
  gas_price = 1;
  value = apparent 0;
  code = some [];
  input = none;
  call_type = call;
  create_type = not_create;
  params_type = separate;
}

abbrev pub test_env : Env
test_env = record {
  number = 3;
  author = 0;
  timestamp = 0;
  difficulty = 0;
  gas_limit = 0;
  last_hash = 77;
  accumulated_gas_used = 0;
  epoch_height = 3;
}

-- The contract at 1 writes its storage and calls the one at 2, which logs. What the first returns
-- then depends on the code address that called it.
abbrev pub last_word : ℕ → VmResult GasLeft
last_word zero = err out_of_gas
last_word (suc n) = ok (known 5)

abbrev pub code_at : ActionParams → Program
code_at params =
    if params.code_address == 2
    then ask (log [] []) (λ r. finish (ok (known 7)))
    else ask (set_storage [] 5)
        (λ r. trap_call (call_to 2) (λ q. finish (last_word (params.gas - 100))))

abbrev pub interpret : ActionParams → FrameContext → Program
interpret params c =
    if leb c.spec.max_depth c.depth then finish (err out_of_gas) else code_at params

instance unfoldable pub test_machine : Machine
test_machine = record {
  builtins = [];
  internal_contracts = [];
  create_interpreter = interpret;
  encode_sender_nonce = λ a n. a ∷ n ∷ [];
}

pub test_machine-IsBounded : IsBounded test_machine
unfolding test_machine cfx_evm.Base.lookup
test_machine-IsBounded = record {
  interpreter = λ params c h. deep params c h;
  internal = λ a x params c e h. absurd (cc);
}
  where
    deep :
        (params : ActionParams) (c : FrameContext)
        → c.spec.max_depth ≤ c.depth
        → IsTrapless (interpret params c)
    deep params c h = go (leb c.spec.max_depth c.depth) (ground arith)
      where
        go :
            (b : Bool)
            → b ≡ true
            → IsTrapless (if b then finish (err out_of_gas) else code_at params)
        go true e = tt
        go false e = absurd (cc)

-- The shared parts of a run that ends.
abbrev shared_of : Option (Result FrameStackOutput × Shared) → Shared
shared_of (some (r, sh)) = sh
shared_of none = new_shared start

abbrev failed_output : FrameStackOutput
failed_output = record { result = err out_of_gas; substate = new_substate; base_gas_required = 0 }

-- Alice has a balance; her contract writes, calls the other one, and runs out of gas.
abbrev pub alice_with : (balance nonce : ℕ) → State
alice_with balance nonce = record (fresh empty_db 0) {
  cache =
      (
        alice,
        record {
          account = some (record {
            address = alice;
            balance = balance;
            nonce = nonce;
            storage_value_read_cache = [];
            storage_value_write_cache = [];
            storage_layout_change = none;
            code_hash = 0;
            code = none;
            is_newly_created_contract = false;
            invalidated_storage = false;
          });
          old_balance = none;
          state = dirty;
        },
      )
      ∷ [];
}

abbrev pub funded : State
funded = alice_with 7 0

funded_lem : perform (add_balance alice 7 no_empty 0) start ≡ funded
unfolding perform cfx_evm.Base.lookup State.add_balance State.loaded_account StateDb.get_account
    cfx_evm.Base.insert State.update_account_cache State.add_account_balance test_keccak test_rlp
funded_lem = refl

pub funded-IsValid : IsValid funded
funded-IsValid = subst IsValid funded_lem (
    new_state-IsValid empty_db start (perform (add_balance alice 7 no_empty 0) start) start_opens
      (Frames.call here (add_balance alice 7 no_empty 0)))

abbrev failing : Option (Result FrameStackOutput × Shared)
failing =
    exec 9 (new_call_raw (call_to 1) test_env genesis_spec 0 false) (new_stack new_substate 0)
      (new_shared funded)

failing_ends : failing ≡ some (StateDb.ok failed_output, shared_of failing)
unfolding exec cfx_evm.Base.lookup test_machine genesis_spec cfx_evm.Frame.Context.answer
    cfx_evm.Frame.Context.set_storage cfx_evm.Frame.World.of_state State.set_storage
    State.checkpoint State.loaded_account StateDb.get_account cfx_evm.Base.insert
    cfx_evm.Frame.Context.log cfx_evm.Frame.World.update cfx_evm.Frame.World.pure
    cfx_evm.Frame.World.fail pop push perform State.add_balance State.update_account_cache
    State.add_account_balance StateDb.get_storage_value cfx_evm.Frame.World.◌>>=◌
    State.discard_checkpoint State.revert_to_checkpoint cfx_evm.Base.remove
failing_ends = refl

exec-not_applied_example :
    Same funded (shared_of failing).state × (failed_output.substate ≡ new_substate)
exec-not_applied_example =
    exec-not_applied 9 (new_call_raw (call_to 1) test_env genesis_spec 0 false) new_substate 0
      funded failed_output (shared_of failing) funded-IsValid failing_ends refl

exec_balanced_example :
    ((shared_of failing).state.db ≡ funded.db)
    × ((shared_of failing).state.world_statistics_checkpoints ≡ funded.world_statistics_checkpoints)
    × (length (shared_of failing).state.checkpoints ≡ length funded.checkpoints)
    × (tail (shared_of failing).state.checkpoints ≡ tail funded.checkpoints)
    × ((shared_of failing).callstack.call_stack_recipient_addresses ≡ [])
    × IsConsistent (shared_of failing).callstack
exec_balanced_example =
    exec_balanced 9 (new_call_raw (call_to 1) test_env genesis_spec 0 false) new_substate 0 funded
      failed_output (shared_of failing) funded-IsValid failing_ends

abbrev test_context : FrameContext
test_context = (new_call_raw (call_to 1) test_env genesis_spec 0 false).context

abbrev world_of : State → World
world_of s = record { state = s; substate = new_substate }

blockhash-panic_example :
    (((blockhash test_context 2 (world_of start)).0 ≡ panic) ↔ (◌≡◌ {A = ℕ} 2 (u256_mod - 1)))
    × (2 < u256_mod - 1
        → blockhash test_context 2 (world_of start) ≡ (
          ok (
              if (if test_context.spec.cip98 then test_env.epoch_height else test_env.number)
                == 2 + 1
              then 77
              else 0),
          world_of start,
        ))
unfolding new_call_raw
blockhash-panic_example = blockhash-panic test_context 2 (world_of start) (omega arith)
