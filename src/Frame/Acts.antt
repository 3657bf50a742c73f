-- ===== src/Frame/Acts.antt =====
-- What a frame executes changes the state by operations of the state only: the methods of
-- src/call_create_frame/context.rs, and every program over them.
use cfx_evm.Base.{
  ℕ, ◌+◌, ltb, ◌==◌, not, ◌&&◌, ◌||◌, length, ◌≡◌, refl, Bool, true, false, Option, none, some,
  List, if◌then◌else◌, ◌=?◌,
}
use cfx_evm.Primitives.{u256_mod, AddressWithSpace, address_eq, Keccak}
use cfx_evm.StateDb.{Rlp}
use mathlib.Core.Path.{subst}
use cfx_evm.State.{State, Action, CleanupMode}
use cfx_evm.State.Frames.{Runs, Call, perform}
use cfx_evm.State.Frames
use cfx_evm.Substate.{Substate, FrameStackInfo, cleanup_mode}
use cfx_evm.Spec.{Spec}
use cfx_evm.Evm.Error.{VmError, VmResult, ok, err, panic}
use cfx_evm.Frame.World.{
  FrameContext, World, Act, continue, ◌>>=◌, pure, fail, crash, update, of_state, with_cleanup,
}
use cfx_evm.Frame.Program.{
  Ask, Answer, Program, finish, ask, trap_call, trap_create, Machine, InternalContract,
}
use cfx_evm.Frame.Program
use cfx_evm.Frame.Context
use cfx_evm.Vm.{ReturnData, GasLeft, known, needs_return, returned_bytes}

module _ ⦃k : Keccak⦄ ⦃rlp : Rlp⦄ where
  pub Runs-trans : {s t u : State} → Runs s t → Runs t u → Runs s u
  Runs-trans p Frames.here = p
  Runs-trans p (Frames.call q c) = Frames.call (Runs-trans p q) c
  Runs-trans p (Frames.kept q r) = Frames.kept (Runs-trans p q) r
  Runs-trans p (Frames.reverted q r e) = Frames.reverted (Runs-trans p q) r e

  -- An action of a frame that leaves a state which operations reach.
  pub record Acts {A : Type 0} (m : Act A) : Type 0 where
    pub runs : (w : World) → Runs w.state (m w).1.state

  pub >>=-Acts :
      {A B : Type 0} {m : Act A} {f : A → Act B} → Acts m → ((a : A) → Acts (f a)) → Acts (m >>= f)
  unfolding ◌>>=◌
  >>=-Acts {A} {B} {m} {f} p q = record { runs = λ w. go w (m w) (p.runs w) }
    where
      go :
          (w : World) (r : VmResult A × World)
          → Runs w.state r.1.state
          → Runs w.state (continue f r).1.state
      go w (ok a, v) st = Runs-trans st ((q a).runs v)
      go w (err e, v) st = st
      go w (panic, v) st = st

  pub if-Acts : {A : Type 0} (b : Bool) {m n : Act A} → Acts m → Acts n → Acts (if b then m else n)
  if-Acts true p q = p
  if-Acts false p q = q

  -- A method of the state that `Call` lists.
  pub of_state-Acts :
      {A : Type 0} (m : Action A) (c : Call)
      → ((s : State) → perform c s ≡ (m s).1)
      → Acts (of_state m)
  unfolding of_state
  of_state-Acts m c e = record {
    runs = λ w. subst (Runs w.state) (e w.state) (Frames.call Frames.here c);
  }

  pub with_cleanup-Acts :
      (spec : Spec) (m : CleanupMode → Action CleanupMode) (c : CleanupMode → Call)
      → ((mode : CleanupMode) (s : State) → perform (c mode) s ≡ (m mode s).1)
      → Acts (with_cleanup spec m)
  unfolding with_cleanup
  with_cleanup-Acts spec m c e = record {
    runs = λ w.
        subst (Runs w.state) (e (cleanup_mode w.substate spec) w.state)
          (Frames.call Frames.here (c (cleanup_mode w.substate spec)));
  }

  pub pure-Acts : {A : Type 0} (a : A) → Acts (pure a)
  unfolding pure
  pure-Acts a = record { runs = λ w. Frames.here }

  pub fail-Acts : {A : Type 0} (e : VmError) → Acts (fail {A = A} e)
  unfolding fail
  fail-Acts e = record { runs = λ w. Frames.here }

  pub crash-Acts : {A : Type 0} → Acts (crash {A = A})
  unfolding crash
  crash-Acts = record { runs = λ w. Frames.here }

  pub update-Acts : (f : Substate → Substate) → Acts (update f)
  unfolding update
  update-Acts f = record { runs = λ w. Frames.here }

  unless_static-Acts :
      {A : Type 0} (c : FrameContext) {m : Act A} → Acts m → Acts (Context.unless_static c m)
  unless_static-Acts c p = if-Acts c.static_flag (fail-Acts _) p

  hash_if_last-Acts : (n number hash : ℕ) → Acts (Context.hash_if_last n number hash)
  hash_if_last-Acts n number hash = if-Acts (ltb (number + 1) u256_mod) (pure-Acts _) crash-Acts

  pub suicide_impl-Acts :
      (a b : AddressWithSpace) (spec : Spec) (start : ℕ)
      → Acts (Context.suicide_impl a b spec start)
  unfolding Context.suicide_impl perform
  suicide_impl-Acts a b spec start = >>=-Acts (update-Acts _) λ _.
      >>=-Acts (of_state-Acts _ (Frames.balance a) (λ s. refl)) λ held.
        if-Acts (b =? a)
          (>>=-Acts (with_cleanup-Acts _ _ (Frames.sub_balance a held) (λ mode s. refl))
            λ _. of_state-Acts _ (Frames.subtract_total_issued held) (λ s. refl))
          (with_cleanup-Acts _ _ (λ mode. Frames.transfer_balance a b held mode start)
            (λ mode s. refl))

  deposit-Acts : (c : FrameContext) (gas : ℕ) (bytes : List ℕ) → Acts (Context.deposit c gas bytes)
  unfolding perform
  deposit-Acts c gas bytes = if-Acts (not (ltb (Context.return_cost c bytes) u256_mod)) crash-Acts (
      if-Acts (ltb gas (Context.return_cost c bytes) || ltb c.spec.create_data_limit (length bytes))
        (if-Acts c.spec.exceptional_failed_code_deposit (fail-Acts _) (pure-Acts _))
        (>>=-Acts (of_state-Acts _ (Frames.init_account_code (Context.caller c) bytes) (λ s. refl))
          (λ _. pure-Acts _)))

  ret-Acts :
      (c : FrameContext) (gas : ℕ) (bytes : ReturnData) (a : Bool)
      → Acts (Context.ret c gas bytes a)
  unfolding Context.ret
  ret-Acts c gas bytes a =
      if-Acts (c.is_create && a) (deposit-Acts c gas (returned_bytes bytes)) (pure-Acts gas)

  pub finalize-Acts : (c : FrameContext) (r : VmResult GasLeft) → Acts (Context.finalize c r)
  unfolding Context.finalize
  finalize-Acts c (ok (known gas)) = pure-Acts _
  finalize-Acts c (ok (needs_return gas bytes a)) =
      >>=-Acts (ret-Acts c gas bytes a) (λ g. pure-Acts _)
  finalize-Acts c (err e) = fail-Acts e
  finalize-Acts c panic = crash-Acts

module _ ⦃k : Keccak⦄ ⦃rlp : Rlp⦄ ⦃m : Machine⦄ (c : FrameContext) where
  spend_nonce-Acts : Acts (Context.spend_nonce c)
  unfolding perform
  spend_nonce-Acts =
      if-Acts
        (not c.static_flag
          && (not c.spec.keep_unsigned_nonce || not (c.origin.address == Context.unsigned_sender)))
        (of_state-Acts _ (Frames.inc_nonce (Context.caller c) c.spec.contract_start_nonce)
          (λ s. refl))
        (pure-Acts _)

  contract_or-Acts :
      {A : Type 0} (o : Option InternalContract) (f : InternalContract → A) {n : Act A}
      → Acts n
      → Acts (Context.contract_or o f n)
  contract_or-Acts (some contract) f p = pure-Acts _
  contract_or-Acts none f p = p

  code_at-Acts : (a : ℕ) (o : Option InternalContract) → Acts (Context.code_at c a o)
  unfolding perform
  code_at-Acts a (some contract) = pure-Acts _
  code_at-Acts a none =
      >>=-Acts (of_state-Acts _ (Frames.account_code (Context.here c a)) (λ s. refl)) λ found.
        >>=-Acts (of_state-Acts _ (Frames.code_hash (Context.here c a)) (λ s. refl))
          (λ hash. pure-Acts _)

  -- Whatever the program asks, the state it leaves is reached by operations of the state.
  pub answer-Acts : (cs : FrameStackInfo) (q : Ask) → Acts (Context.answer c cs q)
  unfolding perform Context.answer Context.storage_at Context.set_storage Context.exists
      Context.exists_and_not_null Context.balance Context.origin_balance Context.extcode
      Context.extcodehash Context.extcodesize Context.blockhash Context.create Context.call
      Context.log Context.suicide Context.internal_log Context.internal_set_storage
      Context.internal_storage_at
  answer-Acts cs (Program.storage_at key) =
      of_state-Acts _ (Frames.storage_at (Context.caller c) key) (λ s. refl)
  answer-Acts cs (Program.set_storage key value) =
      unless_static-Acts c
        (of_state-Acts _ (Frames.set_storage (Context.caller c) key value) (λ s. refl))
  answer-Acts cs (Program.exists a) = of_state-Acts _ (Frames.exists (Context.here c a)) (λ s. refl)
  answer-Acts cs (Program.exists_and_not_null a) =
      of_state-Acts _ (Frames.exists_and_not_null (Context.here c a)) (λ s. refl)
  answer-Acts cs (Program.balance a) =
      of_state-Acts _ (Frames.balance (Context.here c a)) (λ s. refl)
  answer-Acts cs (Program.extcode a) = contract_or-Acts (Context.active_contract c a) _ (
      >>=-Acts (of_state-Acts _ (Frames.account_code (Context.here c a)) (λ s. refl))
        (λ found. pure-Acts _))
  answer-Acts cs (Program.extcodehash a) =
      contract_or-Acts (Context.active_contract c a) _
        (of_state-Acts _ (Frames.code_hash (Context.here c a)) (λ s. refl))
  answer-Acts cs (Program.extcodesize a) =
      contract_or-Acts (Context.active_contract c a) _
        (of_state-Acts _ (Frames.account_code_size (Context.here c a)) (λ s. refl))
  answer-Acts cs Program.origin_balance =
      of_state-Acts _ (Frames.balance (Context.here c c.origin.address)) (λ s. refl)
  answer-Acts cs Program.callstack = pure-Acts _
  answer-Acts cs (Program.blockhash n) =
      if-Acts c.spec.cip98 (hash_if_last-Acts c.env.epoch_height n c.env.last_hash)
        (hash_if_last-Acts c.env.number n c.env.last_hash)
  answer-Acts cs (Program.create gas value bytes scheme) =
      >>=-Acts (of_state-Acts _ (Frames.nonce (Context.caller c)) (λ s. refl))
        λ n. >>=-Acts spend_nonce-Acts (λ _. pure-Acts _)
  answer-Acts cs (Program.call gas sender to value bytes code kind) =
      >>=-Acts (code_at-Acts code (Context.active_contract c code)) (λ found. pure-Acts _)
  answer-Acts cs (Program.log topics bytes) = unless_static-Acts c (update-Acts _)
  answer-Acts cs (Program.suicide refund start) =
      unless_static-Acts c
        (suicide_impl-Acts (Context.caller c) (Context.here c refund) c.spec start)
  answer-Acts cs (Program.internal_log params topics bytes) = unless_static-Acts c (update-Acts _)
  answer-Acts cs (Program.internal_set_storage params key value) =
      of_state-Acts _ (Frames.set_storage (Context.receiver_of params) key value) (λ s. refl)
  answer-Acts cs (Program.internal_storage_at params key) =
      of_state-Acts _ (Frames.storage_at (Context.receiver_of params) key) (λ s. refl)
  answer-Acts cs (Program.internal_exists_and_not_null a) =
      of_state-Acts _ (Frames.exists_and_not_null a) (λ s. refl)
  answer-Acts cs (Program.internal_balance a) = of_state-Acts _ (Frames.balance a) (λ s. refl)
  answer-Acts cs (Program.internal_nonce a) = of_state-Acts _ (Frames.nonce a) (λ s. refl)
  answer-Acts cs (Program.internal_code a) =
      >>=-Acts (of_state-Acts _ (Frames.account_code a) (λ s. refl)) (λ found. pure-Acts _)
  answer-Acts cs (Program.internal_code_hash a) = of_state-Acts _ (Frames.code_hash a) (λ s. refl)
  answer-Acts cs (Program.internal_is_contract_with_code a) =
      of_state-Acts _ (Frames.is_contract_with_code a) (λ s. refl)
  answer-Acts cs (Program.internal_created a) = update-Acts _
  answer-Acts cs (Program.internal_inc_nonce a start) =
      of_state-Acts _ (Frames.inc_nonce a start) (λ s. refl)
  answer-Acts cs (Program.internal_init_code a bytes) =
      of_state-Acts _ (Frames.init_account_code a bytes) (λ s. refl)
  answer-Acts cs (Program.internal_new_contract a v n layout) =
      of_state-Acts _ (Frames.new_contract a v n layout) (λ s. refl)
  answer-Acts cs (Program.internal_transfer_balance from to v start) =
      with_cleanup-Acts _ _ (λ mode. Frames.transfer_balance from to v mode start) (λ mode s. refl)
