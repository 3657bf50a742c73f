-- ===== src/Frame/Context/Accounts.antt =====
-- The context of a frame: storage, balances, `suicide` of src/internal_contract/impls/admin.rs, and
-- the end of a frame (src/call_create_frame/context.rs).
use cfx_evm.Base.{
  ℕ, ◌-◌, ◌*◌, Bool, true, not, ◌&&◌, ◌||◌, List, ltb, if◌then◌else◌, ◌=?◌, length, nat_eq,
}
use cfx_evm.Primitives.{⊤, u256_mod, AddressWithSpace, address_eq, Keccak}
use cfx_evm.Spec.{Spec}
use cfx_evm.StateDb.{Rlp}
use cfx_evm.State
use cfx_evm.State.{set_insert}
use cfx_evm.Vm.{
  ReturnData, GasLeft, FinalizationResult, known, needs_return, returned_bytes, empty_return_data,
}
use cfx_evm.Evm.Error.{VmResult, ok, err, panic, out_of_gas}
use cfx_evm.Frame.World.{
  FrameContext, Act, ◌>>=◌, ◌>>◌, pure, fail, crash, update, of_state, with_cleanup,
}
use cfx_evm.Frame.Context.Basics.{caller, here, unless_static}

module _ ⦃k : Keccak⦄ ⦃rlp : Rlp⦄ where
  unfoldable pub storage_at : FrameContext → List ℕ → Act ℕ
  storage_at c key = of_state (State.storage_at (caller c) key)

  unfoldable pub set_storage : FrameContext → List ℕ → ℕ → Act ⊤
  set_storage c key value = unless_static c (of_state (State.set_storage (caller c) key value))

  unfoldable pub exists : FrameContext → ℕ → Act Bool
  exists c a = of_state (State.exists (here c a))

  unfoldable pub exists_and_not_null : FrameContext → ℕ → Act Bool
  exists_and_not_null c a = of_state (State.exists_and_not_null (here c a))

  unfoldable pub balance : FrameContext → ℕ → Act ℕ
  balance c a = of_state (State.balance (here c a))

  unfoldable pub origin_balance : FrameContext → Act ℕ
  unfolding balance
  origin_balance c = balance c c.origin.address

  -- `suicide` of src/internal_contract/impls/admin.rs
  unfoldable pub suicide_impl : AddressWithSpace → AddressWithSpace → Spec → ℕ → Act ⊤
  suicide_impl contract refund spec start = do
    update (λ s. record s { suicides = set_insert contract s.suicides })
    held ← of_state (State.balance contract)
    if refund =? contract
        then (with_cleanup spec (State.sub_balance contract held)
            >> of_state (State.subtract_total_issued held))
        else with_cleanup spec (λ mode. State.transfer_balance contract refund held mode start)

  unfoldable pub suicide : FrameContext → ℕ → ℕ → Act ⊤
  unfolding suicide_impl
  suicide c refund start = unless_static c (suicide_impl (caller c) (here c refund) c.spec start)

  -- The price of the code that a creation deposits.
  abbrev pub return_cost : FrameContext → List ℕ → ℕ
  return_cost c bytes = length bytes * (c.spec.create_data_gas * c.spec.evm_gas_ratio)

  abbrev pub deposit : FrameContext → ℕ → List ℕ → Act ℕ
  deposit c gas bytes =
      if not (ltb (return_cost c bytes) u256_mod)
      then crash
      else if ltb gas (return_cost c bytes) || ltb c.spec.create_data_limit (length bytes)
      then (if c.spec.exceptional_failed_code_deposit then fail out_of_gas else pure gas)
      else (do
        of_state (State.init_account_code (caller c) bytes)
        pure (gas - return_cost c bytes))

  -- `Context::ret`
  unfoldable pub ret : FrameContext → ℕ → ReturnData → Bool → Act ℕ
  ret c gas bytes apply_state =
      if c.is_create && apply_state then deposit c gas (returned_bytes bytes) else pure gas

  -- `finalize` of src/evm/evm.rs
  unfoldable pub finalize : FrameContext → VmResult GasLeft → Act FinalizationResult
  unfolding ret
  finalize c (ok (known gas_left)) = pure (record {
    space = c.space;
    gas_left = gas_left;
    apply_state = true;
    return_data = empty_return_data;
  })
  finalize c (ok (needs_return gas_left bytes apply_state)) = do
    gas ← ret c gas_left bytes apply_state
    pure
        (record { space = c.space; gas_left = gas; apply_state = apply_state; return_data = bytes })
  finalize c (err e) = fail e
  finalize c panic = crash
