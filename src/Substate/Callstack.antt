-- ===== src/Substate/Callstack.antt =====
-- The counters of the frame stack in src/state/substate.rs count the addresses on it.
use cfx_evm.Base.{
  ℕ, ◌+◌, ◌<◌, ◌≡◌, refl, sym, ap, Bool, true, false, ◌||◌, List, [], ◌∷◌, Option, none, some, ◌==◌,
  if◌then◌else◌, ◌=?◌, lookup, insert, remove, contains_key, arith, lookup-insert, lookup-remove,
}
use mathlib.Core.Path.{subst}
use cfx_evm.Primitives.{AddressWithSpace, address_eq, address_beq_iff}
use cfx_evm.Substate.{FrameStackInfo, count_of, push, pop, is_on_stack, new_frame_stack}

-- How often an address stands in a list of frames; `none` where it does not.
abbrev pub tally : AddressWithSpace → List (AddressWithSpace × Bool) → Option ℕ
tally a [] = none
tally a (f ∷ rest) = if f.0 =? a then some (count_of (tally a rest) + 1) else tally a rest

abbrev pub stands_in : AddressWithSpace → List (AddressWithSpace × Bool) → Bool
stands_in a [] = false
stands_in a (f ∷ rest) = f.0 =? a || stands_in a rest

-- The counters agree with the vector, and none of them is zero.
abbrev pub IsConsistent : FrameStackInfo → Type 0
IsConsistent s =
    (a : AddressWithSpace) → lookup a s.address_counter ≡ tally a s.call_stack_recipient_addresses

tally_pos :
    (a : AddressWithSpace) (fs : List (AddressWithSpace × Bool)) (n : ℕ)
    → tally a fs ≡ some n
    → 0 < n
tally_pos a [] n h = absurd (cc)
tally_pos a (f ∷ rest) n h = ground (arith, tally_pos a rest n)

pub new_frame_stack-IsConsistent : IsConsistent new_frame_stack
unfolding lookup
new_frame_stack-IsConsistent a = refl

pub push-IsConsistent :
    (b : AddressWithSpace) (c : Bool) (s : FrameStackInfo)
    → IsConsistent s
    → IsConsistent (push b c s)
unfolding push
push-IsConsistent b c s h a = ground (
  arith,
  address_beq_iff b a,
  h a,
  h b,
  lookup-insert b a (count_of (lookup b s.address_counter) + 1) s.address_counter,
)

pub is_on_stack-stands_in :
    (a : AddressWithSpace) (s : FrameStackInfo)
    → IsConsistent s
    → is_on_stack a s ≡ stands_in a s.call_stack_recipient_addresses
unfolding is_on_stack contains_key
is_on_stack-stands_in a s h =
    subst
      (λ (o : Option ℕ).
        (elim o [ none ↦ false | some _ ↦ true ]) ≡ stands_in a s.call_stack_recipient_addresses)
      (sym (h a)) (go s.call_stack_recipient_addresses)
  where
    go :
        (fs : List (AddressWithSpace × Bool))
        → (elim (tally a fs) [ none ↦ false | some _ ↦ true ]) ≡ stands_in a fs
    go [] = refl
    go (f ∷ rest) = ground (arith, go rest)

module _ (f : AddressWithSpace × Bool) (rest : List (AddressWithSpace × Bool)) where
  -- The stack that a pop of `f` leaves.
  popped : FrameStackInfo → FrameStackInfo
  popped s = record {
    call_stack_recipient_addresses = rest;
    address_counter =
        if count_of (tally f.0 rest) == 0
        then remove f.0 s.address_counter
        else insert f.0 (count_of (tally f.0 rest)) s.address_counter;
  }

  popped-IsConsistent :
      (s : FrameStackInfo)
      → IsConsistent s
      → s.call_stack_recipient_addresses ≡ f ∷ rest
      → IsConsistent (popped s)
  unfolding popped
  popped-IsConsistent s h e a = ground (
    arith,
    h a,
    ap (tally a) e,
    address_beq_iff f.0 a,
    tally_pos a rest 0,
    lookup-remove f.0 a s.address_counter,
    lookup-insert f.0 a (count_of (tally f.0 rest)) s.address_counter,
  )

  pop-popped :
      (s : FrameStackInfo)
      → IsConsistent s
      → s.call_stack_recipient_addresses ≡ f ∷ rest
      → pop s ≡ some (some f, popped s)
  unfolding pop popped
  pop-popped s h e = ground (arith, h f.0, ap (tally f.0) e, address_beq_iff f.0 f.0)

  -- On a consistent stack whose last frame is `f`, a pop does not panic: it returns `f` and leaves
  -- the frames below it, consistent again, and an address is a key of the counters that are left
  -- exactly if it is the recipient of one of those frames.
  pub pop_lem :
      (s : FrameStackInfo)
      → IsConsistent s
      → s.call_stack_recipient_addresses ≡ f ∷ rest
      → (t : FrameStackInfo) × (pop s ≡ some (some f, t))
        × (t.call_stack_recipient_addresses ≡ rest)
        × IsConsistent t
        × ((a : AddressWithSpace) → is_on_stack a t ≡ stands_in a rest)
  unfolding popped
  pop_lem s h e =
      let k = popped-IsConsistent s h e in
      (popped s, pop-popped s h e, refl, k, λ a. is_on_stack-stands_in a (popped s) k)
