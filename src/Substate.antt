-- ===== src/Substate.antt =====
-- What a frame hands on beside the state, and the stack of the frames' addresses:
-- src/state/substate.rs. A `HashSet` is the list of its elements.
use cfx_evm.Base.{
  ℕ, ◌+◌, ◌-◌, ◌≡◌, refl, Bool, true, false, not, ◌||◌, ◌&&◌, List, [], ◌∷◌, ◌++◌, Option, none,
  some, ◌==◌, if◌then◌else◌, ◌=?◌, HashMap, lookup, insert, remove, contains_key, arith,
}
use cfx_evm.Primitives.{AddressWithSpace, Space, address_eq}
use cfx_evm.Spec.{Spec, CleanDustMode, off}
use cfx_evm.State.{CleanupMode, force_create, no_empty, track_touched, set_insert}
pub mod Callstack

pub record LogEntry : Type 0 where
  pub address : ℕ
  pub topics : List ℕ
  pub log_data : List ℕ
  pub space : Space

pub record Substate : Type 0 where
  pub suicides : List AddressWithSpace
  pub touched : List AddressWithSpace
  pub logs : List LogEntry
  pub contracts_created : List AddressWithSpace

abbrev pub new_substate : Substate
new_substate = record { suicides = []; touched = []; logs = []; contracts_created = [] }

-- `HashSet::extend`
unfoldable pub set_extend : List AddressWithSpace → List AddressWithSpace → List AddressWithSpace
set_extend set [] = set
set_extend set (a ∷ more) = set_extend (set_insert a set) more

unfoldable pub accrue : Substate → Substate → Substate
unfolding set_extend
accrue self s = record {
  suicides = set_extend self.suicides s.suicides;
  touched = set_extend self.touched s.touched;
  logs = self.logs ++ s.logs;
  contracts_created = self.contracts_created ++ s.contracts_created;
}

abbrev is_on : CleanDustMode → Bool
is_on off = false
is_on _ = true

abbrev mode_for : Bool → Bool → Bool → List AddressWithSpace → CleanupMode
mode_for false false _ touched = force_create
mode_for false true false touched = no_empty
mode_for false true true touched = track_touched touched
mode_for true _ _ touched = track_touched touched

unfoldable pub cleanup_mode : Substate → Spec → CleanupMode
cleanup_mode s spec = mode_for (is_on spec.kill_dust) spec.no_empty spec.kill_empty s.touched

-- The set behind the mode, after an operation that was given the mode.
abbrev pub write_back : CleanupMode → Substate → Substate
write_back (track_touched set) s = record s { touched = set }
write_back _ s = s

-- The vector is a list with the last frame first.
pub record FrameStackInfo : Type 0 where
  pub call_stack_recipient_addresses : List (AddressWithSpace × Bool)
  pub address_counter : HashMap AddressWithSpace ℕ

abbrev pub new_frame_stack : FrameStackInfo
new_frame_stack = record { call_stack_recipient_addresses = []; address_counter = [] }

abbrev count_of : Option ℕ → ℕ
count_of none = 0
count_of (some n) = n

unfoldable pub push : AddressWithSpace → Bool → FrameStackInfo → FrameStackInfo
push a is_create s = record {
  call_stack_recipient_addresses = (a, is_create) ∷ s.call_stack_recipient_addresses;
  address_counter = insert a (count_of (lookup a s.address_counter) + 1) s.address_counter;
}

-- The counter of the popped address; `none` is the `expect` that it is there.
abbrev decrement :
    AddressWithSpace → Option ℕ → HashMap AddressWithSpace ℕ → Option (HashMap AddressWithSpace ℕ)
decrement a none counter = none
decrement a (some n) counter =
    some (if n - 1 == 0 then remove a counter else insert a (n - 1) counter)

abbrev pop_counter :
    AddressWithSpace × Bool
    → List (AddressWithSpace × Bool)
    → Option (HashMap AddressWithSpace ℕ)
    → Option (Option (AddressWithSpace × Bool) × FrameStackInfo)
pop_counter top rest none = none
pop_counter top rest (some counter) =
    some (some top, record { call_stack_recipient_addresses = rest; address_counter = counter })

abbrev pop_frame :
    List (AddressWithSpace × Bool)
    → HashMap AddressWithSpace ℕ
    → Option (Option (AddressWithSpace × Bool) × FrameStackInfo)
pop_frame [] counter =
    some (none, record { call_stack_recipient_addresses = []; address_counter = counter })
pop_frame (top ∷ rest) counter =
    pop_counter top rest (decrement top.0 (lookup top.0 counter) counter)

-- What the pop returns, and the stack it leaves; `none` is a panic.
unfoldable pub pop : FrameStackInfo → Option (Option (AddressWithSpace × Bool) × FrameStackInfo)
pop s = pop_frame s.call_stack_recipient_addresses s.address_counter

unfoldable pub last : FrameStackInfo → Option AddressWithSpace
last s = elim s.call_stack_recipient_addresses [ [] ↦ none | top ∷ _ ↦ some top.0 ]

unfoldable pub is_on_stack : AddressWithSpace → FrameStackInfo → Bool
is_on_stack a s = contains_key a s.address_counter
