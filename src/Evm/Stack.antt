-- ===== src/Evm/Stack.antt =====
-- The stack of the machine, the last element pushed first: src/evm/interpreter/stack.rs.
use cfx_evm.Base.{ℕ, Bool, List, Option, none, some, length, get_elem?, leb}
use cfx_evm.Evm.Error.{VmResult, ok, panic}

-- An index out of range panics.
abbrev pub or_panic {ℓ} : {A : Type ℓ} → Option A → VmResult A
or_panic none = panic
or_panic (some a) = ok a

unfoldable pub peek {ℓ} : {A : Type ℓ} → ℕ → List A → VmResult A
peek no_from_top stack = or_panic (get_elem? stack no_from_top)

unfoldable pub has {ℓ} : {A : Type ℓ} → ℕ → List A → Bool
has no_of_elems stack = leb no_of_elems (length stack)
