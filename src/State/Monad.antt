-- ===== src/State/Monad.antt =====
-- A method of the state: it returns a result and the state it leaves, also where it fails.
use cfx_evm.StateDb.{Result, ok, err, panic}
use cfx_evm.Primitives.{⊤}
use cfx_evm.State.Types.{State}

abbrev pub Action : Type 0 → Type 0
Action A = State → Result A × State

-- What follows a result: the next action, or the same failure.
abbrev pub continue : {A B : Type 0} → (A → Action B) → Result A × State → Result B × State
continue f (ok a, s) = f a s
continue f (err e, s) = (err e, s)
continue f (panic, s) = (panic, s)

infixl 5 ◌>>=◌ ◌>>◌
abbrev pub ◌>>=◌ : {A B : Type 0} → Action A → (A → Action B) → Action B
◌>>=◌ m f s = continue f (m s)

abbrev pub ◌>>◌ : {A B : Type 0} → Action A → Action B → Action B
m >> k = m >>= λ _. k

module _ {A : Type 0} where
  abbrev pub pure : A → Action A
  pure a s = (ok a, s)

  abbrev pub lift : Result A → Action A
  lift r s = (r, s)

  abbrev pub gets : (State → A) → Action A
  gets f s = (ok (f s), s)

abbrev pub modify : (State → State) → Action ⊤
modify f s = (ok tt, f s)
