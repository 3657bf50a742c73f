-- ===== src/Base/Map.antt =====
-- Rust's `HashMap` as an association list. The order of the list stands for the order in which
-- `drain` visits the entries, which the program does not know.
use mathlib.Core.Path.{◌≡◌, refl}
use mathlib.Core.Bool.{Bool, true, false}
use mathlib.Core.List.{List, [], ◌∷◌}
use mathlib.Core.Option.{Option, none, some}
use native.Mathlib.Omega.{arith}
use cfx_evm.Base.Tests.{if◌then◌else◌}
use cfx_evm.Base.Keys.{Eq, ◌=?◌}

abbrev pub HashMap {ℓ κ} : Type ℓ → Type κ → Type (ℓ ⊔ κ)
HashMap K V = List (K × V)

module _ {ℓ κ} {K : Type ℓ} {V : Type κ} ⦃e : Eq K⦄ where
  unfoldable pub lookup : K → HashMap K V → Option V
  lookup k [] = none
  lookup k ((j, v) ∷ m) = if j =? k then some v else lookup k m

  unfoldable pub contains_key : K → HashMap K V → Bool
  unfolding lookup
  contains_key k m = elim (lookup k m) [ none ↦ false | some _ ↦ true ]

  unfoldable pub insert : K → V → HashMap K V → HashMap K V
  insert k v [] = (k, v) ∷ []
  insert k v ((j, w) ∷ m) = if j =? k then (k, v) ∷ m else (j, w) ∷ insert k v m

  unfoldable pub remove : K → HashMap K V → HashMap K V
  remove k [] = []
  remove k ((j, w) ∷ m) = let rest = remove k m in if j =? k then rest else (j, w) ∷ rest

  -- `m.entry(k).or_insert(v)`
  unfoldable pub or_insert : K → V → HashMap K V → HashMap K V
  or_insert k v [] = (k, v) ∷ []
  or_insert k v ((j, w) ∷ m) = if j =? k then (j, w) ∷ m else (j, w) ∷ or_insert k v m

  -- Every key stands once: what Rust's map guarantees, and every operation here keeps.
  abbrev pub Unique : HashMap K V → Type κ
  Unique [] = Unit
  Unique ((k, v) ∷ m) = (lookup k m ≡ none) × Unique m

module _ {ℓ κ} {K : Type ℓ} {V : Type κ} ⦃e : Eq K⦄ where
  pub lookup-insert :
      (k j : K) (v : V) (m : HashMap K V)
      → lookup j (insert k v m) ≡ (if k =? j then some v else lookup j m)
  unfolding lookup insert
  lookup-insert k j v [] = refl
  lookup-insert k j v ((i, w) ∷ m) =
      ground (arith, e.beq_iff k j, e.beq_iff i k, e.beq_iff i j, lookup-insert k j v m)

  pub lookup-or_insert :
      (k j : K) (v : V) (m : HashMap K V)
      → lookup j (or_insert k v m)
        ≡ (if k =? j then elim (lookup k m) [ none ↦ some v | some w ↦ some w ] else lookup j m)
  unfolding lookup or_insert
  lookup-or_insert k j v [] = refl
  lookup-or_insert k j v ((i, w) ∷ m) =
      ground (arith, e.beq_iff k j, e.beq_iff i k, e.beq_iff i j, lookup-or_insert k j v m)

  pub lookup-remove :
      (k j : K) (m : HashMap K V) → lookup j (remove k m) ≡ (if k =? j then none else lookup j m)
  unfolding lookup remove
  lookup-remove k j [] = ground arith
  lookup-remove k j ((i, w) ∷ m) =
      ground (arith, e.beq_iff k j, e.beq_iff i k, e.beq_iff i j, lookup-remove k j m)

  pub or_insert-Unique : (k : K) (v : V) (m : HashMap K V) → Unique m → Unique (or_insert k v m)
  unfolding lookup or_insert
  or_insert-Unique k v [] u = (refl, tt)
  or_insert-Unique k v ((i, w) ∷ m) u =
      ground
        (arith, e.beq_iff i k, e.beq_iff k i, lookup-or_insert k i v m, or_insert-Unique k v m u.1)

  pub insert-Unique : (k : K) (v : V) (m : HashMap K V) → Unique m → Unique (insert k v m)
  unfolding lookup insert
  insert-Unique k v [] u = (refl, tt)
  insert-Unique k v ((i, w) ∷ m) u =
      ground (arith, e.beq_iff i k, e.beq_iff k i, lookup-insert k i v m, insert-Unique k v m u.1)

  -- `for (k, v) in m.drain() { s = f(k, v, s) }`
  unfoldable pub drain_into {ι} : {S : Type ι} → (K → V → S → S) → HashMap K V → S → S
  drain_into f [] s = s
  drain_into f ((k, v) ∷ m) s = drain_into f m (f k v s)

  -- A loop over a map whose every round changes one slot, that of its key: each slot sees the
  -- round of its own key and no other, in whatever order the map is drained.
  pub drain_into-slot {ι υ} :
      {S : Type ι} {X : Type υ} (slot : K → S → X) (f : K → V → S → S) (g : V → X → X)
      → ((k j : K) (v : V) (s : S)
          → slot j (f k v s) ≡ (if k =? j then g v (slot j s) else slot j s))
      → (j : K) (m : HashMap K V) (s : S) → Unique m
      → slot j (drain_into f m s)
        ≡ (elim (lookup j m) [ none ↦ slot j s | some v ↦ g v (slot j s) ])
  unfolding drain_into lookup
  drain_into-slot slot f g step j [] s u = refl
  drain_into-slot slot f g step j ((k, v) ∷ m) s u =
      ground (arith, e.beq_iff k j, step k j v s, drain_into-slot slot f g step j m (f k v s) u.1)

  pub lookup-insert_self : (k : K) (v : V) (m : HashMap K V) → lookup k (insert k v m) ≡ some v
  lookup-insert_self k v m = ground (arith, lookup-insert k k v m, e.beq_iff k k)

  -- What holds of the state of a loop over a map, if every round keeps it.
  pub drain_into-keeps {ι υ} :
      {S : Type ι} (P : S → Type υ) (f : K → V → S → S)
      → ((k : K) (v : V) (s : S) → P s → P (f k v s))
      → (m : HashMap K V) (s : S) → P s
      → P (drain_into f m s)
  unfolding drain_into
  drain_into-keeps P f keep [] s h = h
  drain_into-keeps P f keep ((k, v) ∷ m) s h = drain_into-keeps P f keep m (f k v s) (keep k v s h)
