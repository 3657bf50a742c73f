-- ===== src/Evm/Requirements/Provides.antt =====
-- Which instructions pass gas on: `requirements` of src/evm/interpreter/gasometer.rs.
use cfx_evm.Base.{
  ℕ, ◌≡◌, refl, sym, ◌∙◌, Bool, true, false, ◌||◌, ◌&&◌, not, List, Option, none, some,
}
use mathlib.Core.Path.{subst}
use cfx_evm.Evm.Instruction.Enum
use cfx_evm.Evm.Instruction.Enum.{Instruction, to_u8}
use cfx_evm.Evm.Instruction.Table.{InstructionInfo}
use cfx_evm.Evm.Instruction.Laws.{every}
use cfx_evm.Evm.Error.{VmResult, VmError, ok, err, panic, ◌>>=◌}
use cfx_evm.Evm.Cost.{CostType}
use cfx_evm.Evm.Gasometer.{Gasometer}
use cfx_evm.Evm.Requirements.Types.{
  Context, Request, gas, gas_mem, gas_mem_provide, gas_mem_copy, InstructionRequirements, Arm, arm,
  jumpdest, sstore, sload, balance, extcodesize, extcodehash, suicide, word, byte, return, sha3,
  copy, extcodecopy, log, call, delegate, create, exp, blockhash, other,
}
use cfx_evm.Evm.Requirements.Ask.{request, call_request, create_request, log_request}
use cfx_evm.Evm.Requirements.Fulfil.{fulfil, requirements}

-- What holds of the value of a result, if it has one.
data Holds {ℓ} {A : Type ℓ} (P : A → Type 0) : VmResult A → Type ℓ where
  held : {a : A} → P a → Holds P (ok a)
  failed : {e : VmError} → Holds P (err e)
  panicked : Holds P panic

then-Holds {ℓ κ} :
    {A : Type ℓ} {B : Type κ} {P : B → Type 0} (m : VmResult A) (f : A → VmResult B)
    → ((a : A) → Holds P (f a))
    → Holds P (m >>= f)
unfolding ◌>>=◌
then-Holds (ok a) f h = h a
then-Holds (err e) f h = failed
then-Holds panic f h = panicked

weaken {ℓ} :
    {A : Type ℓ} {P Q : A → Type 0} (m : VmResult A) → ((a : A) → P a → Q a) → Holds P m → Holds Q m
weaken (ok a) f (held p) = held (f a p)
weaken (err e) f failed = failed
weaken panic f panicked = panicked

abbrev pub is_some : Option ℕ → Bool
is_some none = false
is_some (some n) = true

abbrev passes_on : Request → Bool
passes_on (gas_mem_provide cost mem requested) = true
passes_on _ = false

abbrev providing_arm : Arm → Bool
providing_arm call = true
providing_arm delegate = true
providing_arm create = true
providing_arm _ = false

-- The instructions of which the source says that they provide gas to a child context.
abbrev pub is_call_or_create : Instruction → Bool
is_call_or_create Enum.op_create = true
is_call_or_create Enum.op_create2 = true
is_call_or_create Enum.op_call = true
is_call_or_create Enum.op_callcode = true
is_call_or_create Enum.op_delegatecall = true
is_call_or_create Enum.op_staticcall = true
is_call_or_create _ = false

module _ (c : CostType) (ctx : Context) where
  fulfil-provides :
      (size : ℕ) (g : Gasometer) (q : Request)
      → Holds (λ r. is_some r.provide_gas ≡ passes_on q) (fulfil c ctx.spec size g q)
  unfolding fulfil
  fulfil-provides size g (gas cost) = held refl
  fulfil-provides size g (gas_mem cost mem) = then-Holds _ _ (λ _. then-Holds _ _ (λ _. held refl))
  fulfil-provides size g (gas_mem_provide cost mem requested) =
      then-Holds _ _
        (λ _. then-Holds _ _ (λ _. then-Holds _ _ (λ _. then-Holds _ _ (λ _. held refl))))
  fulfil-provides size g (gas_mem_copy cost mem copied) = then-Holds _ _ (λ _.
      then-Holds _ _
        (λ _. then-Holds _ _ (λ _. then-Holds _ _ (λ _. then-Holds _ _ (λ _. held refl)))))

  request-passes_on :
      (stack : List ℕ) (default_gas : ℕ) (i : Instruction) (a : Arm)
      → Holds (λ q. passes_on q ≡ providing_arm a) (request c ctx stack default_gas i a)
  unfolding request call_request create_request log_request
  request-passes_on stack d i jumpdest = held refl
  request-passes_on stack d i sstore = then-Holds _ _ (λ _. held refl)
  request-passes_on stack d i sload = held refl
  request-passes_on stack d i balance = held refl
  request-passes_on stack d i extcodesize = held refl
  request-passes_on stack d i extcodehash = held refl
  request-passes_on stack d i suicide = then-Holds _ _ (λ _. held refl)
  request-passes_on stack d i word = then-Holds _ _ (λ _. then-Holds _ _ (λ _. held refl))
  request-passes_on stack d i byte = then-Holds _ _ (λ _. then-Holds _ _ (λ _. held refl))
  request-passes_on stack d i return = then-Holds _ _ (λ _. held refl)
  request-passes_on stack d i sha3 =
      then-Holds _ _ (λ _. then-Holds _ _ (λ _. then-Holds _ _ (λ _. held refl)))
  request-passes_on stack d i copy = then-Holds _ _ (λ _. then-Holds _ _ (λ _. held refl))
  request-passes_on stack d i extcodecopy = then-Holds _ _ (λ _. then-Holds _ _ (λ _. held refl))
  request-passes_on stack d i log = then-Holds _ _ (λ _.
      then-Holds _ _
        (λ _. then-Holds _ _ (λ _. then-Holds _ _ (λ _. then-Holds _ _ (λ _. held refl)))))
  request-passes_on stack d i call = then-Holds _ _ (λ _. then-Holds _ _ (λ _. then-Holds _ _ (λ _.
      then-Holds _ _ (λ _.
        then-Holds _ _
          (λ _. then-Holds _ _ (λ _. then-Holds _ _ (λ _. then-Holds _ _ (λ _. held refl))))))))
  request-passes_on stack d i delegate =
      then-Holds _ _ (λ _. then-Holds _ _ (λ _. then-Holds _ _ (λ _. held refl)))
  request-passes_on stack d i create = then-Holds _ _ (λ _. then-Holds _ _ (λ _.
      then-Holds _ _ (λ _.
        then-Holds _ _
          (λ _. then-Holds _ _ (λ _. then-Holds _ _ (λ _. then-Holds _ _ (λ _. held refl)))))))
  request-passes_on stack d i exp = then-Holds _ _ (λ _. held refl)
  request-passes_on stack d i blockhash = held refl
  request-passes_on stack d i other = held refl

  outcome : {A : Type 0} {P : A → Type 0} (m : VmResult A) (a : A) → m ≡ ok a → Holds P m → P a
  outcome {P = P} m a q h = go (subst (Holds P) q h)
    where
      go : Holds P (ok a) → P a
      go (held p) = p

-- The arms that provide gas are those of the six instructions.
providing_arms : (i : Instruction) → providing_arm (arm i) ≡ is_call_or_create i
unfolding arm Enum.to_u8
providing_arms i =
    same_eq _ _ (every (λ i. same (providing_arm (arm i)) (is_call_or_create i)) refl i)
  where
    same : Bool → Bool → Bool
    same a b = a && b || not a && not b

    same_eq : (a b : Bool) → same a b ≡ true → a ≡ b
    same_eq true true h = refl
    same_eq true false h = sym h
    same_eq false true h = h
    same_eq false false h = refl

-- If the requirements of an instruction are computed without an error, then gas is provided to a
-- child context exactly for CREATE, CREATE2, CALL, CALLCODE, DELEGATECALL and STATICCALL.
pub requirements-provide :
    (c : CostType) (ctx : Context) (i : Instruction) (info : InstructionInfo) (stack : List ℕ)
    (size : ℕ) (g : Gasometer) (r : InstructionRequirements)
    → requirements c ctx i info stack size g ≡ ok r
    → is_some r.provide_gas ≡ is_call_or_create i
unfolding requirements ◌>>=◌
requirements-provide c ctx i info stack size g r h = outcome c ctx _ r h (
    then-Holds _ _
      (λ d. after (request c ctx stack d i (arm i)) (request-passes_on c ctx stack d i (arm i))))
  where
    after :
        (m : VmResult Request)
        → Holds (λ q. passes_on q ≡ providing_arm (arm i)) m
        → Holds (λ r. is_some r.provide_gas ≡ is_call_or_create i) (m >>= fulfil c ctx.spec size g)
    after (ok q) (held p) =
        weaken (fulfil c ctx.spec size g q) (λ r e. e ∙ p ∙ providing_arms i)
          (fulfil-provides c ctx size g q)
    after (err e) h = failed
    after panic h = panicked
