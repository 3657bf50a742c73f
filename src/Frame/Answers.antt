-- ===== src/Frame/Answers.antt =====
-- What the context answers: blockhash and ret of src/call_create_frame/context.rs.
use cfx_evm.Base.{ℕ, ◌+◌, ◌-◌, ◌<◌, ◌≡◌, ◌↔◌, Bool, true, false, arith, ◌==◌, if◌then◌else◌}
use cfx_evm.Primitives.{u256_mod}
use cfx_evm.Evm.Error.{ok, panic}
use cfx_evm.Frame.World.{FrameContext, World, pure, crash}
use cfx_evm.Frame.Context.{blockhash, hash_if_last}

hash_if_last-panic :
    (n number hash : ℕ) (w : World)
    → number < u256_mod
    → ((hash_if_last n number hash w).0 ≡ panic) ↔ (number ≡ u256_mod - 1)
unfolding pure crash
hash_if_last-panic n number hash w h = (λ q. ground arith, λ q. ground arith)

-- The hash of a block is asked for by a 256-bit number. The code panics exactly at the largest of
-- them, 2^256 - 1, whose successor leaves the type; below it the answer is the last hash if the
-- number is that of the block before the current one, and zero otherwise.
pub blockhash-panic :
    (c : FrameContext) (number : ℕ) (w : World)
    → number < u256_mod
    → (((blockhash c number w).0 ≡ panic) ↔ (number ≡ u256_mod - 1))
      × (number < u256_mod - 1
          → blockhash c number w ≡ (
            ok (
                if (if c.spec.cip98 then c.env.epoch_height else c.env.number) == number + 1
                then c.env.last_hash
                else 0),
            w,
          ))
unfolding blockhash pure crash
blockhash-panic c number w h = go c.spec.cip98
  where
    go :
        (b : Bool)
        → (((if b
                  then hash_if_last c.env.epoch_height number c.env.last_hash
                  else hash_if_last c.env.number number c.env.last_hash)
                w).0
              ≡ panic
            ↔ (number ≡ u256_mod - 1))
          × (number < u256_mod - 1
              → (if b
                    then hash_if_last c.env.epoch_height number c.env.last_hash
                    else hash_if_last c.env.number number c.env.last_hash)
                  w
                ≡ (
                  ok (
                      if (if b then c.env.epoch_height else c.env.number) == number + 1
                      then c.env.last_hash
                      else 0),
                  w,
                ))
    go true = (hash_if_last-panic c.env.epoch_height number c.env.last_hash w h, λ q. ground arith)
    go false = (hash_if_last-panic c.env.number number c.env.last_hash w h, λ q. ground arith)
