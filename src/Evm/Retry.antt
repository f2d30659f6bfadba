-- ===== src/Evm/Retry.antt =====
-- `retry` of cosmos/x/evm/keeper/async.go. What a closure captures is threaded through the attempts,
-- and so is the world: the engine, the clock and the context. A loop that has not ended within the
-- fuel is `none`.
pub mod Runs
pub mod Budget
pub mod Fuel
pub mod Errors
pub mod Steps
use nexus_node.Common.{ℕ, zero, suc, Option, none, some, Result, ok, err}
use nexus_node.Common.Text.{Bytes}

-- A Go context: `err` is `ctx.Err()`, `sleep` is `time.Sleep` of milliseconds, and `wait` is a
-- `select` between a timer and `ctx.Done()`: `none` when the timer fires.
pub record GoContext (World : Type 0) : Type 0 where
  pub cause : World → Option Bytes
  pub sleep : ℕ → World → World
  pub wait : ℕ → World → Option Bytes × World

-- What one call of the closure returns: `false, nil`, `true, nil`, or an error.
pub data Attempt (E : Type 0) : Type 0 where
  again done : Attempt E
  failed : E → Attempt E

-- milliseconds
abbrev pub retry_delay : ℕ
retry_delay = 10

module _ {World E C : Type 0} (ctx : GoContext World) (expired : Bytes → E) where
  -- What follows an attempt: the loop ends, or it sleeps and goes on with `rest`.
  proceed :
      (C → World → Option (Result E C × World))
      → Attempt E × C × World
      → Option (Result E C × World)
  proceed rest (failed e, c, w) = some (err e, w)
  proceed rest (done, c, w) = some (ok c, w)
  proceed rest (again, c, w) = elim (ctx.cause w) [
    | some m ↦ some (err (expired m), w)
    | none ↦ rest c (ctx.sleep retry_delay w)
  ]

  unfoldable pub retry :
      (C → World → Attempt E × C × World) → ℕ → C → World → Option (Result E C × World)
  unfolding proceed
  retry attempt zero c w = none
  retry attempt (suc fuel) c w = proceed (retry attempt fuel) (attempt c w)
