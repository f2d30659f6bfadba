-- ===== src/Evm/Retry/Budget.antt =====
-- `retry` under a deadline, by the milliseconds that it leaves.
use nexus_node.Common.{ℕ, zero, suc, ◌-◌, ◌*◌, ◌≤◌, ◌<◌, ◌≡◌, ◌≢◌, Option, none, Result, arith}
use nexus_node.Common.Text.{Bytes}
use nexus_node.Evm.Retry.{GoContext, Attempt, again, done, failed, retry, proceed, retry_delay}

-- A context with a deadline: `left` is the time until it. While the context lasts some time is left,
-- a sleep takes its time off, and an attempt adds none.
pub record Deadline {World E C : Type 0} (ctx : GoContext World)
    (attempt : C → World → Attempt E × C × World) : Type 0 where
  pub left : World → ℕ
  pub lasts : (w : World) → ctx.cause w ≡ none → 0 < left w
  pub slept : (n : ℕ) (w : World) → left (ctx.sleep n w) ≤ left w - n
  pub spent : (c : C) (w : World) → left (attempt c w).2 ≤ left w

module _ {World E C : Type 0} (ctx : GoContext World) (expired : Bytes → E)
    (attempt : C → World → Attempt E × C × World) where
  proceed-ne-none :
      (rest : C → World → Option (Result E C × World)) (t : Attempt E × C × World)
      → (ctx.cause t.2 ≡ none → rest t.1 (ctx.sleep retry_delay t.2) ≢ none)
      → proceed ctx expired rest t ≢ none
  unfolding proceed
  proceed-ne-none rest (failed e, c, w) h = λ e. cc
  proceed-ne-none rest (done, c, w) h = λ e. cc
  proceed-ne-none rest (again, c, w) h = ground arith

  -- Under a deadline that leaves at most 10 n milliseconds, `retry` ends within n + 1 attempts.
  pub retry_ends :
      (d : Deadline ctx attempt) (n : ℕ) (c : C) (w : World)
      → d.left w ≤ retry_delay * n
      → retry ctx expired attempt (suc n) c w ≢ none
  unfolding retry
  retry_ends d zero c w h =
      proceed-ne-none (retry ctx expired attempt zero) (attempt c w)
        λ live. absurd (omega (arith, d.spent c w, d.lasts (attempt c w).2 live))
  retry_ends d (suc n) c w h =
      proceed-ne-none (retry ctx expired attempt (suc n)) (attempt c w) λ live.
        retry_ends d n (attempt c w).1 (ctx.sleep retry_delay (attempt c w).2)
          (omega (arith, d.spent c w, d.slept retry_delay (attempt c w).2))
