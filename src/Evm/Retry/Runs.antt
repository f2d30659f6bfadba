-- ===== src/Evm/Retry/Runs.antt =====
-- What a run of `retry` is, as a relation without fuel.
use nexus_node.Common.{
  ℕ, zero, suc, ◌≡◌, refl, inl, inr, Option, none, some, Result, ok, err, arith, Option-cases,
}
use nexus_node.Common.Text.{Bytes}
use nexus_node.Evm.Retry.{GoContext, Attempt, again, done, failed, retry, proceed, retry_delay}

module _ {World E C : Type 0} (ctx : GoContext World) (expired : Bytes → E)
    (attempt : C → World → Attempt E × C × World) where
  -- From captured values and a world, the loop ends with a result in a world.
  pub data Runs (r : Result E C) (v : World) : C → World → Type 0 where
    finishes : {c : C} {w : World} (c' : C) → attempt c w ≡ (done, c', v) → r ≡ ok c' → Runs r v c w
    fails :
        {c : C} {w : World} (e : E) (c' : C)
        → attempt c w ≡ (failed e, c', v)
        → r ≡ err e
        → Runs r v c w
    expires :
        {c : C} {w : World} (m : Bytes) (c' : C)
        → attempt c w ≡ (again, c', v)
        → ctx.cause v ≡ some m
        → r ≡ err (expired m)
        → Runs r v c w
    repeats :
        {c : C} {w : World} (c' : C) (w' : World)
        → attempt c w ≡ (again, c', w')
        → ctx.cause w' ≡ none
        → Runs r v c' (ctx.sleep retry_delay w')
        → Runs r v c w

  proceed-Runs :
      (rest : C → World → Option (Result E C × World))
      → ((c : C) (w : World) (r : Result E C) (v : World) → rest c w ≡ some (r, v) → Runs r v c w)
      → (c : C) (w : World) (r : Result E C) (v : World) (t : Attempt E × C × World)
      → attempt c w ≡ t
      → proceed ctx expired rest t ≡ some (r, v)
      → Runs r v c w
  unfolding proceed
  proceed-Runs rest ih c w r v (failed e, c', w') a h =
      Runs.fails e c' (ground (arith, a, h)) (ground arith)
  proceed-Runs rest ih c w r v (done, c', w') a h = Runs.finishes c' (ground arith) (ground arith)
  proceed-Runs rest ih c w r v (again, c', w') a h = elim (Option-cases (ctx.cause w')) [
    | inl live ↦ Runs.repeats c' w' a live (ih c' (ctx.sleep retry_delay w') r v (ground arith))
    | inr (m, x) ↦ Runs.expires m c' (ground arith) (ground arith) (ground arith)
  ]

  retry-Runs_at :
      (fuel : ℕ) (c : C) (w : World) (r : Result E C) (v : World)
      → retry ctx expired attempt fuel c w ≡ some (r, v)
      → Runs r v c w
  unfolding retry
  retry-Runs_at zero c w r v h = cc
  retry-Runs_at (suc fuel) c w r v h =
      proceed-Runs (retry ctx expired attempt fuel) (retry-Runs_at fuel) c w r v (attempt c w) refl
        h

  -- Every run that ends is what `retry` returns with enough fuel.
  pub Runs-retry :
      {r : Result E C} {v : World} {c : C} {w : World}
      → Runs r v c w
      → (fuel : ℕ) × (retry ctx expired attempt fuel c w ≡ some (r, v))
  unfolding retry
  Runs-retry (finishes c' a e) = (1, ground arith)
  Runs-retry (fails x c' a e) = (1, ground arith)
  Runs-retry (expires m c' a x e) = (1, ground arith)
  Runs-retry (repeats c' w' a x run) = let (n, h) = Runs-retry run in (suc n, ground arith)

  -- `retry` returns a result within some fuel exactly when a run ends with that result: it ends at
  -- the first attempt that succeeds or fails, or after which the context is over, and every attempt
  -- before that one is followed by the sleep.
  pub retry-iff-Runs :
      (c : C) (w : World) (r : Result E C) (v : World)
      → (((fuel : ℕ) × (retry ctx expired attempt fuel c w ≡ some (r, v))) → Runs r v c w)
        × (Runs r v c w → (fuel : ℕ) × (retry ctx expired attempt fuel c w ≡ some (r, v)))
  retry-iff-Runs c w r v = (λ (n, h). retry-Runs_at n c w r v h, λ run. Runs-retry run)
