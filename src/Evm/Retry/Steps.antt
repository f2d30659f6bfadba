-- ===== src/Evm/Retry/Steps.antt =====
-- One round of `retry`, for each way an attempt goes.
use nexus_node.Common.{ℕ, suc, ◌≡◌, none, some, ok, err, arith}
use nexus_node.Common.Text.{Bytes}
use nexus_node.Evm.Retry.{GoContext, Attempt, again, done, failed, retry, proceed, retry_delay}

module _ {World E C : Type 0} (ctx : GoContext World) (expired : Bytes → E)
    (attempt : C → World → Attempt E × C × World) (fuel : ℕ) (c c' : C) (w w' : World) where
  pub retry-again :
      attempt c w ≡ (again, c', w')
      → ctx.cause w' ≡ none
      → retry ctx expired attempt (suc fuel) c w
        ≡ retry ctx expired attempt fuel c' (ctx.sleep retry_delay w')
  unfolding retry proceed
  retry-again a live = ground arith

  pub retry-failed :
      (e : E)
      → attempt c w ≡ (failed e, c', w')
      → retry ctx expired attempt (suc fuel) c w ≡ some (err e, w')
  unfolding retry proceed
  retry-failed e a = ground arith

  pub retry-done :
      attempt c w ≡ (done, c', w') → retry ctx expired attempt (suc fuel) c w ≡ some (ok c', w')
  unfolding retry proceed
  retry-done a = ground arith
