-- ===== src/Evm/Retry/Errors.antt =====
-- Where the errors of `retry` come from.
use nexus_node.Common.{
  ℕ, zero, suc, ◌≡◌, refl, some, Option, Result, err, Option-cases, inl, inr, arith,
}
use nexus_node.Common.Text.{Bytes}
use mathlib.Core.Path.{subst}
use nexus_node.Evm.Retry.{GoContext, Attempt, again, done, failed, retry, proceed, retry_delay}

module _ {World E C : Type 0} (ctx : GoContext World) (expired : Bytes → E)
    (attempt : C → World → Attempt E × C × World) (P : E → Type 0)
    (over : (m : Bytes) → P (expired m))
    (fails : (c : C) (w : World) (e : E) → (attempt c w).0 ≡ failed e → P e) where
  proceed-err :
      (rest : C → World → Option (Result E C × World))
      → ((c : C) (w : World) (e : E) (v : World) → rest c w ≡ some (err e, v) → P e)
      → (c : C) (w : World) (t : Attempt E × C × World) (e : E) (v : World) → attempt c w ≡ t
      → proceed ctx expired rest t ≡ some (err e, v)
      → P e
  unfolding proceed
  proceed-err rest ih c w (failed e', c', w') e v at h = fails c w e (ground (arith, at, h))
  proceed-err rest ih c w (done, c', w') e v at h = absurd (cc)
  proceed-err rest ih c w (again, c', w') e v at h = elim (Option-cases (ctx.cause w')) [
    | inl live ↦ ih c' (ctx.sleep retry_delay w') e v (ground arith)
    | inr (m, x) ↦ let q : expired m ≡ e = ground arith in subst P q (over m)
  ]

  -- A property of the expiry error and of every error of an attempt holds of the error of `retry`.
  pub retry-err :
      (fuel : ℕ) (c : C) (w : World) (e : E) (v : World)
      → retry ctx expired attempt fuel c w ≡ some (err e, v)
      → P e
  unfolding retry
  retry-err zero c w e v h = absurd (cc)
  retry-err (suc fuel) c w e v h =
      proceed-err (retry ctx expired attempt fuel) (retry-err fuel) c w (attempt c w) e v refl h
