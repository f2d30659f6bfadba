-- ===== src/Evm/Retry/Fuel.antt =====
-- `retry` and its fuel.
use nexus_node.Common.{ℕ, zero, suc, ◌+◌, ◌≡◌, refl, Option, none, some, Result, arith}
use nexus_node.Common.Text.{Bytes}
use nexus_node.Evm.Retry.{GoContext, Attempt, again, done, failed, retry, proceed, retry_delay}

module _ {World E C : Type 0} (ctx : GoContext World) (expired : Bytes → E)
    (attempt : C → World → Attempt E × C × World) where
  proceed_mono :
      (rest rest' : C → World → Option (Result E C × World)) {r : Result E C × World}
      → ((c : C) (w : World) → rest c w ≡ some r → rest' c w ≡ some r)
      → (t : Attempt E × C × World) → proceed ctx expired rest t ≡ some r
      → proceed ctx expired rest' t ≡ some r
  unfolding proceed
  proceed_mono rest rest' m (failed e, c, w) h = h
  proceed_mono rest rest' m (done, c, w) h = h
  proceed_mono rest rest' m (again, c, w) h = ground (arith, m c (ctx.sleep retry_delay w))

  -- A result that `retry` returns with some fuel it also returns with more.
  pub retry-add_fuel :
      (f g : ℕ) {r : Result E C × World} (c : C) (w : World)
      → retry ctx expired attempt f c w ≡ some r
      → retry ctx expired attempt (f + g) c w ≡ some r
  unfolding retry
  retry-add_fuel zero g c w h = cc
  retry-add_fuel (suc f) g c w h =
      let e : suc f + g ≡ suc (f + g) = omega arith in
      rw e (
        proceed_mono (retry ctx expired attempt f) (retry ctx expired attempt (f + g))
          (λ c' w'. retry-add_fuel f g c' w') (attempt c w) h)

  -- In a context that never ends, a state of the loop from which every attempt asks for another
  -- keeps it running whatever the fuel.
  pub retry-endless :
      (P : C → World → Type 0)
      → ((w : World) → ctx.cause w ≡ none)
      → ((c : C) (w : World)
          → P c w
          → ((attempt c w).0 ≡ again) × P (attempt c w).1 (ctx.sleep retry_delay (attempt c w).2))
      → (fuel : ℕ) (c : C) (w : World) → P c w
      → retry ctx expired attempt fuel c w ≡ none
  unfolding retry proceed
  retry-endless P live step zero c w p = refl
  retry-endless P live step (suc fuel) c w p =
      let (a, q) = step c w p in
      ground (
        arith,
        a,
        live (attempt c w).2,
        retry-endless P live step fuel (attempt c w).1 (ctx.sleep retry_delay (attempt c w).2) q,
      )
