-- ===== src/Evm/Prepare/Polling.antt =====
-- How long PrepareProposal polls an engine that does not know the payload.
use nexus_node.Common.{ℕ, zero, suc, ◌+◌, ◌<◌, ◌≡◌, ◌∙◌, refl, true, Option, none, some, err, arith}
use nexus_node.Common.Text.{Bytes}
use nexus_node.Engine.{ExecutableData, EngineClient}
use nexus_node.Evm.State.{expired, still_unknown}
use nexus_node.Evm.Retry.{GoContext, again, failed, retry_delay, retry}
use nexus_node.Evm.Retry.Steps.{retry-again, retry-failed}
use nexus_node.Evm.Keeper.{Keeper, SdkContext, Libraries}
use nexus_node.Evm.Prepare.{
  get_payload, is_payload_unknown, poll_attempt, max_consecutive_unknown_payload_attempts,
}

module _ {World : Type 0} (k : Keeper) (x : Libraries) (client : EngineClient World)
    (c : SdkContext) (ctx : GoContext World) (timestamp id : ℕ) where
  -- The engine answers every poll with the unknown payload error.
  abbrev pub NeverKnown : Type 0
  NeverKnown =
      (w : World)
      → (m : Bytes) × (v : World) × (get_payload k x client c timestamp id w ≡ (err m, v))
        × (is_payload_unknown x m ≡ true)

  poll_attempt-unknown :
      (u : ℕ) (r : Option ExecutableData) (w : World)
      → NeverKnown
      → (v : World) × (u + 1 < max_consecutive_unknown_payload_attempts
          → poll_attempt k x client c timestamp id (u, r) w ≡ (again, (u + 1, none), v))
        × (u + 1 ≡ max_consecutive_unknown_payload_attempts
            → poll_attempt k x client c timestamp id (u, r) w
              ≡ (failed still_unknown, (u + 1, none), v))
  unfolding poll_attempt
  poll_attempt-unknown u r w never =
      let (m, v, answer, unknown) = never w in (v, (λ h. ground arith), (λ h. ground arith))

  poll_at :
      (d u : ℕ) (r : Option ExecutableData) (w : World)
      → NeverKnown
      → ((w : World) → ctx.cause w ≡ none)
      → u + suc d ≡ max_consecutive_unknown_payload_attempts
      → (v : World) × (retry ctx expired (poll_attempt k x client c timestamp id) (suc d) (u, r) w
          ≡ some (err still_unknown, v))
        × (retry ctx expired (poll_attempt k x client c timestamp id) d (u, r) w ≡ none)
  unfolding retry
  poll_at zero u r w never live e =
      let (v, more, last) = poll_attempt-unknown u r w never in
      (
        v,
        retry-failed ctx expired (poll_attempt k x client c timestamp id) 0 (u, r) (u + 1, none) w v
            still_unknown (last (omega (arith, e))),
        refl,
      )
  poll_at (suc d) u r w never live e =
      let (v, more, last) = poll_attempt-unknown u r w never in
      let (v', ends, runs) =
        poll_at d (u + 1) none (ctx.sleep retry_delay v) never live (omega (arith, e)) in
      let step = λ (f : ℕ).
        retry-again ctx expired (poll_attempt k x client c timestamp id) f (u, r) (u + 1, none) w v
          (more (omega (arith, e))) (live v) in
      (v', step (suc d) ∙ ends, step d ∙ runs)

  -- While the context lasts, an engine that never knows the payload is polled exactly 500 times:
  -- with 499 attempts the loop is still running, and the 500th ends it with the error.
  pub polling-gives_up :
      (w : World)
      → NeverKnown
      → ((w : World) → ctx.cause w ≡ none)
      → (v : World) × (retry ctx expired (poll_attempt k x client c timestamp id) 500 (0, none) w
          ≡ some (err still_unknown, v))
        × (retry ctx expired (poll_attempt k x client c timestamp id) 499 (0, none) w ≡ none)
  polling-gives_up w never live = poll_at 499 0 none w never live refl
