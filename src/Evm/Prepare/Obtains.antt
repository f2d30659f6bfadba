-- ===== src/Evm/Prepare/Obtains.antt =====
-- The calls of the engine that the two loops of PrepareProposal make: an answer is taken, and after an
-- error the call is made again.
use nexus_node.Common.{ℕ, ◌≡◌, refl, sym, ◌∙◌, Option, none, some, [], Result, ok, err, arith}
use mathlib.Core.Path.{subst}
use nexus_node.Common.Text.{Bytes}
use nexus_node.ChainSpec.{get_payload_engine_rpc_version}
use nexus_node.Engine.{ForkChoiceResponse, ExecutableData, EngineClient, valid}
use nexus_node.Evm.State.{BlockState, expired}
use nexus_node.Evm.Retry.{GoContext, again, done}
use nexus_node.Evm.Retry.Runs.{Runs, finishes, fails, expires, repeats}
use nexus_node.Evm.Keeper.{Keeper, SdkContext, Libraries}
use nexus_node.Evm.Timestamp.{calculate_timestamp}
use nexus_node.Evm.Prepare.{
  judge_build, judge_poll, build_attempt, build_execution_payload, poll_attempt, get_payload,
}
use nexus_node.Evm.Prepare.Routing.{get_payload_of}

module _ {World A : Type 0} (ctx : GoContext World) (call : World → Result Bytes A × World) where
  -- From a world, the call is answered with `a` in the world `v`: at once, or after errors, each
  -- followed by 10 ms of sleep in a context that is not over.
  pub data Obtains (a : A) (v : World) : World → Type 0 where
    answers : {w : World} → call w ≡ (ok a, v) → Obtains a v w
    repeats_call :
        {w : World} (m : Bytes) (w' : World)
        → call w ≡ (err m, w')
        → ctx.cause w' ≡ none
        → Obtains a v (ctx.sleep 10 w')
        → Obtains a v w

  -- What the call and the sleep keep holds in the world in which the call is answered.
  pub Obtains-keeps :
      (P : World → Type 0)
      → ((w : World) → P w → P (call w).1)
      → ((w : World) → P w → P (ctx.sleep 10 w))
      → {a : A} {v w : World} → Obtains a v w
      → P w
      → (u : World) × P u × (call u ≡ (ok a, v))
  Obtains-keeps P called slept (answers {w = w} e) h = (w, h, e)
  Obtains-keeps P called slept (repeats_call {w = w} m w' e live more) h =
      Obtains-keeps P called slept more (slept w' (subst_world e (called w h)))
    where
      subst_world : call w ≡ (err m, w') → P (call w).1 → P w'
      subst_world e h = subst (λ q. P q.1) e h

judge_build-done :
    (r : Result Bytes ForkChoiceResponse) (i id : ℕ)
    → judge_build r i ≡ (done, id)
    → (a : ForkChoiceResponse) × (r ≡ ok a) × (a.payload_status ≡ valid) × (a.payload_id ≡ some id)
unfolding judge_build
judge_build-done (err m) i id h = absurd (cc)
judge_build-done (ok a) i id h = (a, refl, ground arith, ground arith)

judge_build-again :
    (r : Result Bytes ForkChoiceResponse) (i id : ℕ)
    → judge_build r i ≡ (again, id)
    → (m : Bytes) × (r ≡ err m)
unfolding judge_build
judge_build-again (err m) i id h = (m, refl)
judge_build-again (ok a) i id h = absurd (ground arith)

judge_poll-done :
    (x : Libraries) (r : Result Bytes ExecutableData) (unknown captured : ℕ)
    (o : Option ExecutableData)
    → judge_poll x r unknown ≡ (done, (captured, o))
    → (p : ExecutableData) × (r ≡ ok p) × (o ≡ some p)
unfolding judge_poll
judge_poll-done x (ok p) unknown captured o h = (p, refl, ground arith)
judge_poll-done x (err m) unknown captured o h = absurd (ground arith)

judge_poll-again :
    (x : Libraries) (r : Result Bytes ExecutableData) (unknown : ℕ) (c : ℕ × Option ExecutableData)
    → judge_poll x r unknown ≡ (again, c)
    → (m : Bytes) × (r ≡ err m)
unfolding judge_poll
judge_poll-again x (ok p) unknown c h = absurd (cc)
judge_poll-again x (err m) unknown c h = (m, refl)

module _ {World : Type 0} (k : Keeper) (client : EngineClient World) (c : SdkContext) where
  -- The call that asks the engine to build on the committed head, spelt out.
  abbrev pub build_call : BlockState → ℕ → World → Result Bytes ForkChoiceResponse × World
  build_call state height =
      client.forkchoice_updated_v3
        (record {
          head_block_hash = state.hash;
          safe_block_hash = state.hash;
          finalized_block_hash = state.hash;
        })
        (some (record {
          timestamp = calculate_timestamp k.clock c.block_unix height state.timestamp;
          random = state.hash;
          suggested_fee_recipient = k.suggested_fee_recipient;
          withdrawals = [];
          beacon_root = c.app_hash;
        }))

  -- The call that asks for the payload of an id, in the version for its time.
  abbrev pub poll_call : ℕ → ℕ → World → Result Bytes ExecutableData × World
  poll_call timestamp id =
      get_payload_of client (get_payload_engine_rpc_version k.chain_spec timestamp) id

module _ {World : Type 0} (k : Keeper) (x : Libraries) (client : EngineClient World)
    (c : SdkContext) (ctx : GoContext World) where
  build_attempt_lem :
      (state : BlockState) (height i : ℕ) (w : World)
      → build_attempt k x client c (some state) height i w ≡ (
        (judge_build (build_call k client c state height w).0 i).0,
        (judge_build (build_call k client c state height w).0 i).1,
        (build_call k client c state height w).1,
      )
  unfolding build_attempt build_execution_payload
  build_attempt_lem state height i w = refl

  poll_attempt_lem :
      (timestamp id : ℕ) (captured : ℕ × Option ExecutableData) (w : World)
      → poll_attempt k x client c timestamp id captured w ≡ (
        (judge_poll x (poll_call k client c timestamp id w).0 captured.0).0,
        (judge_poll x (poll_call k client c timestamp id w).0 captured.0).1,
        (poll_call k client c timestamp id w).1,
      )
  unfolding poll_attempt get_payload get_payload_engine_rpc_version
  poll_attempt_lem timestamp id captured w = ground arith

  -- A forkchoice loop that ends with an id has an answer with the status VALID and this id.
  pub build-Obtains :
      (state : BlockState) (height : ℕ) (id : ℕ) {v : World} {i : ℕ} {w : World}
      → Runs ctx expired (build_attempt k x client c (some state) height) (ok id) v i w
      → (a : ForkChoiceResponse) × Obtains ctx (build_call k client c state height) a v w
        × (a.payload_status ≡ valid)
        × (a.payload_id ≡ some id)
  build-Obtains state height id {v = v} {i = i} {w = w} (finishes new e same) =
      let d = sym (build_attempt_lem state height i w) ∙ e in
      let (a, r, good, got) =
        judge_build-done (build_call k client c state height w).0 i new (ground (arith, d)) in
      (a, answers (ground (arith, d, r)), good, ground (arith, same, got))
  build-Obtains state height id (fails e new h same) = absurd (ground (arith, same))
  build-Obtains state height id (expires m new h over same) = absurd (ground (arith, same))
  build-Obtains state height id {i = i} {w = w} (repeats new w' e live more) =
      let d = sym (build_attempt_lem state height i w) ∙ e in
      let (m, r) =
        judge_build-again (build_call k client c state height w).0 i new (ground (arith, d)) in
      let (a, got, good, given) = build-Obtains state height id more in
      (a, repeats_call m w' (ground (arith, d, r)) live got, good, given)

  -- A polling loop that ends with a payload has it from the engine.
  pub poll-Obtains :
      (timestamp id : ℕ) (p : ExecutableData) (n : ℕ) {v : World}
      {captured : ℕ × Option ExecutableData} {w : World}
      → Runs ctx expired (poll_attempt k x client c timestamp id) (ok (n, some p)) v captured w
      → Obtains ctx (poll_call k client c timestamp id) p v w
  poll-Obtains timestamp id p n {captured = captured} {w = w} (finishes (n', o) e same) =
      let d = sym (poll_attempt_lem timestamp id captured w) ∙ e in
      let (a, r, good) =
        judge_poll-done x (poll_call k client c timestamp id w).0 captured.0 n' o
          (ground (arith, d)) in
      answers (ground (arith, d, r, good, same))
  poll-Obtains timestamp id p n (fails e new h same) = absurd (ground (arith, same))
  poll-Obtains timestamp id p n (expires m new h over same) = absurd (ground (arith, same))
  poll-Obtains timestamp id p n {captured = captured} {w = w} (repeats new w' e live more) =
      let d = sym (poll_attempt_lem timestamp id captured w) ∙ e in
      let (m, r) =
        judge_poll-again x (poll_call k client c timestamp id w).0 captured.0 new
          (ground (arith, d)) in
      repeats_call m w' (ground (arith, d, r)) live (poll-Obtains timestamp id p n more)
