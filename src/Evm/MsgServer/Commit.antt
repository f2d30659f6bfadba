-- ===== src/Evm/MsgServer/Commit.antt =====
-- What a run of `ExecutionPayload` does to the committed block state.
use nexus_node.Common.{not, is_empty, ℕ, suc, ◌+◌, ◌<◌, ◌≤◌, ◌≡◌, some, ok, err, arith}
use nexus_node.Common.Words.{u64_mod}
use nexus_node.Engine.{ExecutableData, EngineClient}
use nexus_node.Evm.State.{
  BlockState, KeeperError, Node, expired, not_finalizing, empty_payload, fail_if, ◌>>=◌, ◌>>◌,
  get_block_state, set_block_state,
}
use nexus_node.Evm.Retry.{GoContext, retry}
use nexus_node.Evm.Keeper.{Keeper, SdkContext, MsgExecutionPayload, Libraries}
use nexus_node.Evm.Payload.{validate_payload}
use nexus_node.Evm.Payload.Laws.{Extends, validate_payload_iff}
use nexus_node.Evm.Inversion.{fail_if-ok, get_block_state-ok, lift-ok, on_world-ok}
use nexus_node.Evm.MsgServer.{
  is_finalize, execute, submit_payload, finalize_payload, execution_payload, send_attempt,
  forkchoice_attempt,
}

-- The block state that a payload leaves.
abbrev pub head_of : ExecutableData → BlockState
head_of p = record { hash = p.block_hash; height = p.number; timestamp = p.timestamp }

module _ {World : Type 0} (k : Keeper) (x : Libraries) (client : EngineClient World)
    (c : SdkContext) (ctx : GoContext World) where
  -- A run of `ExecutionPayload` that ends in an error leaves the committed block state as it was,
  -- whichever step failed.
  pub execution_payload-err :
      (fuel : ℕ) (msg : MsgExecutionPayload) (n n' : Node World) {e : KeeperError}
      → execution_payload k x client c ctx fuel msg n ≡ some (err e, n')
      → n'.block_state ≡ n.block_state
  unfolding execution_payload submit_payload finalize_payload
  execution_payload-err fuel msg n n' h = ground arith

  finalize_payload-ok :
      (fuel : ℕ) (p : ExecutableData) (n n' : Node World)
      → finalize_payload k x client c ctx fuel p n ≡ some (ok tt, n')
      → (retry ctx expired (forkchoice_attempt k x client c p.block_hash) fuel tt n.world
          ≡ some (ok tt, n'.world))
        × (n'.block_state ≡ some (head_of p))
  unfolding finalize_payload
  finalize_payload-ok fuel p n n' h =
      let (u, w, chosen, rest) =
        on_world-ok (retry ctx expired (forkchoice_attempt k x client c p.block_hash) fuel tt)
          (λ u. set_block_state (head_of p)) n n' tt h in
      (ground (arith, chosen, rest), ground (arith, rest))

  submit_payload-ok :
      (fuel : ℕ) (p : ExecutableData) (n n' : Node World)
      → submit_payload k x client c ctx fuel p n ≡ some (ok tt, n')
      → (w : World) × (retry ctx expired (send_attempt k x client c p) fuel tt n.world
          ≡ some (ok tt, w))
        × (retry ctx expired (forkchoice_attempt k x client c p.block_hash) fuel tt w
            ≡ some (ok tt, n'.world))
        × (n'.block_state ≡ some (head_of p))
  unfolding submit_payload
  submit_payload-ok fuel p n n' h =
      let (u, w, sent, rest) =
        on_world-ok (retry ctx expired (send_attempt k x client c p) fuel tt)
          (λ u. finalize_payload k x client c ctx fuel p) n n' tt h in
      let (chosen, after) = finalize_payload-ok fuel p (record n { world = w }) n' rest in
      (w, sent, chosen, after)

  -- A run that succeeds started from a committed block state, validated a payload against it, had
  -- the engine take the payload and then the forkchoice, and committed the payload's block.
  pub execution_payload-ok :
      (fuel : ℕ) (msg : MsgExecutionPayload) (n n' : Node World)
      → execution_payload k x client c ctx fuel msg n ≡ some (ok tt, n')
      → (state : BlockState) × (p : ExecutableData) × (w : World) × (n.block_state ≡ some state)
        × (validate_payload k x c msg state ≡ ok p)
        × (retry ctx expired (send_attempt k x client c p) fuel tt n.world ≡ some (ok tt, w))
        × (retry ctx expired (forkchoice_attempt k x client c p.block_hash) fuel tt w
            ≡ some (ok tt, n'.world))
        × (n'.block_state ≡ some (head_of p))
  unfolding execution_payload
  execution_payload-ok fuel msg n n' h =
      let (finalizing, h1) =
        fail_if-ok (not (is_finalize c.exec_mode)) not_finalizing
          (λ u.
            fail_if (is_empty msg.execution_payload) empty_payload
            >> (get_block_state >>= execute k x client c ctx fuel msg))
          n n' tt h in
      let (nonempty, h2) =
        fail_if-ok (is_empty msg.execution_payload) empty_payload
          (λ u. get_block_state >>= execute k x client c ctx fuel msg) n n' tt h1 in
      let (state, before, h3) = get_block_state-ok (execute k x client c ctx fuel msg) n n' tt h2 in
      let (p, accepted, h4) =
        lift-ok (validate_payload k x c msg state) (submit_payload k x client c ctx fuel) n n' tt
          h3 in
      let (w, sent, chosen, after) = submit_payload-ok fuel p n n' h4 in
      (state, p, w, before, accepted, sent, chosen, after)

  execution_payload-Extends :
      (fuel : ℕ) (msg : MsgExecutionPayload) (n n' : Node World)
      → execution_payload k x client c ctx fuel msg n ≡ some (ok tt, n')
      → (state : BlockState) × (p : ExecutableData) × (n.block_state ≡ some state)
        × Extends k c state p
        × (n'.block_state ≡ some (head_of p))
  execution_payload-Extends fuel msg n n' h =
      let (state, p, w, before, valid, sent, chosen, after) =
        execution_payload-ok fuel msg n n' h in
      (state, p, before, ((validate_payload_iff k x c msg state p).0 valid).3, after)

-- Any number of deliveries, of which `m` commit a block: each has its message, block context, Go
-- context, keeper and fuel.
pub data Delivers {World : Type 0} (x : Libraries) (client : EngineClient World) (n : Node World)
    : ℕ → Node World → Type 0 where
  start : {m : ℕ} → m ≡ 0 → Delivers x client n m n
  commit :
      {m l : ℕ} {n1 n2 : Node World} (k : Keeper) (c : SdkContext) (ctx : GoContext World)
      (fuel : ℕ) (msg : MsgExecutionPayload)
      → Delivers x client n l n1
      → execution_payload k x client c ctx fuel msg n1 ≡ some (ok tt, n2)
      → m ≡ suc l
      → Delivers x client n m n2
  refuse :
      {m : ℕ} {n1 n2 : Node World} {e : KeeperError} (k : Keeper) (c : SdkContext)
      (ctx : GoContext World) (fuel : ℕ) (msg : MsgExecutionPayload)
      → Delivers x client n m n1
      → execution_payload k x client c ctx fuel msg n1 ≡ some (err e, n2)
      → Delivers x client n m n2

-- However deliveries follow one another, after `m` commits from a committed block state the height
-- has grown by `m` exactly and the timestamp by at least `m`, as long as heights stay below 2 ^ 64.
pub Delivers-grows :
    {World : Type 0} (x : Libraries) (client : EngineClient World) (n : Node World)
    (first : BlockState) {m : ℕ} {n' : Node World}
    → n.block_state ≡ some first
    → first.height + m < u64_mod
    → Delivers x client n m n'
    → (last : BlockState) × (n'.block_state ≡ some last)
      × (last.height ≡ first.height + m)
      × (first.timestamp + m ≤ last.timestamp)
Delivers-grows x client n first s fits (start e) = (first, s, omega (arith, e), omega (arith, e))
Delivers-grows x client n first s fits (refuse {n1 = n1} {n2 = n2} k c ctx fuel msg before run) =
    let (last, at, height, time) = Delivers-grows x client n first s fits before in
    (
      last,
      ground (arith, at, execution_payload-err k x client c ctx fuel msg n1 n2 run),
      height,
      time,
    )
Delivers-grows x client n first s fits (commit {n1 = n1} {n2 = n2} k c ctx fuel msg before run e) =
    let (last, at, height, time) = Delivers-grows x client n first s (omega (arith, e)) before in
    let (state, p, here, next, after) =
      execution_payload-Extends k x client c ctx fuel msg n1 n2 run in
    (
      head_of p,
      after,
      ground (arith, next.next, at, here, height),
      ground (arith, next.later, at, here, time),
    )
