-- ===== src/Evm/MsgServer/Live.antt =====
-- When a block is committed: the engine's answers as runs of the two retry loops.
use nexus_node.Common.{ℕ, ◌+◌, ◌≡◌, some, ok, is_empty, false, arith}
use nexus_node.Engine.{ExecutableData, EngineClient}
use nexus_node.Evm.State.{BlockState, Node, expired}
use nexus_node.Evm.Retry.{GoContext, retry}
use nexus_node.Evm.Retry.Runs.{Runs, retry-iff-Runs}
use nexus_node.Evm.Retry.Fuel.{retry-add_fuel}
use nexus_node.Evm.Keeper.{Keeper, finalize, SdkContext, MsgExecutionPayload, Libraries}
use nexus_node.Evm.Payload.{validate_payload}
use nexus_node.Evm.MsgServer.{
  submit_payload, finalize_payload, execution_payload, send_attempt, forkchoice_attempt,
}
use nexus_node.Evm.MsgServer.Commit.{head_of}

module _ {World : Type 0} (k : Keeper) (x : Libraries) (client : EngineClient World)
    (c : SdkContext) (ctx : GoContext World) where
  submit_payload-live :
      (fuel : ℕ) (p : ExecutableData) (n : Node World) (w w' : World)
      → retry ctx expired (send_attempt k x client c p) fuel tt n.world ≡ some (ok tt, w)
      → retry ctx expired (forkchoice_attempt k x client c p.block_hash) fuel tt w
        ≡ some (ok tt, w')
      → submit_payload k x client c ctx fuel p n
        ≡ some (ok tt, record n { block_state = some (head_of p); world = w' })
  unfolding submit_payload finalize_payload
  submit_payload-live fuel p n w w' sent chosen = ground arith

  -- In finalize mode, with a committed block state, a message that is not empty and validates to a
  -- payload, and an engine whose answers let both retry loops end well, `ExecutionPayload` succeeds
  -- with enough fuel, commits the payload's block, and leaves the engine where the loops did.
  pub execution_payload-commits :
      (msg : MsgExecutionPayload) (n : Node World) (state : BlockState) (p : ExecutableData)
      (w w' : World)
      → c.exec_mode ≡ finalize
      → is_empty msg.execution_payload ≡ false
      → n.block_state ≡ some state
      → validate_payload k x c msg state ≡ ok p
      → Runs ctx expired (send_attempt k x client c p) (ok tt) w tt n.world
      → Runs ctx expired (forkchoice_attempt k x client c p.block_hash) (ok tt) w' tt w
      → (fuel : ℕ) × (execution_payload k x client c ctx fuel msg n
          ≡ some (ok tt, record n { block_state = some (head_of p); world = w' }))
  unfolding execution_payload
  execution_payload-commits msg n state p w w' mode nonempty before valid sending choosing =
      let (f, sent) =
        (retry-iff-Runs ctx expired (send_attempt k x client c p) tt n.world (ok tt) w).1 sending in
      let (g, chosen) =
        (retry-iff-Runs ctx expired (forkchoice_attempt k x client c p.block_hash) tt w (ok tt)
            w').1
          choosing in
      let e : f + g ≡ g + f = omega arith in
      (
        f + g,
        ground (
          arith,
          mode,
          nonempty,
          before,
          valid,
          submit_payload-live (f + g) p n w w'
              (retry-add_fuel ctx expired (send_attempt k x client c p) f g tt n.world sent)
              (rw e (
                retry-add_fuel ctx expired (forkchoice_attempt k x client c p.block_hash) g f tt w
                  chosen)),
        ),
      )
