-- ===== src/Evm/MsgServer/Blobs.antt =====
-- Payloads that `sendPayload` refuses by itself, before the engine sees them.
use nexus_node.Common.{ℕ, ◌<◌, ◌≡◌, none, some, List, length, ok, ap, is_empty, false, arith}
use nexus_node.Engine.{Hash, ExecutableData, EngineClient}
use nexus_node.Evm.State.{BlockState, Node, expired}
use nexus_node.Evm.Retry.{GoContext, again, retry}
use nexus_node.Evm.Retry.Fuel.{retry-endless}
use nexus_node.Evm.Keeper.{Keeper, finalize, SdkContext, MsgExecutionPayload, Libraries}
use nexus_node.Evm.Payload.{validate_payload}
use nexus_node.Evm.MsgServer.{
  submit_payload, execution_payload, proposal_payload, send_attempt, send_payload, versioned_hashes,
  max_blobs_per_block,
}

-- The app hash is empty, or a transaction of the payload does not decode, or the transactions carry
-- more blobs than `MaxBlobsPerBlock`.
pub data Unsendable (x : Libraries) (c : SdkContext) (p : ExecutableData) : Type 0 where
  no_app_hash : c.app_hash ≡ 0 → Unsendable x c p
  undecodable : versioned_hashes x.blob_hashes p.transactions ≡ none → Unsendable x c p
  crowded :
      (hashes : List Hash)
      → versioned_hashes x.blob_hashes p.transactions ≡ some hashes
      → max_blobs_per_block < length hashes
      → Unsendable x c p

module _ {World : Type 0} (k : Keeper) (x : Libraries) (client : EngineClient World)
    (c : SdkContext) (ctx : GoContext World) where
  send_attempt-again :
      (p : ExecutableData) (w : World)
      → Unsendable x c p
      → send_attempt k x client c p tt w ≡ (again, tt, w)
  unfolding send_attempt send_payload
  send_attempt-again p w (no_app_hash h) = ground arith
  send_attempt-again p w (undecodable h) = ground arith
  send_attempt-again p w (crowded hashes h m) = ground arith

  sending-endless :
      (p : ExecutableData)
      → Unsendable x c p
      → ((w : World) → ctx.cause w ≡ none)
      → (fuel : ℕ) (w : World) → retry ctx expired (send_attempt k x client c p) fuel tt w ≡ none
  sending-endless p bad live fuel w =
      retry-endless ctx expired (send_attempt k x client c p) (λ u v. Unit) live
        (λ u v q. (ap (λ t. t.0) (send_attempt-again p v bad), tt)) fuel tt w tt

  -- A payload that `validatePayload` accepts and ProcessProposal therefore lets through, but whose
  -- app hash is empty, or with a transaction that does not decode, or with more than six blobs,
  -- makes `ExecutionPayload` run without end in a context that is never over: with no amount of
  -- fuel does it return.
  pub Unsendable-hangs :
      (msg : MsgExecutionPayload) (n : Node World) (state : BlockState) (p : ExecutableData)
      → c.exec_mode ≡ finalize
      → is_empty msg.execution_payload ≡ false
      → n.block_state ≡ some state
      → validate_payload k x c msg state ≡ ok p
      → Unsendable x c p
      → ((w : World) → ctx.cause w ≡ none)
      → (proposal_payload {World = World} k x c msg n ≡ some (ok tt, n))
        × ((fuel : ℕ) → execution_payload k x client c ctx fuel msg n ≡ none)
  unfolding execution_payload proposal_payload submit_payload
  Unsendable-hangs msg n state p mode nonempty before valid bad live = (
    ground (arith, before, valid),
    λ fuel. ground (arith, mode, nonempty, before, valid, sending-endless p bad live fuel n.world),
  )
