-- ===== src/Evm/MsgServer.antt =====
-- `ExecutionPayload` of cosmos/x/evm/keeper/msg_server.go, which commits a block, and of
-- proposal_server.go, which only validates one.
pub mod Commit
pub mod Live
pub mod Blobs
pub mod Agreement
pub mod Replicas
mod Tests
use nexus_node.Common.{
  ℕ, Bool, true, false, not, ◌||◌, Option, none, some, List, [], ◌∷◌, ◌++◌, Result, Done, ok, err,
  is_empty, length, ◌==◌, ltb, if◌then◌else◌,
}
use nexus_node.Common.Text.{Bytes}
use nexus_node.ChainSpec.{is_prague_active, is_amsterdam_active}
use nexus_node.Engine.{
  Hash, Status, valid, invalid, syncing, ForkchoiceState, ForkChoiceResponse, ExecutableData,
  EngineClient,
}
use nexus_node.Evm.State.{
  BlockState, KeeperError, not_finalizing, empty_payload, bad_status, expired, Node, Handler, ◌>>=◌,
  ◌>>◌, lift, fail_if, get_block_state, set_block_state, on_world,
}
use nexus_node.Evm.Retry.{GoContext, Attempt, again, done, failed, retry}
use nexus_node.Evm.Keeper.{Keeper, ExecMode, finalize, SdkContext, MsgExecutionPayload, Libraries}
use nexus_node.Evm.Payload.{validate_payload}

-- `MaxBlobsPerBlock`
abbrev pub max_blobs_per_block : ℕ
max_blobs_per_block = 6

is_finalize : ExecMode → Bool
is_finalize finalize = true
is_finalize _ = false

-- Why `sendPayload` fails before or at the engine.
pub data SendError : Type 0 where
  app_hash_empty undecodable_tx too_many_blobs : SendError
  refused : Bytes → SendError

-- The blob hashes of all transactions in order, unless one does not decode.
unfoldable pub versioned_hashes : (Bytes → Option (List Hash)) → List Bytes → Option (List Hash)
versioned_hashes blob_hashes [] = some []
versioned_hashes blob_hashes (tx ∷ txs) = elim (blob_hashes tx) [
  | none ↦ none
  | some hashes ↦ elim (versioned_hashes blob_hashes txs) [
    | none ↦ none
    | some rest ↦ some (hashes ++ rest)
  ]
]

pub sent : {World : Type 0} → Result Bytes Status × World → Result SendError Status × World
sent (ok status, w) = (ok status, w)
sent (err m, w) = (err (refused m), w)

-- The heads that a finalized or a probed block gives.
abbrev pub heads : Hash → ForkchoiceState
heads h = record { head_block_hash = h; safe_block_hash = h; finalized_block_hash = h }

is_invalid : Status → Bool
is_invalid invalid = true
is_invalid _ = false

-- `status.Status != engine.VALID && status.Status != engine.SYNCING` fails.
judge_payload : Result SendError Status → Attempt KeeperError
judge_payload (err e) = again
judge_payload (ok valid) = done
judge_payload (ok syncing) = done
judge_payload (ok status) = failed (bad_status status)

judge_forkchoice : Result Bytes ForkChoiceResponse → Attempt KeeperError
unfolding is_invalid
judge_forkchoice (err m) = again
judge_forkchoice (ok r) =
    if is_invalid r.payload_status then failed (bad_status r.payload_status) else done

module _ {World : Type 0} (k : Keeper) (x : Libraries) (client : EngineClient World)
    (c : SdkContext) where
  unfoldable pub new_payload : ExecutableData → List Hash → World → Result SendError Status × World
  unfolding sent
  new_payload payload hashes w =
      if is_amsterdam_active k.chain_spec payload.timestamp
      then sent (client.new_payload_v5 payload hashes (some c.app_hash) w)
      else if is_prague_active k.chain_spec payload.timestamp
      then sent (client.new_payload_v4 payload hashes (some c.app_hash) w)
      else sent (client.new_payload_v3 payload hashes (some c.app_hash) w)

  send_hashes : ExecutableData → Option (List Hash) → World → Result SendError Status × World
  unfolding new_payload
  send_hashes payload none w = (err undecodable_tx, w)
  send_hashes payload (some hashes) w =
      if ltb max_blobs_per_block (length hashes)
      then (err too_many_blobs, w)
      else new_payload payload hashes w

  unfoldable pub send_payload : ExecutableData → World → Result SendError Status × World
  unfolding send_hashes
  send_payload payload w =
      if c.app_hash == 0
      then (err app_hash_empty, w)
      else send_hashes payload (versioned_hashes x.blob_hashes payload.transactions) w

  pub send_attempt : ExecutableData → Done → World → Attempt KeeperError × Done × World
  unfolding judge_payload
  send_attempt payload u w = let (r, w') = send_payload payload w in (judge_payload r, u, w')

  pub forkchoice_attempt : Hash → Done → World → Attempt KeeperError × Done × World
  unfolding judge_forkchoice
  forkchoice_attempt head u w =
      let (r, w') = client.forkchoice_updated_v3 (heads head) none w in (judge_forkchoice r, u, w')

  -- "Update the forkchoice state" and "Set the block state".
  pub finalize_payload : GoContext World → ℕ → ExecutableData → Handler World Done
  finalize_payload ctx fuel payload = do
    on_world (retry ctx expired (forkchoice_attempt payload.block_hash) fuel tt)
    set_block_state (record {
      hash = payload.block_hash;
      height = payload.number;
      timestamp = payload.timestamp;
    })

  -- "Send the payload to the EVM engine client", and what follows.
  pub submit_payload : GoContext World → ℕ → ExecutableData → Handler World Done
  submit_payload ctx fuel payload = do
    on_world (retry ctx expired (send_attempt payload) fuel tt)
    finalize_payload ctx fuel payload

  pub execute : GoContext World → ℕ → MsgExecutionPayload → BlockState → Handler World Done
  execute ctx fuel msg state = do
    payload ← lift (validate_payload k x c msg state)
    submit_payload ctx fuel payload

  -- `fuel` bounds the attempts of each of the two retry loops.
  unfoldable pub execution_payload : GoContext World → ℕ → MsgExecutionPayload → Handler World Done
  unfolding is_finalize execute
  execution_payload ctx fuel msg = do
    fail_if (not (is_finalize c.exec_mode)) not_finalizing
    fail_if (is_empty msg.execution_payload) empty_payload
    state ← get_block_state
    execute ctx fuel msg state

-- proposal_server.go: the block state is read and the payload validated, and nothing is written.
unfoldable pub proposal_payload :
    {World : Type 0} → Keeper → Libraries → SdkContext → MsgExecutionPayload → Handler World Done
proposal_payload k x c msg = do
  state ← get_block_state
  payload ← lift (validate_payload k x c msg state)
  lift (ok tt)
