-- ===== src/Evm/Prepare.antt =====
-- `PrepareProposal` of cosmos/x/evm/keeper/abci.go: ask the engine to build a block on the committed
-- head, wait, poll for the payload, and wrap it in a transaction.
pub mod Routing
pub mod Polling
pub mod Outcome
pub mod Obtains
pub mod Proposal
pub mod Samples
mod Tests
use nexus_node.Common.{
  ℕ, ◌+◌, Bool, true, false, not, Option, none, some, List, [], ◌∷◌, Result, Done, ok, err, length,
  ◌==◌, leb, ltb, if◌then◌else◌,
}
use nexus_node.Common.Text.{Bytes, to_lower, contains}
use nexus_node.ChainSpec.{is_osaka_active, is_prague_active, get_payload_engine_rpc_version}
use nexus_node.Engine.{
  Hash, Status, valid, PayloadAttributes, ForkChoiceResponse, ExecutableData, EngineClient,
}
use nexus_node.Evm.State.{
  BlockState, KeeperError, no_block_state, no_payload_id, still_unknown, tx_too_large,
  encoding_failed, bad_status, expired, max_tx_size, Node, Handler, ◌>>=◌, ◌>>◌, pure, lift,
  fail_if, get_block_state, on_world,
}
use nexus_node.Evm.Timestamp.{calculate_timestamp}
use nexus_node.Evm.Retry.{GoContext, Attempt, again, done, failed, retry}
use nexus_node.Evm.Keeper.{Keeper, SdkContext, MsgExecutionPayload, Libraries, to_uint64}
use nexus_node.Evm.MsgServer.{heads}

-- milliseconds
abbrev pub build_delay : ℕ
build_delay = 100

-- `maxUnknownPayloadPoll / retryDelay`, 5 s over 10 ms
abbrev pub max_consecutive_unknown_payload_attempts : ℕ
max_consecutive_unknown_payload_attempts = 500

-- `lastLoggedRPCVersion.Swap`, and the line that is logged if it changed: the newest is in front.
unfoldable pub note_version : {World : Type 0} → ℕ → Handler World Done
note_version version n = some (
  ok tt,
  record n {
    last_logged_rpc_version = version;
    rpc_version_changes =
        if n.last_logged_rpc_version == version
        then n.rpc_version_changes
        else (n.last_logged_rpc_version, version) ∷ n.rpc_version_changes;
  },
)

-- `isPayloadUnknown`, of the text of an error.
unfoldable pub is_payload_unknown : Libraries → Bytes → Bool
is_payload_unknown x message = contains (to_lower message) (to_lower x.unknown_payload)

-- What the forkchoice loop makes of an answer; the captured value is the payload id.
judge_build : Result Bytes ForkChoiceResponse → ℕ → Attempt KeeperError × ℕ
judge_build (err m) id = (again, id)
judge_build (ok r) id = elim r.payload_status [
  | valid ↦ elim r.payload_id [ none ↦ (failed no_payload_id, id) | some new ↦ (done, new) ]
  | status ↦ (failed (bad_status status), id)
]

-- What the polling loop makes of an answer: it counts the consecutive unknown answers, and gives up
-- at the limit.
judge_poll :
    Libraries → Result Bytes ExecutableData → ℕ → Attempt KeeperError × (ℕ × Option ExecutableData)
judge_poll x (ok payload) unknown = (done, (0, some payload))
judge_poll x (err m) unknown =
    if is_payload_unknown x m
    then (if leb max_consecutive_unknown_payload_attempts (unknown + 1)
        then (failed still_unknown, (unknown + 1, none))
        else (again, (unknown + 1, none)))
    else (again, (0, none))

-- An encoder's result.
encoded : Option Bytes → Result KeeperError Bytes
encoded none = err encoding_failed
encoded (some b) = ok b

module _ {World : Type 0} (k : Keeper) (x : Libraries) (client : EngineClient World)
    (c : SdkContext) where
  abbrev pub attributes : BlockState → ℕ → PayloadAttributes
  attributes state height = record {
    timestamp = calculate_timestamp k.clock c.block_unix height state.timestamp;
    random = state.hash;
    suggested_fee_recipient = k.suggested_fee_recipient;
    withdrawals = [];
    beacon_root = c.app_hash;
  }

  -- `buildExecutionPayload`: the stored block state is read again. An error that is not the engine's
  -- has a text that nothing reads.
  unfoldable pub build_execution_payload :
      Option BlockState → ℕ → World → Result Bytes ForkChoiceResponse × World
  build_execution_payload none height w = (err [], w)
  build_execution_payload (some state) height w =
      client.forkchoice_updated_v3 (heads state.hash) (some (attributes state height)) w

  pub build_attempt : Option BlockState → ℕ → ℕ → World → Attempt KeeperError × ℕ × World
  unfolding judge_build
  build_attempt stored height id w =
      let (r, w') = build_execution_payload stored height w in
      let (a, id') = judge_build r id in (a, id', w')

  unfoldable pub get_payload : ℕ → ℕ → World → Result Bytes ExecutableData × World
  get_payload timestamp id w =
      if is_osaka_active k.chain_spec timestamp
      then client.get_payload_v5 id w
      else if is_prague_active k.chain_spec timestamp
      then client.get_payload_v4 id w
      else client.get_payload_v3 id w

  pub poll_attempt :
      ℕ
      → ℕ
      → (ℕ × Option ExecutableData)
      → World
      → Attempt KeeperError × (ℕ × Option ExecutableData) × World
  unfolding judge_poll
  poll_attempt timestamp id (unknown, response) w =
      let (r, w') = get_payload timestamp id w in
      let (a, captured) = judge_poll x r unknown in (a, captured, w')

  -- The polling loop ends well only with a payload, so `none` does not come here.
  -- The payload as a message of the evm module, encoded, and refused above `MaxTxSize`.
  pub wrap_payload : Option ExecutableData → Handler World (List Bytes)
  unfolding encoded
  wrap_payload none = lift (err encoding_failed)
  wrap_payload (some payload) = do
    json ← lift (encoded (x.marshal_payload payload))
    tx ←
        lift (
          encoded (x.encode_tx (record { authority = x.module_address; execution_payload = json })))
    fail_if (ltb max_tx_size (length tx)) tx_too_large
    pure (tx ∷ [])

  module _ (ctx : GoContext World) (fuel : ℕ) where
    -- `select` between the delay and the end of the context.
    delay : World → Option (Result KeeperError Done × World)
    delay w =
        let (r, w') = ctx.wait build_delay w in
        elim r [ none ↦ some (ok tt, w') | some m ↦ some (err (expired m), w') ]

    pub poll : ℕ → ℕ → Handler World (List Bytes)
    poll timestamp id = do
      captured ← on_world (retry ctx expired (poll_attempt timestamp id) fuel (0, none))
      wrap_payload captured.1

    pub build : Option BlockState → ℕ → ℕ → Handler World (List Bytes)
    unfolding delay
    build stored height timestamp = do
      id ← on_world (retry ctx expired (build_attempt stored height) fuel 0)
      on_world delay
      poll timestamp id

    pub propose : ℕ → BlockState → Handler World (List Bytes)
    propose height state = do
      let timestamp = calculate_timestamp k.clock c.block_unix height state.timestamp
      note_version (get_payload_engine_rpc_version k.chain_spec timestamp)
      build (some state) height timestamp

    -- Whether the block is the first one.
    pub prepare : Bool → Handler World (List Bytes)
    prepare true = pure []
    prepare false = do
      height ← lift (to_uint64 c.height)
      state ← get_block_state
      propose height state

    -- `req_height` is the height of the request, as an int64; the result is the transactions.
    unfoldable pub prepare_proposal : ℕ → Handler World (List Bytes)
    prepare_proposal req_height = prepare (req_height == 1)
