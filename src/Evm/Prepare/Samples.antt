-- ===== src/Evm/Prepare/Samples.antt =====
-- A small engine that builds what it is asked for, and what PrepareProposal makes of it.
use nexus_node.Common.{
  ℕ, suc, Option, ◌&&◌, ◌==◌, ==_iff, arith, if◌then◌else◌, ◌≡◌, refl, none, some, [], ◌∷◌, ok, ltb,
  false, length,
}
use nexus_node.Common.Text.{Bytes}
use nexus_node.ChainSpec.{
  ChainSpec, get_payload_engine_rpc_version, is_prague_active, is_osaka_active,
}
use nexus_node.Engine.{ForkchoiceState, PayloadAttributes, ForkChoiceResponse, EngineClient}
use nexus_node.Evm.State.{max_tx_size, Node}
use nexus_node.Evm.Timestamp.{calculate_timestamp}
use nexus_node.Evm.Retry.{retry}
use nexus_node.Evm.Keeper.{Keeper, Libraries, prepare_proposal as preparing, to_uint64}
use nexus_node.Evm.Prepare.{
  note_version, get_payload, build_execution_payload, build_attempt, poll_attempt, poll, build,
  propose, prepare, prepare_proposal, wrap_payload,
}
use nexus_node.Evm.Samples.{keeper, context, engine, background, before, child, chosen}

abbrev unforked : ChainSpec
unforked = record { prague_timestamp = none; osaka_timestamp = none; amsterdam_timestamp = none }

abbrev pub early_keeper : Keeper
early_keeper = record keeper { chain_spec = unforked }

-- An engine that builds the child, but only on the parent and for its time, under the id 3.
abbrev pub answer : ForkchoiceState → Option PayloadAttributes → ForkChoiceResponse
answer update none = record chosen { payload_id = none }
answer update (some asked) =
    if update.head_block_hash == 7 && asked.timestamp == 101
    then chosen
    else record chosen { payload_id = none }

abbrev pub builder_engine : EngineClient ℕ
builder_engine = record engine {
  forkchoice_updated_v3 = λ update asked w. (ok (answer update asked), suc w);
}

pub answer_lem :
    (update : ForkchoiceState) (asked : PayloadAttributes) (id : ℕ)
    → (answer update (some asked)).payload_id ≡ some id
    → (update.head_block_hash ≡ 7) × (asked.timestamp ≡ 101)
answer_lem update asked id h =
    let head = ==_iff update.head_block_hash 7 in
    let time = ==_iff asked.timestamp 101 in (ground arith, ground arith)

-- The node after its engine built and gave the child.
abbrev pub asked : Node ℕ
asked = record before { last_logged_rpc_version = 3; rpc_version_changes = (0, 3) ∷ []; world = 2 }

pub child_built :
    (x : Libraries) (json tx : Bytes)
    → x.marshal_payload child ≡ some json
    → x.encode_tx (record { authority = x.module_address; execution_payload = json }) ≡ some tx
    → ltb max_tx_size (length tx) ≡ false
    → prepare_proposal early_keeper x builder_engine
        (record context { exec_mode = preparing })
        background
        1
        6
        before
      ≡ some (ok (tx ∷ []), asked)
unfolding prepare_proposal prepare propose build poll build_attempt build_execution_payload
    poll_attempt get_payload wrap_payload note_version retry calculate_timestamp to_uint64
    get_payload_engine_rpc_version is_prague_active is_osaka_active
child_built x json tx j enc small = rw (j, enc, small) refl
