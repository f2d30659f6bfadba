-- ===== src/Evm/Samples.antt =====
-- A small engine, keeper and block for the tests of the handlers.
use nexus_node.Common.{ℕ, suc, Option, none, some, [], ◌∷◌, ok}
use nexus_node.Common.Text.{Bytes, codes}
use nexus_node.ChainSpec.{ChainSpec}
use nexus_node.Engine.{ExecutableData, EngineClient, ForkChoiceResponse, valid}
use nexus_node.Evm.State.{BlockState, Node}
use nexus_node.Evm.Timestamp.{Clock}
use nexus_node.Evm.Retry.{GoContext}
use nexus_node.Evm.Keeper.{Keeper, SdkContext, MsgExecutionPayload, Libraries, finalize}

abbrev pub parent : BlockState
parent = record { hash = 7; height = 5; timestamp = 100 }

abbrev pub child : ExecutableData
child = record {
  parent_hash = 7;
  number = 6;
  timestamp = 101;
  block_hash = 9;
  transactions = [];
  withdrawals = some [];
  blob_gas_used = some 0;
  excess_blob_gas = some 0;
  execution_witness = none;
}

abbrev pub prague : ChainSpec
prague = record { prague_timestamp = some 0; osaka_timestamp = none; amsterdam_timestamp = none }

abbrev pub wall_clock : Clock
wall_clock = record { use_block_timestamp = none; unix_timestamp_offset = 0 }

abbrev pub keeper : Keeper
keeper = record { clock = wall_clock; suggested_fee_recipient = 0; chain_spec = prague }

abbrev pub context : SdkContext
context = record { exec_mode = finalize; block_unix = 90; height = 6; app_hash = 1 }

-- Any JSON but the empty one is the child.
abbrev pub unmarshal : Bytes → Option ExecutableData
unmarshal [] = none
unmarshal (_ ∷ _) = some child

abbrev pub libraries : Libraries
libraries = record {
  unmarshal_payload = unmarshal;
  marshal_payload = λ p. some (b'J' ∷ []);
  encode_tx = λ m. some (b'T' ∷ []);
  blob_hashes = λ tx. some [];
  module_address = "evm";
  unknown_payload = codes "Unknown payload";
}

abbrev pub message : MsgExecutionPayload
message = record { authority = "evm"; execution_payload = b'J' ∷ [] }

abbrev pub chosen : ForkChoiceResponse
chosen = record { payload_status = valid; payload_id = some 3 }

-- An engine that agrees to everything; the world counts its calls.
abbrev pub engine : EngineClient ℕ
engine = record {
  new_payload_v3 = λ p hashes root w. (ok valid, suc w);
  new_payload_v4 = λ p hashes root w. (ok valid, suc w);
  new_payload_v5 = λ p hashes root w. (ok valid, suc w);
  forkchoice_updated_v3 = λ update attributes w. (ok chosen, suc w);
  get_payload_v3 = λ id w. (ok child, suc w);
  get_payload_v4 = λ id w. (ok child, suc w);
  get_payload_v5 = λ id w. (ok child, suc w);
}

-- A context that is never over.
abbrev pub background : GoContext ℕ
background = record { cause = λ w. none; sleep = λ n w. w; wait = λ n w. (none, w) }

abbrev pub before : Node ℕ
before = record {
  block_state = some parent;
  last_logged_rpc_version = 0;
  rpc_version_changes = [];
  world = 0;
}
