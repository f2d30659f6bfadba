-- ===== src/Evm/Payload.antt =====
-- `validatePayload` of cosmos/x/evm/keeper/msg_server.go.
pub mod Laws
use nexus_node.Common.{
  Bool, true, false, not, ◌&&◌, Option, none, some, List, Result, Done, ok, err, ◌>>=◌, ◌>>◌,
  fail_if, is_some, is_empty, str_eq, ◌==◌, leb,
}
use nexus_node.Common.Text.{Bytes}
use nexus_node.Common.Words.{add64}
use nexus_node.Engine.{ExecutableData}
use nexus_node.Evm.State.{
  BlockState, KeeperError, invalid_authority, invalid_payload, withdrawals_unsupported,
  fields_missing, witness_unsupported, bad_parent_hash, bad_number, stale_timestamp,
  wrong_timestamp,
}
use nexus_node.Evm.Timestamp.{calculate_timestamp}
use nexus_node.Evm.Keeper.{Keeper, SdkContext, MsgExecutionPayload, Libraries, to_uint64}

-- `json.Unmarshal`
decode : Option ExecutableData → Result KeeperError ExecutableData
decode none = err invalid_payload
decode (some payload) = ok payload

-- `len(payload.Withdrawals) > 0`, which a nil slice is not.
has_withdrawals : Option (List Bytes) → Bool
has_withdrawals none = false
has_withdrawals (some w) = not (is_empty w)

-- The checks that need the payload alone.
unfoldable pub check_fields : ExecutableData → Result KeeperError Done
unfolding has_withdrawals
check_fields p = do
  fail_if (has_withdrawals p.withdrawals) withdrawals_unsupported
  fail_if (not (is_some p.withdrawals && (is_some p.blob_gas_used && is_some p.excess_blob_gas)))
      fields_missing
  fail_if (is_some p.execution_witness) witness_unsupported

-- The checks against the committed block state and the block's context.
unfoldable pub check_position :
    Keeper → SdkContext → BlockState → ExecutableData → Result KeeperError Done
check_position k c state p = do
  fail_if (not (p.parent_hash == state.hash)) bad_parent_hash
  fail_if (not (p.number == add64 state.height 1)) bad_number
  fail_if (leb p.timestamp state.timestamp) stale_timestamp
  height ← to_uint64 c.height
  fail_if (not (p.timestamp == calculate_timestamp k.clock c.block_unix height state.timestamp))
      wrong_timestamp

unfoldable pub validate_payload :
    Keeper
    → Libraries
    → SdkContext
    → MsgExecutionPayload
    → BlockState
    → Result KeeperError ExecutableData
unfolding decode
validate_payload k x c msg state = do
  fail_if (not (str_eq msg.authority x.module_address)) invalid_authority
  payload ← decode (x.unmarshal_payload msg.execution_payload)
  check_fields payload
  check_position k c state payload
  ok payload
