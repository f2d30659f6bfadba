-- ===== src/Evm/Keeper.antt =====
-- What the handlers of cosmos/x/evm/keeper read and never change: the keeper's configuration, the
-- context of a block, the messages, and the libraries' codecs, which are arguments of the model.
use nexus_node.Common.{ℕ, Option, List, Result, ok, err, String, if◌then◌else◌}
use nexus_node.Common.Text.{Bytes}
use nexus_node.Common.Words.{neg64}
use nexus_node.ChainSpec.{ChainSpec}
use nexus_node.Engine.{Hash, ExecutableData}
use nexus_node.Evm.State.{KeeperError, negative_height}
use nexus_node.Evm.Timestamp.{Clock}

pub record Keeper : Type 0 where
  pub clock : Clock
  pub suggested_fee_recipient : ℕ
  pub chain_spec : ChainSpec

pub data ExecMode : Type 0 where
  check recheck simulate prepare_proposal process_proposal vote_extension finalize : ExecMode

-- `sdk.Context`: `block_unix` is `uint64(ctx.BlockTime().Unix())`, `height` the bit pattern of the
-- header's int64 height, and `app_hash` the header's app hash as a 32-byte hash.
pub record SdkContext : Type 0 where
  pub exec_mode : ExecMode
  pub block_unix : ℕ
  pub height : ℕ
  pub app_hash : Hash

pub record MsgExecutionPayload : Type 0 where
  pub authority : String
  pub execution_payload : Bytes

-- The codecs: JSON of a payload, the encoding of a transaction, and the blob hashes of the binary
-- form of an EVM transaction (`none` where the library returns an error); the address of the evm
-- module's account; the text of `engine.UnknownPayload`.
pub record Libraries : Type 0 where
  pub unmarshal_payload : Bytes → Option ExecutableData
  pub marshal_payload : ExecutableData → Option Bytes
  pub encode_tx : MsgExecutionPayload → Option Bytes
  pub blob_hashes : Bytes → Option (List Hash)
  pub module_address : String
  pub unknown_payload : Bytes

-- cosmos/x/evm/keeper/utils.go
unfoldable pub to_uint64 : ℕ → Result KeeperError ℕ
to_uint64 val = if neg64 val then err negative_height else ok val
