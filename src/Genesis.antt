-- ===== src/Genesis.antt =====
-- cosmos/x/evm/keeper/genesis.go and cosmos/x/evm/types/genesis.go: the block state in and out of a
-- genesis file. The text of a hash is go-ethereum's, an argument.
pub mod Roundtrip
pub mod Module
pub mod Params
mod Tests
use nexus_node.Common.{
  ℕ, Option, none, some, Result, Done, ok, err, fail_if, ◌>>=◌, ◌>>◌, Bool, true, false, not, ◌&&◌,
  ◌||◌, String, str_eq, if◌then◌else◌, ◌==◌,
}
use nexus_node.Common.{length}
use nexus_node.Common.Text.{codes, has_prefix}
use nexus_node.Engine.{Hash}
use nexus_node.Evm.State.{BlockState}

-- `Hash.Hex` and `HexToHash`
pub record HashText : Type 0 where
  pub hex : Hash → String
  pub hex_to_hash : String → Hash

pub record GenesisState (P : Type 0) : Type 0 where
  pub params : P
  pub genesis_execution_block_hash : String
  pub current_block_hash : String
  pub current_block_height : ℕ
  pub current_block_timestamp : ℕ

-- The items of the keeper's store that a genesis sets.
pub record Store (P : Type 0) : Type 0 where
  pub stored_params : Option P
  pub block_state : Option BlockState

pub data GenesisError : Type 0 where
  bad_params hash_required bad_hash bad_current_hash no_params : GenesisError

-- `DefaultGenesis`
abbrev default_hash : String
default_hash = "0x0000000000000000000000000000000000000000000000000000000000000000"

module _ {P : Type 0} (text : HashText) where
  initial_state : GenesisState P → BlockState
  initial_state gs =
      let current : BlockState = record {
        hash = text.hex_to_hash gs.current_block_hash;
        height = gs.current_block_height;
        timestamp = gs.current_block_timestamp;
      } in
      let start : BlockState = record {
        hash = text.hex_to_hash gs.genesis_execution_block_hash;
        height = 0;
        timestamp = 0;
      } in
      if str_eq gs.current_block_hash "" then start else current

  -- `InitGenesis`: the parameters are stored before the hash is looked at.
  unfoldable pub init_genesis : GenesisState P → Store P → Result GenesisError Done × Store P
  unfolding initial_state
  init_genesis gs s =
      let with_params = record s { stored_params = some gs.params } in
      let all = record with_params { block_state = some (initial_state gs) } in
      if str_eq gs.genesis_execution_block_hash ""
      then (err hash_required, with_params)
      else (ok tt, all)

  export_state : P → Option BlockState → GenesisState P
  export_state p none = record {
    params = p;
    genesis_execution_block_hash = default_hash;
    current_block_hash = "";
    current_block_height = 0;
    current_block_timestamp = 0;
  }
  export_state p (some b) = record {
    params = p;
    genesis_execution_block_hash = text.hex b.hash;
    current_block_hash = text.hex b.hash;
    current_block_height = b.height;
    current_block_timestamp = b.timestamp;
  }

  unfoldable pub export_genesis : Store P → Result GenesisError (GenesisState P)
  unfolding export_state
  export_genesis s = elim s.stored_params [
    | none ↦ err no_params
    | some p ↦ ok (export_state p s.block_state)
  ]

-- 66 characters, the first two of them "0x".
is_hash_text : String → Bool
is_hash_text s = length (codes s) == 66 && has_prefix (codes s) (codes "0x")

-- `GenesisState.Validate`; `params_fit` is what `Params.Validate` says.
unfoldable pub validate_genesis :
    {P : Type 0} → (P → Bool) → GenesisState P → Result GenesisError Done
unfolding is_hash_text
validate_genesis params_fit gs = do
  fail_if (not (params_fit gs.params)) bad_params
  fail_if (str_eq gs.genesis_execution_block_hash "") hash_required
  fail_if (not (is_hash_text gs.genesis_execution_block_hash)) bad_hash
  fail_if (not (str_eq gs.current_block_hash "") && not (is_hash_text gs.current_block_hash))
      bad_current_hash
