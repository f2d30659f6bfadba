-- ===== src/Config/Keeper.antt =====
-- `readConfig`, `createEngineClient` and `NewKeeper` of cosmos/x/evm/keeper/keeper.go: the evm keeper
-- from the configuration file and the environment. The YAML decoder and go-ethereum's parser of
-- addresses are arguments.
pub mod Laws
pub mod Written
pub mod Start
mod Tests
use nexus_node.Common.{
  ℕ, Bool, true, false, not, ◌&&◌, Option, none, some, Result, Done, ok, err, ◌>>=◌, ◌>>◌, fail_if,
  is_empty, ltb, String, str_eq, if◌then◌else◌,
}
use nexus_node.Common.Text.{Bytes}
use nexus_node.Common.Decimal.{parse_uint}
use nexus_node.ChainSpec.{ChainSpec}
use nexus_node.Evm.Timestamp.{UseBlockTimestamp}
use nexus_node.Evm.Keeper.{Keeper}
use nexus_node.Config.{File, Panic, ConfigData, no_path, read, read_config_file}
use nexus_node.Config.Secret.{Secret, SecretError, load_jwt_secret}

pub record RawUseBlockTimestamp : Type 0 where
  pub start_block_height : Bytes
  pub offset : Bytes
  pub stop_block_height : Bytes

pub record RawConfig : Type 0 where
  pub suggested_fee_recipient : Bytes
  pub use_block_timestamp : Option RawUseBlockTimestamp
  pub unix_timestamp_offset : Bytes

-- An address is the number that its bytes spell.
pub record KeeperConfig : Type 0 where
  pub suggested_fee_recipient : ℕ
  pub use_block_timestamp : Option UseBlockTimestamp
  pub unix_timestamp_offset : ℕ

-- Why `createEngineClient` fails.
pub data EngineError : Type 0 where
  bad_secret : SecretError → EngineError
  not_dialled : EngineError

-- The `panic`s of `readConfig` and of `NewKeeper`.
pub data KeeperPanic : Type 0 where
  in_file : Panic → KeeperPanic
  undecodable_config bad_recipient bad_offset bad_start bad_stop : KeeperPanic
  stop_before_start bad_unix_offset bad_authority : KeeperPanic
  no_engine : EngineError → KeeperPanic

-- `common.IsHexAddress` and `common.HexToAddress`
pub record Addresses : Type 0 where
  pub is_hex_address : Bytes → Bool
  pub hex_to_address : Bytes → ℕ

number_or : KeeperPanic → Option ℕ → Result KeeperPanic ℕ
number_or p none = err p
number_or p (some n) = ok n

-- A number that stays 0 when its text is empty.
pub optional_uint : Bytes → KeeperPanic → Result KeeperPanic ℕ
unfolding number_or
optional_uint s p = if is_empty s then ok 0 else number_or p (parse_uint s)

pub recipient_of : Addresses → Bytes → Result KeeperPanic ℕ
recipient_of a s =
    if is_empty s
    then ok 0
    else if a.is_hex_address s
    then ok (a.hex_to_address s)
    else err bad_recipient

pub window_of : RawUseBlockTimestamp → Result KeeperPanic UseBlockTimestamp
window_of raw = do
  offset ← optional_uint raw.offset bad_offset
  start ← optional_uint raw.start_block_height bad_start
  stop ← optional_uint raw.stop_block_height bad_stop
  fail_if (not (is_empty raw.stop_block_height) && ltb stop start) stop_before_start
  ok (record {
    start_block_height = start;
    offset = offset;
    stop_block_height = if is_empty raw.stop_block_height then none else some stop;
  })

pub optional_window : Option RawUseBlockTimestamp → Result KeeperPanic (Option UseBlockTimestamp)
optional_window none = ok none
optional_window (some raw) = do window ← window_of raw; ok (some window)

pub config_of : Addresses → RawConfig → Result KeeperPanic KeeperConfig
config_of a raw = do
  recipient ← recipient_of a raw.suggested_fee_recipient
  window ← optional_window raw.use_block_timestamp
  unix_offset ← optional_uint raw.unix_timestamp_offset bad_unix_offset
  ok (record {
    suggested_fee_recipient = recipient;
    use_block_timestamp = window;
    unix_timestamp_offset = unix_offset;
  })

abbrev zero_config : KeeperConfig
zero_config = record {
  suggested_fee_recipient = 0;
  use_block_timestamp = none;
  unix_timestamp_offset = 0;
}

pub decoded_config : Addresses → Option RawConfig → Result KeeperPanic KeeperConfig
decoded_config a none = err undecodable_config
decoded_config a (some raw) = config_of a raw

pub config_from :
    Addresses
    → (Bytes → Option RawConfig)
    → Result Panic ConfigData
    → Result KeeperPanic KeeperConfig
config_from a unmarshal (err p) = err (in_file p)
config_from a unmarshal (ok no_path) = ok zero_config
config_from a unmarshal (ok (read b)) = decoded_config a (unmarshal b)

pub read_config :
    Addresses
    → (Bytes → Option RawConfig)
    → String
    → (String → File)
    → Result KeeperPanic KeeperConfig
read_config a unmarshal path file = config_from a unmarshal (read_config_file path file)

-- The environment variables that `createEngineClient` reads; unset and empty are the same.
pub record EngineEnv : Type 0 where
  pub jwt_secret_path : String
  pub url : String

loaded : Result SecretError Secret → Result EngineError Secret
loaded (err e) = err (bad_secret e)
loaded (ok secret) = ok secret

or_default : String → String → String
or_default env default = if str_eq env "" then default else env

-- `rpc.DialOptions` does not take every URL: `dials` says which.
pub create_engine_client :
    EngineEnv → (String → File) → (String → Bool) → Result EngineError (String × Secret)
unfolding or_default loaded
create_engine_client env file dials = do
  secret ← loaded (load_jwt_secret file (or_default env.jwt_secret_path "jwt.hex"))
  fail_if (not (dials (or_default env.url "http://localhost:8551"))) not_dialled
  ok (or_default env.url "http://localhost:8551", secret)

engine_or_panic : Result EngineError (String × Secret) → Result KeeperPanic (String × Secret)
engine_or_panic (err e) = err (no_engine e)
engine_or_panic (ok client) = ok client

-- `NewKeeper`: what its engine client connects with, and the keeper. `authority_ok` is whether the
-- address codec writes the authority.
pub new_keeper :
    Addresses
    → (Bytes → Option RawConfig)
    → String
    → EngineEnv
    → (String → File)
    → (String → Bool)
    → Bool
    → ChainSpec
    → Result KeeperPanic ((String × Secret) × Keeper)
unfolding engine_or_panic
new_keeper a unmarshal path env file dials authority_ok chain_spec = do
  fail_if (not authority_ok) bad_authority
  client ← engine_or_panic (create_engine_client env file dials)
  config ← read_config a unmarshal path file
  ok (
    client,
    record {
      clock = record {
        use_block_timestamp = config.use_block_timestamp;
        unix_timestamp_offset = config.unix_timestamp_offset;
      };
      suggested_fee_recipient = config.suggested_fee_recipient;
      chain_spec = chain_spec;
    },
  )
