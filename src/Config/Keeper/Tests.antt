-- ===== src/Config/Keeper/Tests.antt =====
-- A node with a window of heights in its configuration file.
use nexus_node.Common.{
  ℕ, suc, ◌<◌, ◌≤◌, ◌≡◌, refl, true, false, Bool, Option, none, some, [], ◌∷◌, ◌++◌, Result, ok,
  err, String, str_eq, if◌then◌else◌, is_empty, arith,
}
use nexus_node.Common.Text.{Bytes, codes}
use nexus_node.ChainSpec.{ChainSpec}
use nexus_node.Evm.Timestamp.{UseBlockTimestamp}
use nexus_node.Evm.Keeper.{Keeper}
use nexus_node.Config.{File, contents, read, read_config_file, read_file}
use nexus_node.Config.Secret.{Secret, load_jwt_secret}
use nexus_node.Config.Secret.Roundtrip.{load_jwt_secret-prefixed}
use nexus_node.Config.Secret.Bounds.{IsSecret}
use nexus_node.Config.Secret.Tests.{fill, fill-small, content}
use nexus_node.Config.Keeper.{
  RawConfig, KeeperConfig, EngineEnv, Addresses, read_config, window_of, optional_uint,
  create_engine_client, new_keeper, stop_before_start,
}
use nexus_node.Config.Keeper.Laws.{IsConfig}
use nexus_node.Config.Keeper.Written.{written, read_config-written}
use nexus_node.Config.Keeper.Start.{new_keeper-IsConfig}

abbrev window : UseBlockTimestamp
window = record { start_block_height = 10; offset = 1000; stop_block_height = some 20 }

abbrev config : KeeperConfig
config = record {
  suggested_fee_recipient = 5;
  use_block_timestamp = some window;
  unix_timestamp_offset = 3600;
}

config-IsConfig : IsConfig config
config-IsConfig = record {
  window = record {
    start_small = omega arith;
    offset_small = omega arith;
    stop_small = (omega arith, omega arith);
  };
  unix_small = omega arith;
}

abbrev addresses : Addresses
addresses = record { is_hex_address = λ s. true; hex_to_address = λ s. 5 }

abbrev yaml : Bytes → Option RawConfig
yaml b = some (written (codes "0x05") config)

abbrev disk : String → File
disk path = contents content

found : read_config_file "nexus.yaml" disk ≡ ok (read content)
unfolding read_config_file read_file
found = refl

read_config-written_example : read_config addresses yaml "nexus.yaml" disk ≡ ok config
read_config-written_example =
    read_config-written addresses yaml "nexus.yaml" disk content (codes "0x05") config found refl
      refl refl refl config-IsConfig

-- A window that stops before it starts.
backwards :
    window_of (record {
      start_block_height = codes "20";
      offset = codes "";
      stop_block_height = codes "19";
    })
    ≡ err stop_before_start
unfolding window_of optional_uint nexus_node.Common.Decimal.parse_uint
    nexus_node.Common.Decimal.digits_value
backwards = refl

abbrev env : EngineEnv
env = record { jwt_secret_path = ""; url = "" }

abbrev spec : ChainSpec
spec = record { prague_timestamp = some 0; osaka_timestamp = none; amsterdam_timestamp = none }

abbrev started : Keeper
started = record {
  clock = record { use_block_timestamp = some window; unix_timestamp_offset = 3600 };
  suggested_fee_recipient = 5;
  chain_spec = spec;
}

abbrev client : String × Secret
client = ("http://localhost:8551", record { secret = fill 32 })

loads : load_jwt_secret disk "jwt.hex" ≡ ok (record { secret = fill 32 })
loads =
    load_jwt_secret-prefixed disk "jwt.hex" true [] (10 ∷ []) (fill 32) refl tt (refl, tt)
      (fill-small 32) refl

starts :
    new_keeper addresses yaml "nexus.yaml" env disk (λ url. true) true spec ≡ ok (client, started)
unfolding new_keeper create_engine_client
starts =
    rw
      (
        loads,
        read_config-written addresses yaml "nexus.yaml" disk content (codes "0x05") config found
            refl refl refl refl config-IsConfig,
      )
      refl

new_keeper-IsConfig_example :
    IsSecret (record { secret = fill 32 })
    × ((cfg : KeeperConfig) × (read_config addresses yaml "nexus.yaml" disk ≡ ok cfg)
        × IsConfig cfg
        × (started.clock ≡ record {
          use_block_timestamp = cfg.use_block_timestamp;
          unix_timestamp_offset = cfg.unix_timestamp_offset;
        })
        × (started.suggested_fee_recipient ≡ cfg.suggested_fee_recipient)
        × (started.chain_spec ≡ spec))
new_keeper-IsConfig_example =
    new_keeper-IsConfig addresses yaml "nexus.yaml" env disk (λ url. true) true spec client started
      starts
