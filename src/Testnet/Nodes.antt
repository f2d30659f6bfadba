-- ===== src/Testnet/Nodes.antt =====
-- The first part of `initTestnetFiles`: keys, accounts and a genesis transaction for each node.
use nexus_node.Common.{
  ℕ, zero, suc, ◌*◌, Bool, false, List, [], ◌∷◌, ◌++◌, Option, none, some, Result, if◌then◌else◌,
  is_empty,
}
use nexus_node.Common.Text.{Bytes, codes}
use nexus_node.Common.Decimal.{format_uint}
use nexus_node.Upgrades.Api.{Chain, App, Out, done, failed, panicked, ◌>>=◌, ◌>>◌, pure, read}
use nexus_node.Testnet.Disk.{FilePath, Disk, mkdir_all, write_file, remove_all}
use nexus_node.Testnet.Args.{Args, itoa_diff, at_index}

pub record Coin : Type 0 where
  pub denom : Bytes
  pub amount : ℕ

pub record Balance : Type 0 where
  pub address : Bytes
  pub coins : List Coin

-- The fields of CometBFT's configuration that the command sets.
pub record NodeConfig : Type 0 where
  pub root_dir : FilePath
  pub moniker : Bytes
  pub rpc_listen : Bytes
  pub persistent_peers : Bytes
  pub allow_duplicate_ip : Bool
  pub p2p_listen : Bytes
  pub proxy_app : Bytes
  pub prometheus_listen : Bytes
  pub prometheus : Bool

pub record AppConfig : Type 0 where
  pub min_gas_prices : Bytes
  pub api_enable : Bool
  pub hostname_label : Bool
  pub telemetry : Bool
  pub retention_time : ℕ
  pub grpc_address : Bytes
  pub api_address : Bytes

-- What the command calls of the SDK and of CometBFT: `K` is a keyring, `M` a message, `T` a
-- transaction, `A` an account of the genesis.
pub record Tools (K M T A : Type 0) : Type 0 where
  pub initialize_node_validator_files : NodeConfig → App Disk (Bytes × Bytes)
  pub genesis_file : NodeConfig → FilePath
  pub new_keyring : Bytes → FilePath → App Disk K
  pub signing_algo : K → Bytes → Result Chain Bytes
  -- The address and the seed words of the key.
  pub generate_save_coin_key : K → Bytes → Bytes → App Disk (Bytes × Bytes)
  pub marshal_info : Bytes → Result Chain Bytes
  pub account_text : Bytes → Bytes
  pub base_account : Bytes → A
  pub sort_coins : List Coin → List Coin
  pub tokens_from_consensus_power : ℕ → ℕ
  pub bond_denom : Bytes
  -- Operator, public key, stake and moniker.
  pub create_validator_msg : Bytes → Bytes → Coin → Bytes → Result Chain M
  pub set_msgs : M → Result Chain T
  -- Chain id, memo, keyring, name of the key.
  pub sign : Bytes → Bytes → K → Bytes → T → App Disk T
  pub encode_tx : T → Result Chain Bytes
  pub write_app_config : FilePath → AppConfig → App Disk Unit

-- What the loop collects.
pub record Built (A : Type 0) : Type 0 where
  pub config : NodeConfig
  pub node_ids : List Bytes
  pub pub_keys : List Bytes
  pub peers : Bytes
  pub gen_files : List FilePath
  pub gentx_files : List FilePath
  pub balances : List Balance
  pub accounts : List A

-- `nodeDirName`, `nodeDir` and `gentxsDir` of the i-th node.
abbrev pub node_dir_name : Args → ℕ → Bytes
node_dir_name args i = args.node_dir_prefix ++ format_uint i

abbrev pub node_dir : Args → ℕ → FilePath
node_dir args i = args.output_dir ++ (node_dir_name args i ∷ [])

abbrev pub gentxs_dir : Args → ℕ → FilePath
gentxs_dir args i =
    args.output_dir ++ (node_dir_name args i ∷ (codes "config" ∷ (codes "gentx" ∷ [])))

abbrev pub text_or_empty : Option Bytes → Bytes
text_or_empty none = []
text_or_empty (some s) = s

-- `args.ports[i]`
abbrev pub port_of : Args → ℕ → Bytes
port_of args i = text_or_empty (at_index args.ports i)

clean_up : {A : Type 0} → FilePath → Out A × Disk → Out A × Disk
clean_up output_dir (done a, d) = (done a, d)
clean_up output_dir (failed e, d) = (failed e, (remove_all output_dir d).1)
clean_up output_dir (panicked e, d) = (panicked e, d)

-- `if err != nil { _ = os.RemoveAll(outputDir); return err }`
unfoldable pub or_clean_up : {A : Type 0} → FilePath → App Disk A → App Disk A
unfolding clean_up
or_clean_up output_dir m d = clean_up output_dir (m d)

unfoldable pub join_peer : Bytes → Bytes → Bytes
join_peer peers memo = if is_empty peers then memo else peers ++ (b',' ∷ memo)

abbrev pub node_config : Args → ℕ → NodeConfig → NodeConfig
node_config args i config = record config {
  root_dir = node_dir args i;
  moniker = node_dir_name args i;
  rpc_listen = codes "tcp://0.0.0.0:" ++ port_of args i;
}

-- `fmt.Sprintf("%s@%s:26656-3i", …)`
abbrev pub memo_of : Args → ℕ → Bytes → Bytes
memo_of args i node_id =
    node_id ++ (b'@' ∷ (args.starting_ip_address ++ (b':' ∷ itoa_diff 26656 (3 * i))))

abbrev pub gentx_file : Args → ℕ → Bytes → FilePath
gentx_file args i node_id =
    gentxs_dir args i ++ ((codes "gentx-" ++ (node_id ++ codes ".json")) ∷ [])

-- The addresses of the servers of the application.
abbrev pub node_app_config : Args → ℕ → AppConfig → AppConfig
node_app_config args i app = record app {
  grpc_address = args.starting_ip_address ++ (b':' ∷ itoa_diff 9090 (2 * i));
  api_address = codes "tcp://localhost:" ++ itoa_diff 1317 i;
}

module _ {K M T A : Type 0} (tools : Tools K M T A) where
  -- The configuration of the application, before the addresses of a node are put in.
  unfoldable pub app_config : Args → AppConfig → AppConfig
  app_config args default =
      let priced = record default { min_gas_prices = args.min_gas_prices; api_enable = false } in
      record priced {
        min_gas_prices = codes "0.0001" ++ tools.bond_denom;
        hostname_label = false;
        telemetry = false;
        retention_time = 0;
      }

  abbrev pub stake_or_default : Option ℕ → Coin
  stake_or_default none = record {
    denom = tools.bond_denom;
    amount = tools.tokens_from_consensus_power 100;
  }
  stake_or_default (some n) = record { denom = tools.bond_denom; amount = n }

  abbrev pub account_balance : Bytes → Balance
  account_balance addr = record {
    address = tools.account_text addr;
    coins = tools.sort_coins (
        record { denom = codes "testtoken"; amount = tools.tokens_from_consensus_power 1000 }
        ∷ (record { denom = tools.bond_denom; amount = tools.tokens_from_consensus_power 500 }
            ∷ []));
  }

  -- The key of the node: its keyring, and the address of the account.
  unfoldable pub make_key : Args → ℕ → App Disk (K × Bytes)
  make_key args i = do
    kb ← tools.new_keyring args.keyring_backend (node_dir args i)
    algo ← read (λ _. tools.signing_algo kb args.algo)
    (addr, secret) ←
        or_clean_up args.output_dir (tools.generate_save_coin_key kb (node_dir_name args i) algo)
    cli_print ← read (λ _. tools.marshal_info secret)
    write_file (node_dir args i ++ (codes "key_seed.json" ∷ [])) (node_dir args i) cli_print
    pure (kb, addr)

  -- The genesis transaction of the node, signed and encoded.
  unfoldable pub make_gentx : Args → ℕ → K → Bytes → Bytes → Bytes → App Disk Bytes
  make_gentx args i kb addr pub_key memo = do
    msg ← read (λ _.
        tools.create_validator_msg addr pub_key (stake_or_default (at_index args.stakes i))
          (node_dir_name args i))
    unsigned ← read (λ _. tools.set_msgs msg)
    signed ← tools.sign args.chain_id memo kb (node_dir_name args i) unsigned
    read (λ _. tools.encode_tx signed)

  -- The body of the loop.
  unfoldable pub init_node : Args → AppConfig → ℕ → Built A → App Disk (Built A)
  init_node args app i built = do
    let config = node_config args i built.config
    or_clean_up args.output_dir (mkdir_all (node_dir args i ++ (codes "config" ∷ [])))
    (node_id, pub_key) ← or_clean_up args.output_dir (tools.initialize_node_validator_files config)
    let memo = memo_of args i node_id
    (kb, addr) ← make_key args i
    tx ← make_gentx args i kb addr pub_key memo
    write_file (gentx_file args i node_id) (gentxs_dir args i) tx
    tools.write_app_config (node_dir args i ++ (codes "config" ∷ (codes "app.toml" ∷ [])))
        (node_app_config args i app)
    pure (record {
      config = config;
      node_ids = built.node_ids ++ (node_id ∷ []);
      pub_keys = built.pub_keys ++ (pub_key ∷ []);
      peers = join_peer built.peers memo;
      gen_files = built.gen_files ++ (tools.genesis_file config ∷ []);
      gentx_files = built.gentx_files ++ (gentx_file args i node_id ∷ []);
      balances = built.balances ++ (account_balance addr ∷ []);
      accounts = built.accounts ++ (tools.base_account addr ∷ []);
    })

  -- The loop over n more nodes, from the i-th on.
  unfoldable pub init_nodes : Args → AppConfig → ℕ → ℕ → Built A → App Disk (Built A)
  init_nodes args app i zero built = pure built
  init_nodes args app i (suc n) built =
      init_node args app i built >>= λ next. init_nodes args app (suc i) n next
