-- ===== src/Testnet/Collect.antt =====
-- The genesis files of the nodes: `initGenFiles`, the copying of the genesis transactions,
-- `collectGenFiles`, and `initTestnetFiles` as a whole.
use nexus_node.Common.{
  ℕ, zero, suc, ◌+◌, ◌*◌, true, List, [], ◌∷◌, ◌++◌, Option, none, some, Result, if◌then◌else◌,
  is_empty,
}
use nexus_node.Common.Text.{Bytes, codes}
use nexus_node.Common.Decimal.{format_uint}
use nexus_node.Upgrades.Api.{Chain, App, ◌>>=◌, ◌>>◌, pure, read}
use nexus_node.Testnet.Disk.{FilePath, Disk, copy_file, is_sub_dir}
use nexus_node.Testnet.Args.{Args, itoa_diff, at_index}
use nexus_node.Testnet.Nodes.{
  Coin, Balance, NodeConfig, AppConfig, Tools, Built, node_dir_name, node_dir, gentxs_dir, port_of,
  text_or_empty, app_config, init_nodes,
}

-- The calls on genesis files. `S` is the state of an application, in JSON.
pub record GenesisTools (A S : Type 0) : Type 0 where
  -- `DefaultGenesis` with the accounts, the balances and the supply put in, indented.
  pub pack_accounts : List A → Result Chain (List A)
  pub sanitize_balances : List Balance → List Balance
  pub marshal_state : List A → List Balance → List Coin → Result Chain S
  -- Add an amount to the coins, as `Coins.Add` does.
  pub add_coin : List Coin → Coin → List Coin
  pub save_genesis_doc : Bytes → S → FilePath → App Disk Unit
  -- The genesis that a file holds.
  pub app_genesis_from_file : FilePath → App Disk S
  -- Chain id, directory of the genesis transactions, node, key, genesis.
  pub gen_app_state : NodeConfig → Bytes → FilePath → Bytes → Bytes → S → App Disk S
  pub write_config_file : FilePath → NodeConfig → App Disk Unit
  pub export_genesis_file_with_time : FilePath → Bytes → S → ℕ → App Disk Unit

module _ {A S : Type 0} (g : GenesisTools A S) where
  unfoldable pub add_coins : List Coin → List Coin → List Coin
  add_coins supply [] = supply
  add_coins supply (c ∷ cs) = add_coins (g.add_coin supply c) cs

  -- The sum of the coins of the balances.
  unfoldable pub supply_of : List Coin → List Balance → List Coin
  supply_of supply [] = supply
  supply_of supply (b ∷ bs) = supply_of (add_coins supply b.coins) bs

  -- `genFiles[i]` for each i below the number of validators.
  unfoldable pub save_all : Bytes → S → List FilePath → App Disk Unit
  save_all chain_id state [] = pure tt
  save_all chain_id state (file ∷ files) =
      g.save_genesis_doc chain_id state file >> save_all chain_id state files

  unfoldable pub init_gen_files : Bytes → List A → List Balance → List FilePath → App Disk Unit
  init_gen_files chain_id gen_accounts gen_balances gen_files = do
    accounts ← read (λ _. g.pack_accounts gen_accounts)
    let balances = g.sanitize_balances gen_balances
    state ← read (λ _. g.marshal_state accounts balances (supply_of [] balances))
    save_all chain_id state gen_files

-- Copy a file into a directory, unless it lies there.
unfoldable pub copy_unless_inside : FilePath → FilePath → App Disk Unit
copy_unless_inside gentxs file d =
    if is_sub_dir file gentxs then pure tt d else copy_file file gentxs d

unfoldable pub copy_into : FilePath → List FilePath → App Disk Unit
copy_into gentxs [] = pure tt
copy_into gentxs (file ∷ files) = copy_unless_inside gentxs file >> copy_into gentxs files

-- The nested loops that give every node every genesis transaction, from the i-th node on.
unfoldable pub copy_gentxs : Args → List FilePath → ℕ → ℕ → App Disk Unit
copy_gentxs args files i zero = pure tt
copy_gentxs args files i (suc n) =
    copy_into (gentxs_dir args i) files >> copy_gentxs args files (suc i) n

-- The configuration that a node is left with.
abbrev pub collected_config : Args → Bytes → ℕ → NodeConfig → NodeConfig
collected_config args peers i config = record config {
  moniker = node_dir_name args i;
  root_dir = node_dir args i;
  persistent_peers = peers;
  allow_duplicate_ip = true;
  p2p_listen = codes "tcp://0.0.0.0:" ++ itoa_diff 26656 (3 * i);
  rpc_listen = codes "tcp://127.0.0.1:" ++ port_of args i;
  proxy_app = codes "tcp://127.0.0.1:" ++ itoa_diff 26658 (3 * i);
  prometheus_listen = b':' ∷ format_uint (26660 + i);
  prometheus = true;
}

module _ {K M T A S : Type 0} (tools : Tools K M T A) (g : GenesisTools A S) (gen_time : ℕ) where
  -- The first state is the one that every node gets.
  abbrev pub canonical : Option S → S → S
  canonical none own = own
  canonical (some state) own = state

  unfoldable pub collect_node :
      Args → Built A → Option S → NodeConfig → ℕ → App Disk (S × NodeConfig)
  collect_node args built state config i = do
    let own_config = record config { moniker = node_dir_name args i; root_dir = node_dir args i }
    genesis ← g.app_genesis_from_file (tools.genesis_file own_config)
    own ←
        g.gen_app_state own_config args.chain_id (gentxs_dir args i)
          (text_or_empty (at_index built.node_ids i)) (text_or_empty (at_index built.pub_keys i))
          genesis
    let full = collected_config args built.peers i config
    g.write_config_file (node_dir args i ++ (codes "config" ∷ (codes "config.toml" ∷ []))) full
    g.export_genesis_file_with_time (tools.genesis_file full) args.chain_id (canonical state own)
        gen_time
    pure (canonical state own, full)

  unfoldable pub collect_gen_files : Args → Built A → Option S → NodeConfig → ℕ → ℕ → App Disk Unit
  collect_gen_files args built state config i zero = pure tt
  collect_gen_files args built state config i (suc n) =
      collect_node args built state config i >>= λ r.
      collect_gen_files args built (some r.0) r.1 (suc i) n

  abbrev pub nothing_built : NodeConfig → Built A
  nothing_built config = record {
    config = config;
    node_ids = [];
    pub_keys = [];
    peers = [];
    gen_files = [];
    gentx_files = [];
    balances = [];
    accounts = [];
  }

  -- `args.chainID`, or one with random letters.
  abbrev pub named : Bytes → Args → Args
  named random_string args = record args {
    chain_id = if is_empty args.chain_id then codes "chain-" ++ random_string else args.chain_id;
  }

  unfoldable pub init_testnet_files : Bytes → AppConfig → NodeConfig → Args → App Disk Unit
  init_testnet_files random_string default config given = do
    let args = named random_string given
    built ←
        init_nodes tools args (app_config tools args default) 0 args.num_validators
          (nothing_built config)
    init_gen_files g args.chain_id built.accounts built.balances built.gen_files
    copy_gentxs args built.gentx_files 0 args.num_validators
    collect_gen_files args built none built.config 0 args.num_validators

-- The random letters: `charset[seededRand.Intn(len(charset))]` for each draw.
abbrev pub charset : Bytes
charset = codes "abcdefghijklmnopqrstuvwxyz0123456789"

text_char : Option ℕ → Bytes → Bytes
text_char none s = s
text_char (some c) s = c ∷ s

-- The letters from the i-th draw on, n in all.
unfoldable pub generate_random_string : (ℕ → ℕ) → ℕ → ℕ → Bytes
unfolding text_char
generate_random_string draw i zero = []
generate_random_string draw i (suc n) =
    text_char (at_index charset (draw i)) (generate_random_string draw (suc i) n)
