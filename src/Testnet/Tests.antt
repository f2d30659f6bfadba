-- ===== src/Testnet/Tests.antt =====
-- A network of two nodes.
use nexus_node.Common.{
  ℕ, zero, suc, ◌<◌, true, false, List, [], ◌∷◌, ◌++◌, Option, none, some, ◌≡◌, refl, All, arith,
  map, if◌then◌else◌,
}
use nexus_node.Common.Text.{Bytes, codes, bytes_eq, has_prefix}
use nexus_node.Common.Decimal.{format_uint}
use nexus_node.Upgrades.Api.{done}
use nexus_node.Testnet.Disk.{Disk, path_eq, has_dir, is_above, lookup}
use nexus_node.Testnet.Args.{add_stake, Args, Amount, parse_stakes, parse_ports}
use nexus_node.Testnet.Nodes.{NodeConfig, AppConfig, gentxs_dir, memo_of, node_app_config}
use nexus_node.Testnet.Collect.{copy_gentxs, collected_config}
use nexus_node.Testnet.Paths.{in_dir}
use nexus_node.Testnet.Everywhere.{Gentx, file_of, copy_gentxs-everywhere}
use nexus_node.Testnet.Ports.{Server, port, ports-distinct}
use nexus_node.Testnet.Stakes.{parse_stakes-readable, stakes_of, readable}

abbrev two_nodes : Args
two_nodes = record {
  algo = codes "secp256k1";
  chain_id = codes "local";
  keyring_backend = codes "test";
  min_gas_prices = [];
  node_dir_prefix = codes "v";
  num_validators = 2;
  output_dir = codes "net" ∷ [];
  starting_ip_address = codes "localhost";
  stakes = [];
  ports = parse_ports [] 2;
}

abbrev gentx : ℕ → Bytes → Bytes → Gentx
gentx i name text = record { owner = gentxs_dir two_nodes i; name = name; text = text }

abbrev gentxs : List Gentx
gentxs =
    gentx 0 (codes "gentx-a.json") (codes "A") ∷ (gentx 1 (codes "gentx-b.json") (codes "B") ∷ [])

abbrev content : Bytes → Option Bytes
content name =
    if bytes_eq name (codes "gentx-a.json")
    then some (codes "A")
    else if bytes_eq name (codes "gentx-b.json")
    then some (codes "B")
    else none

abbrev disk : Disk
disk = record {
  directories = gentxs_dir two_nodes 0 ∷ (gentxs_dir two_nodes 1 ∷ []);
  files = map (λ (x : Gentx). (file_of x, x.text)) gentxs;
}

all_made : (j : ℕ) → j < 2 → has_dir (gentxs_dir two_nodes j) disk.directories ≡ true
unfolding has_dir is_above bytes_eq format_uint
all_made zero h = refl
all_made (suc zero) h = refl
all_made (suc (suc j)) h = absurd (omega arith)

copy_gentxs-everywhere_example :
    let after = copy_gentxs two_nodes (map file_of gentxs) 0 2 disk in
    (after.0 ≡ done tt)
    × ((j : ℕ)
        → j < 2
        → All
            (λ x. lookup (in_dir (gentxs_dir two_nodes j) x.name) after.1.files ≡ some x.text)
            gentxs)
unfolding bytes_eq has_prefix lookup path_eq format_uint
copy_gentxs-everywhere_example =
    copy_gentxs-everywhere content two_nodes gentxs ((refl, refl, refl), ((refl, refl, refl), tt)) 2
      disk (refl, (refl, tt)) all_made

abbrev config : NodeConfig
config = record {
  root_dir = [];
  moniker = [];
  rpc_listen = [];
  persistent_peers = [];
  allow_duplicate_ip = false;
  p2p_listen = [];
  proxy_app = [];
  prometheus_listen = [];
  prometheus = false;
}

abbrev app : AppConfig
app = record {
  min_gas_prices = [];
  api_enable = true;
  hostname_label = true;
  telemetry = true;
  retention_time = 60;
  grpc_address = [];
  api_address = [];
}

ports-distinct_example :
    ((i : ℕ)
      → i < 2
      → let own = collected_config two_nodes (codes "peers") i config in
        let served = node_app_config two_nodes i app in
        (own.p2p_listen ≡ codes "tcp://0.0.0.0:" ++ format_uint (port Server.peer i))
        × (own.rpc_listen ≡ codes "tcp://127.0.0.1:" ++ format_uint (port Server.rpc i))
        × (own.proxy_app ≡ codes "tcp://127.0.0.1:" ++ format_uint (port Server.proxy i))
        × (own.prometheus_listen ≡ b':' ∷ format_uint (port Server.prometheus i))
        × (served.grpc_address
            ≡ two_nodes.starting_ip_address ++ (b':' ∷ format_uint (port Server.grpc i)))
        × (served.api_address ≡ codes "tcp://localhost:" ++ format_uint (port Server.api i))
        × (memo_of two_nodes i (codes "id")
            ≡ codes "id"
              ++ (b'@'
                  ∷ (two_nodes.starting_ip_address ++ (b':' ∷ format_uint (port Server.peer i))))))
    × ((s t : Server) (i j : ℕ)
        → i < 2
        → j < 2
        → (0 < port s i) × (port s i ≡ port t j → (s ≡ t) × (i ≡ j)))
ports-distinct_example =
    ports-distinct two_nodes app config (codes "peers") (codes "id") (omega arith) refl

-- A text stands for its first byte here; the empty text is no integer.
abbrev new_int : Bytes → Option Amount
new_int [] = none
new_int (c ∷ s) = some (record { negative = false; magnitude = c })

abbrev amounts : List Bytes
amounts = [] ∷ ((9 ∷ []) ∷ [])

parse_stakes-readable_test : parse_stakes new_int amounts ≡ stakes_of (readable new_int amounts)
parse_stakes-readable_test = parse_stakes-readable new_int amounts

-- The first amount is empty, and the first node gets the second one.
shifted_test : parse_stakes new_int amounts ≡ done (9 ∷ [])
unfolding parse_stakes add_stake
shifted_test = refl
