-- ===== src/Testnet/Ports.antt =====
-- The ports of the nodes, where the command chooses them.
use nexus_node.Common.{
  ℕ, zero, suc, ◌+◌, ◌-◌, ◌*◌, ◌<◌, ◌≤◌, List, [], ◌∷◌, ◌++◌, some, ◌≡◌, refl, ap, ◌∙◌, arith,
}
use nexus_node.Common.Text.{Bytes, codes}
use nexus_node.Common.Decimal.{format_uint}
use nexus_node.Testnet.Args.{Args, itoa_diff, at_index, default_ports, parse_ports}
use nexus_node.Testnet.Nodes.{
  NodeConfig, AppConfig, memo_of, node_app_config, port_of, text_or_empty,
}
use nexus_node.Testnet.Collect.{collected_config}

pub data Server : Type 0 where
  peer rpc proxy prometheus grpc api : Server

-- The port of a server of the i-th node.
abbrev pub port : Server → ℕ → ℕ
port peer i = 26656 - 3 * i
port rpc i = 26657 - 3 * i
port proxy i = 26658 - 3 * i
port prometheus i = 26660 + i
port grpc i = 9090 - 2 * i
port api i = 1317 - i

itoa_diff-positive : (a b : ℕ) → b ≤ a → itoa_diff a b ≡ format_uint (a - b)
unfolding itoa_diff
itoa_diff-positive a b h = ground arith

default_ports-at :
    (i n k : ℕ) → k < n → at_index (default_ports i n) k ≡ some (itoa_diff 26657 (3 * (i + k)))
unfolding default_ports at_index
default_ports-at i zero k h = absurd (omega arith)
default_ports-at i (suc n) zero h = ap (λ m. some (itoa_diff 26657 (3 * m))) (omega arith)
default_ports-at i (suc n) (suc k) h =
    default_ports-at (suc i) n k (omega arith)
    ∙ ap (λ m. some (itoa_diff 26657 (3 * m))) (omega arith)

positive : (s : Server) (i : ℕ) → i < 1317 → 0 < port s i
positive peer i h = omega arith
positive rpc i h = omega arith
positive proxy i h = omega arith
positive prometheus i h = omega arith
positive grpc i h = omega arith
positive api i h = omega arith

distinct : (s t : Server) (i j : ℕ) → i < 1317 → j < 1317 → port s i ≡ port t j → (s ≡ t) × (i ≡ j)
distinct peer peer i j a b e = (refl, omega arith)
distinct peer rpc i j a b e = absurd (omega arith)
distinct peer proxy i j a b e = absurd (omega arith)
distinct peer prometheus i j a b e = absurd (omega arith)
distinct peer grpc i j a b e = absurd (omega arith)
distinct peer api i j a b e = absurd (omega arith)
distinct rpc peer i j a b e = absurd (omega arith)
distinct rpc rpc i j a b e = (refl, omega arith)
distinct rpc proxy i j a b e = absurd (omega arith)
distinct rpc prometheus i j a b e = absurd (omega arith)
distinct rpc grpc i j a b e = absurd (omega arith)
distinct rpc api i j a b e = absurd (omega arith)
distinct proxy peer i j a b e = absurd (omega arith)
distinct proxy rpc i j a b e = absurd (omega arith)
distinct proxy proxy i j a b e = (refl, omega arith)
distinct proxy prometheus i j a b e = absurd (omega arith)
distinct proxy grpc i j a b e = absurd (omega arith)
distinct proxy api i j a b e = absurd (omega arith)
distinct prometheus peer i j a b e = absurd (omega arith)
distinct prometheus rpc i j a b e = absurd (omega arith)
distinct prometheus proxy i j a b e = absurd (omega arith)
distinct prometheus prometheus i j a b e = (refl, omega arith)
distinct prometheus grpc i j a b e = absurd (omega arith)
distinct prometheus api i j a b e = absurd (omega arith)
distinct grpc peer i j a b e = absurd (omega arith)
distinct grpc rpc i j a b e = absurd (omega arith)
distinct grpc proxy i j a b e = absurd (omega arith)
distinct grpc prometheus i j a b e = absurd (omega arith)
distinct grpc grpc i j a b e = (refl, omega arith)
distinct grpc api i j a b e = absurd (omega arith)
distinct api peer i j a b e = absurd (omega arith)
distinct api rpc i j a b e = absurd (omega arith)
distinct api proxy i j a b e = absurd (omega arith)
distinct api prometheus i j a b e = absurd (omega arith)
distinct api grpc i j a b e = absurd (omega arith)
distinct api api i j a b e = (refl, omega arith)

-- With no list of ports, each of up to 1317 nodes listens on these ports, and names the port of its
-- peers to the others as it listens on it. No two servers of any of the nodes share a port, and every
-- port is positive.
pub ports-distinct :
    (args : Args) (app : AppConfig) (config : NodeConfig) (peers node_id : Bytes)
    → args.num_validators ≤ 1317
    → args.ports ≡ parse_ports [] args.num_validators
    → ((i : ℕ)
        → i < args.num_validators
        → let own = collected_config args peers i config in
          let served = node_app_config args i app in
          (own.p2p_listen ≡ codes "tcp://0.0.0.0:" ++ format_uint (port peer i))
          × (own.rpc_listen ≡ codes "tcp://127.0.0.1:" ++ format_uint (port rpc i))
          × (own.proxy_app ≡ codes "tcp://127.0.0.1:" ++ format_uint (port proxy i))
          × (own.prometheus_listen ≡ b':' ∷ format_uint (port prometheus i))
          × (served.grpc_address ≡ args.starting_ip_address ++ (b':' ∷ format_uint (port grpc i)))
          × (served.api_address ≡ codes "tcp://localhost:" ++ format_uint (port api i))
          × (memo_of args i node_id
              ≡ node_id
                ++ (b'@' ∷ (args.starting_ip_address ++ (b':' ∷ format_uint (port peer i))))))
      × ((s t : Server) (i j : ℕ)
          → i < args.num_validators
          → j < args.num_validators
          → (0 < port s i) × (port s i ≡ port t j → (s ≡ t) × (i ≡ j)))
unfolding parse_ports
ports-distinct args app config peers node_id few given = (
  λ i h.
      let listed : port_of args i ≡ format_uint (port rpc i) =
        ap (λ (ps : List Bytes). text_or_empty (at_index ps i)) given
        ∙ (ap text_or_empty (default_ports-at 0 args.num_validators i h)
            ∙ itoa_diff-positive 26657 (3 * (0 + i)) (omega arith)
            ∙ ap format_uint (omega arith)) in
      (
        ap (λ t. codes "tcp://0.0.0.0:" ++ t) (itoa_diff-positive 26656 (3 * i) (omega arith)),
        ap (λ t. codes "tcp://127.0.0.1:" ++ t) listed,
        ap (λ t. codes "tcp://127.0.0.1:" ++ t) (itoa_diff-positive 26658 (3 * i) (omega arith)),
        refl,
        ap (λ t. args.starting_ip_address ++ (b':' ∷ t))
            (itoa_diff-positive 9090 (2 * i) (omega arith)),
        ap (λ t. codes "tcp://localhost:" ++ t) (itoa_diff-positive 1317 i (omega arith)),
        ap (λ t. node_id ++ (b'@' ∷ (args.starting_ip_address ++ (b':' ∷ t))))
            (itoa_diff-positive 26656 (3 * i) (omega arith)),
      ),
  λ s t i j hi hj. (positive s i (omega arith), distinct s t i j (omega arith) (omega arith)),
)
