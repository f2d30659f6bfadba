-- ===== src/Testnet/Args.antt =====
-- The flags of the command: what `RunE` reads before it calls `initTestnetFiles`.
use nexus_node.Common.{
  ℕ, zero, suc, ◌-◌, ◌*◌, Bool, List, [], ◌∷◌, ◌++◌, Option, none, some, if◌then◌else◌, leb, ◌==◌,
  is_empty,
}
use nexus_node.Common.Text.{Bytes}
use nexus_node.Common.Decimal.{format_uint}
use nexus_node.Upgrades.Api.{Out, done, failed, panicked}

-- `strings.Split(s, ",")`
unfoldable pub split_on : ℕ → Bytes → Bytes → List Bytes
split_on sep part [] = part ∷ []
split_on sep part (c ∷ s) =
    let here = part ∷ split_on sep [] s in
    let on = split_on sep (part ++ (c ∷ [])) s in if c == sep then here else on

abbrev pub split : Bytes → List Bytes
split s = split_on b',' [] s

-- `strconv.Itoa(a - b)`
unfoldable pub itoa_diff : ℕ → ℕ → Bytes
itoa_diff a b = if leb b a then format_uint (a - b) else b'-' ∷ format_uint (b - a)

-- An amount that `math.NewIntFromString` reads.
pub record Amount : Type 0 where
  pub negative : Bool
  pub magnitude : ℕ

pub record Args : Type 0 where
  pub algo : Bytes
  pub chain_id : Bytes
  pub keyring_backend : Bytes
  pub min_gas_prices : Bytes
  pub node_dir_prefix : Bytes
  pub num_validators : ℕ
  pub output_dir : List Bytes
  pub starting_ip_address : Bytes
  -- The maps from an index, which the code fills from 0 without a gap.
  pub stakes : List ℕ
  pub ports : List Bytes

-- `m[i]` of such a map.
unfoldable pub at_index {ℓ} : {A : Type ℓ} → List A → ℕ → Option A
at_index [] i = none
at_index (x ∷ xs) zero = some x
at_index (x ∷ xs) (suc i) = at_index xs i

-- Whether an amount is read, and then how: `sdk.NewCoin` panics at a negative amount.
unfoldable pub add_stake : Option Amount → Out (List ℕ) → Out (List ℕ)
add_stake none rest = rest
add_stake (some n) (done amounts) =
    if n.negative then panicked ("negative coin amount" ∷ []) else done (n.magnitude ∷ amounts)
add_stake (some n) other = if n.negative then panicked ("negative coin amount" ∷ []) else other

-- The amounts in the order of the flag; one that is no integer is skipped.
unfoldable pub parse_stakes : (Bytes → Option Amount) → List Bytes → Out (List ℕ)
parse_stakes new_int [] = done []
parse_stakes new_int (amount ∷ rest) = add_stake (new_int amount) (parse_stakes new_int rest)

-- 26657, 26654, …: the ports from the i-th node on, of n more nodes.
unfoldable pub default_ports : ℕ → ℕ → List Bytes
default_ports i zero = []
default_ports i (suc n) = itoa_diff 26657 (3 * i) ∷ default_ports (suc i) n

unfoldable pub parse_ports : Bytes → ℕ → List Bytes
parse_ports s num_validators = if is_empty s then default_ports 0 num_validators else split s

-- The values of the flags.
pub record Flags : Type 0 where
  pub output_dir : List Bytes
  pub keyring_backend : Bytes
  pub chain_id : Bytes
  pub min_gas_prices : Bytes
  pub node_dir_prefix : Bytes
  pub starting_ip_address : Bytes
  pub num_validators : ℕ
  pub algo : Bytes
  pub stakes : Bytes
  pub ports : Bytes

args_of : Flags → Out (List ℕ) → Out Args
args_of f (done stakes) = done (record {
  algo = f.algo;
  chain_id = f.chain_id;
  keyring_backend = f.keyring_backend;
  min_gas_prices = f.min_gas_prices;
  node_dir_prefix = f.node_dir_prefix;
  num_validators = f.num_validators;
  output_dir = f.output_dir;
  starting_ip_address = f.starting_ip_address;
  stakes = stakes;
  ports = parse_ports f.ports f.num_validators;
})
args_of f (failed e) = failed e
args_of f (panicked e) = panicked e

unfoldable pub read_args : (Bytes → Option Amount) → Flags → Out Args
unfolding args_of
read_args new_int f = args_of f (parse_stakes new_int (split f.stakes))
