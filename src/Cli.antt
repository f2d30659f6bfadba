-- ===== src/Cli.antt =====
-- cosmos/genesis/genesis.go and `materializeEmbeddedGenesis` and `formatNetworkList` of
-- cosmos/cmd/nexusd/cmd/root.go: the genesis files in the binary, and the command line that writes
-- one. The embedded file system is an argument; the disk is that of the testnet commands.
mod Written
mod Exported
mod Tests
use nexus_node.Common.{
  ℕ, Bool, true, false, not, ◌&&◌, ◌||◌, List, [], ◌∷◌, ◌++◌, map, Option, none, some, String,
  Result, ok, err, if◌then◌else◌, is_empty, ltb, ◌==◌,
}
use nexus_node.Common.Text.{Bytes, codes, bytes_eq}
use nexus_node.Upgrades.Api.{Chain, App, Out, done, failed, ◌>>=◌, ◌>>◌, pure, fail, read, wrap}
use nexus_node.Testnet.Disk.{FilePath, Disk, mkdir_all, create, dir}

-- `genesisPaths`
abbrev pub genesis_paths : List (Bytes × Bytes)
genesis_paths =
    (codes "localnet", codes "chain-specs/localnet/cosmos.json")
    ∷ ((codes "devnet", codes "chain-specs/devnet/cosmos.json")
        ∷ ((codes "testnet", codes "chain-specs/testnet/cosmos.json")
            ∷ ((codes "mainnet", codes "chain-specs/mainnet/cosmos.json") ∷ [])))

-- The order of `sort.Strings`.
unfoldable pub text_le : Bytes → Bytes → Bool
text_le [] t = true
text_le (c ∷ s) [] = false
text_le (c ∷ s) (d ∷ t) = ltb c d || (c == d && text_le s t)

unfoldable pub insert_text : Bytes → List Bytes → List Bytes
insert_text s [] = s ∷ []
insert_text s (t ∷ ts) =
    let rest = insert_text s ts in if text_le s t then s ∷ (t ∷ ts) else t ∷ rest

unfoldable pub sort_texts : List Bytes → List Bytes
sort_texts [] = []
sort_texts (t ∷ ts) = insert_text t (sort_texts ts)

unfoldable pub names : List Bytes
names = sort_texts (map (λ (p : Bytes × Bytes). p.0) genesis_paths)

unfoldable pub path_of : Bytes → List (Bytes × Bytes) → Option Bytes
path_of name [] = none
path_of name ((n, p) ∷ rest) = if bytes_eq n name then some p else path_of name rest

abbrev pub is_there : Option Bytes → Bool
is_there none = false
is_there (some p) = true

unfoldable pub is_embedded : Bytes → Bool
is_embedded name = is_there (path_of name genesis_paths)

read_embedded : (Bytes → Result Chain Bytes) → Option Bytes → Result Chain Bytes
read_embedded fs none = err ("no embedded genesis" ∷ [])
read_embedded fs (some path) = fs path

-- `Genesis`; `fs` is `fs.ReadFile` of the embedded files.
unfoldable pub genesis : (Bytes → Result Chain Bytes) → Bytes → Result Chain Bytes
unfolding read_embedded
genesis fs name = read_embedded fs (path_of name genesis_paths)

join_bar : List Bytes → Bytes
join_bar [] = []
join_bar (n ∷ ns) = b'|' ∷ (n ++ join_bar ns)

listed : List Bytes → Bytes
listed [] = []
listed (n ∷ ns) = n ++ join_bar ns

unfoldable pub format_network_list : Bytes
unfolding join_bar listed
format_network_list = listed names

-- A command: its name, and its flags, `none` where the flag cannot be read.
pub record Command : Type 0 where
  pub name : Bytes
  pub chain : Option Bytes
  pub home : Option FilePath

-- `home`, or `app.DefaultNodeHome` where the flag is empty.
abbrev pub home_of : FilePath → Option FilePath → FilePath
home_of default none = default
home_of default (some []) = default
home_of default (some (a ∷ p)) = a ∷ p

abbrev pub genesis_target : FilePath → FilePath
genesis_target home = home ++ (codes "config" ∷ (codes "genesis.json" ∷ []))

write_genesis : (Bytes → Result Chain Bytes) → FilePath → Bytes → App Disk Unit
write_genesis fs home chain = do
  embedded ← read (λ _. genesis fs chain)
  wrap "create config dir" (mkdir_all (dir (genesis_target home)))
  wrap "write embedded genesis" (create (genesis_target home) embedded)

for_chain : (Bytes → Result Chain Bytes) → FilePath → Command → Bytes → App Disk Unit
for_chain fs default cmd chain d =
    if is_empty chain
    then (done tt, d)
    else if not (is_embedded chain)
    then (failed ("the chain is not supported" ∷ []), d)
    else if not (bytes_eq cmd.name (codes "start"))
    then (done tt, d)
    else write_genesis fs (home_of default cmd.home) chain d

chosen : (Bytes → Result Chain Bytes) → FilePath → Command → Option Bytes → App Disk Unit
chosen fs default cmd none = pure tt
chosen fs default cmd (some chain) = for_chain fs default cmd chain

unfoldable pub materialize_embedded_genesis :
    (Bytes → Result Chain Bytes) → FilePath → Command → App Disk Unit
unfolding write_genesis for_chain chosen
materialize_embedded_genesis fs default cmd = chosen fs default cmd cmd.chain
