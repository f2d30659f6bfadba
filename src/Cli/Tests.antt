-- ===== src/Cli/Tests.antt =====
-- The start of a node of the test network.
use nexus_node.Common.{true, false, [], ◌∷◌, some, Result, ok, ◌≡◌, ◌≢◌, refl, is_empty}
use nexus_node.Common.Text.{Bytes, codes, bytes_eq}
use nexus_node.Upgrades.Api.{Chain, done, failed}
use nexus_node.Testnet.Disk.{FilePath, Disk, lookup}
use nexus_node.Cli.{
  Command, genesis, is_embedded, materialize_embedded_genesis, names, format_network_list, path_of,
  join_bar, listed, sort_texts, insert_text, text_le,
}
use nexus_node.Cli.Written.{written, materialize_embedded_genesis-cases}

abbrev fs : Bytes → Result Chain Bytes
fs path = ok (codes "{}")

abbrev command : Command
command = record {
  name = codes "start";
  chain = some (codes "testnet");
  home = some (codes "home" ∷ []);
}

abbrev disk : Disk
disk = record { directories = []; files = [] }

materialize_embedded_genesis-cases_test :
    let after = materialize_embedded_genesis fs (codes "root" ∷ []) command disk in
    (is_empty (codes "testnet") ≡ true → after ≡ (done tt, disk))
    × (is_empty (codes "testnet") ≡ false
        → is_embedded (codes "testnet") ≡ false
        → after ≡ (failed ("the chain is not supported" ∷ []), disk))
    × (is_empty (codes "testnet") ≡ false
        → is_embedded (codes "testnet") ≡ true
        → command.name ≢ codes "start"
        → after ≡ (done tt, disk))
    × ((text : Bytes)
        → is_empty (codes "testnet") ≡ false
        → is_embedded (codes "testnet") ≡ true
        → command.name ≡ codes "start"
        → genesis fs (codes "testnet") ≡ ok text
        → (after.0 ≡ done tt)
          × ((p : FilePath)
              → lookup p after.1.files ≡ written fs (codes "root" ∷ []) command disk text p))
materialize_embedded_genesis-cases_test =
    materialize_embedded_genesis-cases fs (codes "root" ∷ []) command disk (codes "testnet") refl

embedded_test : is_embedded (codes "testnet") ≡ true
unfolding is_embedded path_of bytes_eq
embedded_test = refl

network_list_test : format_network_list ≡ codes "devnet|localnet|mainnet|testnet"
unfolding format_network_list join_bar listed names sort_texts insert_text text_le
network_list_test = refl
