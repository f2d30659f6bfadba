-- ===== src/Genesis/Tests.antt =====
-- A text of hashes that keeps one hash only, and JSON that is a few numbers.
use nexus_node.Common.{
  ◌≡◌, ◌⊎◌, refl, [], ◌∷◌, Option, none, some, Done, ok, err, Bool, true, false, ◌&&◌, str_eq,
  eq_iff, arith, if◌then◌else◌, String,
}
use nexus_node.Common.Text.{Bytes, has_prefix}
use nexus_node.Evm.State.{BlockState}
use nexus_node.Genesis.{HashText, GenesisState, Store, export_genesis, export_state}
use nexus_node.Genesis.Roundtrip.{HashLaws}
use nexus_node.Genesis.Module.{
  GenesisJson, module_export_genesis, module_validate_genesis, module_init_genesis,
  module_export-init,
}
use nexus_node.Genesis.Params.{UpdateError, update_params, query_params, update_params-query}

abbrev seven : HashText
seven = record {
  hex = λ h. "0x0000000000000000000000000000000000000000000000000000000000000007";
  hex_to_hash = λ s. 7;
}

abbrev running : BlockState
running = record { hash = 7; height = 5; timestamp = 100 }

abbrev empty : Store Done
empty = record { stored_params = none; block_state = none }

seven-HashLaws : HashLaws seven 7
unfolding has_prefix
seven-HashLaws = record { read_back = refl; not_empty = refl; size = refl; prefix = refl }

abbrev seven_text : String
seven_text = "0x0000000000000000000000000000000000000000000000000000000000000007"

abbrev store : Store Done
store = record { stored_params = some tt; block_state = some running }

-- A file of the codec is height and timestamp; every other one is an older file, without a hash.
abbrev read_numbers : Bytes → GenesisState Done × Bool
read_numbers (height ∷ time ∷ []) = (
  record {
    params = tt;
    genesis_execution_block_hash = seven_text;
    current_block_hash = seven_text;
    current_block_height = height;
    current_block_timestamp = time;
  },
  true,
)
read_numbers _ = (
  record {
    params = tt;
    genesis_execution_block_hash = "";
    current_block_hash = "";
    current_block_height = 0;
    current_block_timestamp = 0;
  },
  false,
)

-- A genesis of another hash is not written.
abbrev write_numbers : GenesisState Done → Option Bytes
write_numbers gs =
    if str_eq gs.genesis_execution_block_hash seven_text && str_eq gs.current_block_hash seven_text
    then some (gs.current_block_height ∷ gs.current_block_timestamp ∷ [])
    else none

abbrev json : GenesisJson Done
json = record {
  unmarshal = read_numbers;
  unmarshal_std = λ b partial. some partial;
  marshal = write_numbers;
}

json_reads :
    (gs : GenesisState Done) (c : Bytes) → write_numbers gs ≡ some c → read_numbers c ≡ (gs, true)
json_reads gs c h =
    let same = (eq_iff gs.genesis_execution_block_hash seven_text).0 in
    let same' = (eq_iff gs.current_block_hash seven_text).0 in ground (arith, same, same')

exports : module_export_genesis seven json store ≡ ok (5 ∷ 100 ∷ [])
unfolding module_export_genesis export_genesis export_state
exports = refl

module_export-init_example :
    (module_validate_genesis json (λ p. true) (5 ∷ 100 ∷ []) ≡ ok tt)
    × (module_init_genesis seven json (5 ∷ 100 ∷ []) empty ≡ (ok tt, store))
module_export-init_example =
    module_export-init seven json (λ p. true) tt running empty (5 ∷ 100 ∷ []) seven-HashLaws
      json_reads refl exports

abbrev governance : String → Option Bytes
governance a = if str_eq a "gov" then some (1 ∷ []) else some (2 ∷ [])

update_params-query_test :
    let (r, s') = update_params governance (1 ∷ []) (λ p. true) "gov" tt store in
    ((r ≡ ok tt)
      × (governance "gov" ≡ some (1 ∷ []))
      × (true ≡ true)
      × (query_params tt s' ≡ tt)
      × (s'.block_state ≡ some running))
    ⊎ ((e : UpdateError) × (r ≡ err e) × (s' ≡ store))
update_params-query_test = update_params-query governance (1 ∷ []) (λ p. true) tt "gov" tt store
