-- ===== src/ChainSpec/Tests.antt =====
-- A specification with two forks.
use nexus_node.Common.{◌+◌, ◌≤◌, ◌≡◌, ◌↔◌, refl, true, Option, none, some, [], ok, String, arith}
use nexus_node.Common.Text.{Bytes}
use nexus_node.ChainSpec.{
  ChainSpec, validate, is_prague_active, is_osaka_active, is_amsterdam_active,
  get_payload_engine_rpc_version, new_payload_engine_rpc_version,
}
use nexus_node.ChainSpec.Order.{Follows, validate-iff-ordered}
use nexus_node.Config.Matrix.{loaded_matrix}
use nexus_node.Config.{File, load_chain_spec, read_config_file, read_file}

abbrev forks : ChainSpec
forks = record { prague_timestamp = some 10; osaka_timestamp = some 20; amsterdam_timestamp = none }

validate-iff-ordered_test : (validate forks ≡ ok tt) ↔ (
    Follows forks.prague_timestamp forks.osaka_timestamp
    × Follows forks.osaka_timestamp forks.amsterdam_timestamp)
validate-iff-ordered_test = validate-iff-ordered forks

-- A file system with one file, and a decoder that reads it as the forks.
abbrev disk : String → File
disk path = File.contents []

abbrev yaml : Bytes → Option ChainSpec
yaml b = some forks

forks_loaded : load_chain_spec yaml "config.yaml" disk ≡ ok forks
unfolding load_chain_spec validate read_config_file read_file
forks_loaded = refl

loaded_matrix_example :
    (is_amsterdam_active forks 5 ≡ true → is_osaka_active forks 5 ≡ true)
    × (is_osaka_active forks 5 ≡ true → is_prague_active forks 5 ≡ true)
    × (new_payload_engine_rpc_version forks 5 ≤ get_payload_engine_rpc_version forks 5)
    × (get_payload_engine_rpc_version forks 5 ≤ new_payload_engine_rpc_version forks 5 + 1)
    × (get_payload_engine_rpc_version forks 5 ≤ get_payload_engine_rpc_version forks 25)
    × (new_payload_engine_rpc_version forks 5 ≤ new_payload_engine_rpc_version forks 25)
loaded_matrix_example = loaded_matrix yaml "config.yaml" disk forks 5 25 forks_loaded (omega arith)
