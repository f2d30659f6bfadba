-- ===== src/Config/Matrix.antt =====
-- The version matrix of a chain specification that cosmos/app/chain.go loaded.
use nexus_node.Common.{ℕ, ◌+◌, ◌≤◌, ◌≡◌, true, Option, ok, String}
use nexus_node.Common.Text.{Bytes}
use nexus_node.ChainSpec.{
  ChainSpec, is_prague_active, is_osaka_active, is_amsterdam_active, get_payload_engine_rpc_version,
  new_payload_engine_rpc_version,
}
use nexus_node.ChainSpec.Order.{active_cascade}
use nexus_node.ChainSpec.Versions.{version_monotone, new-le-get_version}
use nexus_node.Config.{File, load_chain_spec, load_chain_spec-validates}

-- Whatever the environment, the file and the decoder, in a chain specification that `LoadChainSpec`
-- returns Amsterdam is active only with Osaka and Osaka only with Prague, the newPayload version never
-- passes the getPayload version and is at most one behind it, and neither version goes back as time
-- passes.
pub loaded_matrix :
    (unmarshal : Bytes → Option ChainSpec) (path : String) (file : String → File) (spec : ChainSpec)
    (t u : ℕ)
    → load_chain_spec unmarshal path file ≡ ok spec
    → t ≤ u
    → (is_amsterdam_active spec t ≡ true → is_osaka_active spec t ≡ true)
      × (is_osaka_active spec t ≡ true → is_prague_active spec t ≡ true)
      × (new_payload_engine_rpc_version spec t ≤ get_payload_engine_rpc_version spec t)
      × (get_payload_engine_rpc_version spec t ≤ new_payload_engine_rpc_version spec t + 1)
      × (get_payload_engine_rpc_version spec t ≤ get_payload_engine_rpc_version spec u)
      × (new_payload_engine_rpc_version spec t ≤ new_payload_engine_rpc_version spec u)
loaded_matrix unmarshal path file spec t u loaded later =
    let good = load_chain_spec-validates unmarshal path file loaded in
    let (amsterdam, osaka) = active_cascade spec t good in
    let (below, near) = new-le-get_version spec t good in
    let (gets, news) = version_monotone spec t u later in
    (amsterdam, osaka, below, near, gets, news)
