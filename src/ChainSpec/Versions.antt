-- ===== src/ChainSpec/Versions.antt =====
-- The version matrix of the Engine API.
use nexus_node.Common.{ℕ, ◌+◌, ◌≤◌, ◌≡◌, ok, arith}
use nexus_node.ChainSpec.{
  ChainSpec, validate, is_prague_active, is_osaka_active, is_amsterdam_active,
  get_payload_engine_rpc_version, new_payload_engine_rpc_version,
}

-- As time passes neither Engine API version goes back, whatever the specification.
pub version_monotone :
    (c : ChainSpec) (t u : ℕ)
    → t ≤ u
    → (get_payload_engine_rpc_version c t ≤ get_payload_engine_rpc_version c u)
      × (new_payload_engine_rpc_version c t ≤ new_payload_engine_rpc_version c u)
unfolding get_payload_engine_rpc_version new_payload_engine_rpc_version is_prague_active
    is_osaka_active is_amsterdam_active
version_monotone c t u h = (ground arith, ground arith)

-- Under a specification that `Validate` accepts, the newPayload version never passes the getPayload
-- version and is at most one behind it.
pub new-le-get_version :
    (c : ChainSpec) (t : ℕ)
    → validate c ≡ ok tt
    → (new_payload_engine_rpc_version c t ≤ get_payload_engine_rpc_version c t)
      × (get_payload_engine_rpc_version c t ≤ new_payload_engine_rpc_version c t + 1)
unfolding validate get_payload_engine_rpc_version new_payload_engine_rpc_version is_prague_active
    is_osaka_active is_amsterdam_active
new-le-get_version c t h = (ground arith, ground arith)
