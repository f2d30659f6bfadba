-- ===== src/ChainSpec.antt =====
-- cosmos/app/types/chain.go: the fork activation times, and the Engine API version that each
-- timestamp calls for. The proofs stand in the modules below.
pub mod Order
pub mod Versions
mod Tests
use nexus_node.Common.{
  ℕ, Bool, true, false, Option, none, some, Result, Done, ok, err, ◌>>=◌, ◌>>◌, fail_if, ltb, leb,
  if◌then◌else◌,
}

pub record ChainSpec : Type 0 where
  pub prague_timestamp : Option ℕ
  pub osaka_timestamp : Option ℕ
  pub amsterdam_timestamp : Option ℕ

pub data SpecError : Type 0 where
  prague_required osaka_before_prague osaka_required amsterdam_before_osaka : SpecError

-- One fork against its predecessor: unset passes, and a set one needs the other set and not later.
check_fork : Option ℕ → Option ℕ → SpecError → SpecError → Result SpecError Done
check_fork none predecessor missing early = ok tt
check_fork (some fork) none missing early = err missing
check_fork (some fork) (some predecessor) missing early = fail_if (ltb fork predecessor) early

unfoldable pub validate : ChainSpec → Result SpecError Done
unfolding check_fork
validate c = do
  check_fork c.osaka_timestamp c.prague_timestamp prague_required osaka_before_prague
  check_fork c.amsterdam_timestamp c.osaka_timestamp osaka_required amsterdam_before_osaka

-- `ts != nil && timestamp >= *ts`
active : Option ℕ → ℕ → Bool
active none timestamp = false
active (some ts) timestamp = leb ts timestamp

unfoldable pub is_prague_active : ChainSpec → ℕ → Bool
unfolding active
is_prague_active c timestamp = active c.prague_timestamp timestamp

unfoldable pub is_osaka_active : ChainSpec → ℕ → Bool
unfolding active
is_osaka_active c timestamp = active c.osaka_timestamp timestamp

unfoldable pub is_amsterdam_active : ChainSpec → ℕ → Bool
unfolding active
is_amsterdam_active c timestamp = active c.amsterdam_timestamp timestamp

unfoldable pub get_payload_engine_rpc_version : ChainSpec → ℕ → ℕ
get_payload_engine_rpc_version c timestamp =
    if is_osaka_active c timestamp then 5 else if is_prague_active c timestamp then 4 else 3

unfoldable pub new_payload_engine_rpc_version : ChainSpec → ℕ → ℕ
new_payload_engine_rpc_version c timestamp =
    if is_amsterdam_active c timestamp then 5 else if is_prague_active c timestamp then 4 else 3
