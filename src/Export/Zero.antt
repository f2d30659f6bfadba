-- ===== src/Export/Zero.antt =====
-- The stores after `prepForZeroHeightGenesis`.
use nexus_node.Common.{ℕ, Bool, not, ◌&&◌, ◌||◌, List, Option, none, some, is_empty}
use nexus_node.Common.Text.{Bytes}
use nexus_node.Export.{Staker, Keepers, is_allowed}
use nexus_node.Export.Laws.{Stores, Laws, Calm}

-- Whether a validator is jailed after the preparation, by its record before.
abbrev pub jailed_after : List Bytes → Option Staker → Option Bool
jailed_after allowed none = none
jailed_after allowed (some v) =
    some (v.jailed || (not (is_empty allowed) && not (is_allowed allowed v.operator)))

module _ {W C : Type 0} (k : Keepers W C) (s : Stores W) (laws : Laws k s) (calm : Calm k s) where
  -- The validators' records after the last call of the staking module.
  updated : ℕ → W → Bytes → Option Staker
  updated h w = (s.stored (k.staking.apply_validator_set_updates h w).1).validators

  indexed : ℕ → W → List Bytes
  indexed h w = (s.stored (k.staking.apply_validator_set_updates h w).1).power_index
