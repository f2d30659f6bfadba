-- ===== src/Evm/Timestamp.antt =====
-- `CalculateTimestamp` of cosmos/x/evm/keeper/keeper.go, on uint64.
pub mod Laws
use nexus_node.Common.{
  ℕ, ◌+◌, Bool, true, false, Option, none, some, ◌&&◌, ltb, leb, not, if◌then◌else◌,
}
use nexus_node.Common.Words.{add64}

pub record UseBlockTimestamp : Type 0 where
  pub start_block_height : ℕ
  pub offset : ℕ
  pub stop_block_height : Option ℕ

-- The configuration of the keeper that timestamps depend on.
pub record Clock : Type 0 where
  pub use_block_timestamp : Option UseBlockTimestamp
  pub unix_timestamp_offset : ℕ

-- `cfg.StopBlockHeight == nil || blockHeight < *cfg.StopBlockHeight`
before_stop : Option ℕ → ℕ → Bool
before_stop none block_height = true
before_stop (some stop) block_height = ltb block_height stop

-- `if timestamp <= previousTimestamp { timestamp = previousTimestamp + 1 }`
after : ℕ → ℕ → ℕ
after previous timestamp = if leb timestamp previous then add64 previous 1 else timestamp

in_window : UseBlockTimestamp → ℕ → Bool
unfolding before_stop
in_window cfg block_height =
    leb cfg.start_block_height block_height && before_stop cfg.stop_block_height block_height

-- `cfg.StopBlockHeight != nil && blockHeight >= *cfg.StopBlockHeight` picks the offset.
unix_offset : Option ℕ → ℕ → ℕ → ℕ
unix_offset none block_height configured = 0
unix_offset (some stop) block_height configured = if leb stop block_height then configured else 0

calculate : Option UseBlockTimestamp → ℕ → ℕ → ℕ → ℕ → ℕ
unfolding in_window after unix_offset
calculate none configured unix block_height previous = after previous unix
calculate (some cfg) configured unix block_height previous =
    if in_window cfg block_height
    then add64 block_height cfg.offset
    else after previous (add64 unix (unix_offset cfg.stop_block_height block_height configured))

-- `unix` is `uint64(sdkCtx.BlockTime().Unix())`.
unfoldable pub calculate_timestamp : Clock → ℕ → ℕ → ℕ → ℕ
unfolding calculate
calculate_timestamp k unix block_height previous =
    calculate k.use_block_timestamp k.unix_timestamp_offset unix block_height previous
