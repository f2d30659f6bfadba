-- ===== src/Evm/Timestamp/Laws.antt =====
-- When the timestamp grows, and what it is in each range of heights.
use nexus_node.Common.{
  ℕ, ◌+◌, ◌%◌, ◌≤◌, ◌<◌, ◌≡◌, ◌⊎◌, inl, inr, refl, Option, none, some, Bool-cases, leb, leb→le,
  arith,
}
use nexus_node.Common.Words.{u64_mod}
use nexus_node.Evm.Timestamp.{Clock, UseBlockTimestamp, calculate_timestamp}

abbrev Below : Option ℕ → ℕ → Type 0
Below none h = Unit
Below (some stop) h = h < stop

-- The heights at which the timestamp is the height plus the configured offset.
abbrev pub InWindow : Option UseBlockTimestamp → ℕ → Type 0
InWindow none h = ⊥
InWindow (some cfg) h = (cfg.start_block_height ≤ h) × Below cfg.stop_block_height h

-- Outside the window of heights that use the block height, the timestamp is strictly greater than the
-- previous one, provided that the previous one is below the greatest uint64.
pub calculate_timestamp-gt-previous :
    (k : Clock) (unix h previous : ℕ)
    → ¬ InWindow k.use_block_timestamp h
    → previous + 1 < u64_mod
    → previous < calculate_timestamp k unix h previous
unfolding calculate_timestamp
calculate_timestamp-gt-previous k unix h previous outside fits = ground arith

-- Inside the window the timestamp is the height plus the offset modulo 2 ^ 64, whatever the wall clock and
-- the previous timestamp are.
pub calculate_timestamp-InWindow :
    (k : Clock) (cfg : UseBlockTimestamp) (unix h previous : ℕ)
    → k.use_block_timestamp ≡ some cfg
    → InWindow (some cfg) h
    → calculate_timestamp k unix h previous ≡ (h + cfg.offset) % u64_mod
unfolding calculate_timestamp
calculate_timestamp-InWindow k cfg unix h previous e inside = ground arith

-- Every timestamp is a uint64, if the wall clock is.
pub calculate_timestamp-lt-u64 :
    (k : Clock) (unix h previous : ℕ)
    → unix < u64_mod
    → calculate_timestamp k unix h previous < u64_mod
unfolding calculate_timestamp
calculate_timestamp-lt-u64 k unix h previous fits = ground arith

Below-cases : (o : Option ℕ) (h : ℕ) → Below o h ⊎ (¬ Below o h)
Below-cases none h = inl tt
Below-cases (some stop) h = ground arith

InWindow-cases :
    (o : Option UseBlockTimestamp) (h : ℕ)
    → ((cfg : UseBlockTimestamp) × (o ≡ some cfg) × InWindow (some cfg) h) ⊎ (¬ InWindow o h)
InWindow-cases none h = inr (λ b. b)
InWindow-cases (some cfg) h = elim (Below-cases cfg.stop_block_height h) [
  | inr late ↦ inr (λ b. late b.1)
  | inl early ↦ elim (Bool-cases (leb cfg.start_block_height h)) [
    | inl reached ↦ inl (cfg, refl, (leb→le cfg.start_block_height h reached, early))
    | inr ahead ↦ inr (λ b. ground arith)
  ]
]

-- Whether the height is in the window, with what follows for the timestamp.
window-cases :
    (k : Clock) (unix h previous : ℕ)
    → previous + 1 < u64_mod
    → ((cfg : UseBlockTimestamp) × (k.use_block_timestamp ≡ some cfg)
        × InWindow (some cfg) h
        × (calculate_timestamp k unix h previous ≡ (h + cfg.offset) % u64_mod))
      ⊎ ((¬ InWindow k.use_block_timestamp h) × (previous < calculate_timestamp k unix h previous))
window-cases k unix h previous fits = elim (InWindow-cases k.use_block_timestamp h) [
  | inl (cfg, e, inside) ↦
      inl (cfg, e, inside, calculate_timestamp-InWindow k cfg unix h previous e inside)
  | inr outside ↦ inr (outside, calculate_timestamp-gt-previous k unix h previous outside fits)
]

-- On uint64 times, with a previous timestamp below the greatest one, `CalculateTimestamp` is a uint64,
-- and it is the height plus the offset modulo 2 ^ 64 at a height in the window that uses block heights,
-- whatever the previous timestamp is, and strictly greater than the previous timestamp at every other
-- height.
pub calculate_timestamp-ranges :
    (k : Clock) (unix h previous : ℕ)
    → unix < u64_mod
    → previous + 1 < u64_mod
    → (calculate_timestamp k unix h previous < u64_mod)
      × (((cfg : UseBlockTimestamp) × (k.use_block_timestamp ≡ some cfg)
            × InWindow (some cfg) h
            × (calculate_timestamp k unix h previous ≡ (h + cfg.offset) % u64_mod))
          ⊎ ((¬ InWindow k.use_block_timestamp h)
              × (previous < calculate_timestamp k unix h previous)))
calculate_timestamp-ranges k unix h previous small fits =
    (calculate_timestamp-lt-u64 k unix h previous small, window-cases k unix h previous fits)
