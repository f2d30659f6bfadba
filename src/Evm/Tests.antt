-- ===== src/Evm/Tests.antt =====
-- Runs of the validation, of the timestamps and of the retry loop.
use nexus_node.Common.{
  ℕ, ◌+◌, ◌-◌, ◌<◌, ◌≡◌, ◌≢◌, ◌↔◌, ◌⊎◌, ◌%◌, none, some, [], ok, arith, if◌then◌else◌, ◌==◌, Done,
}
use nexus_node.Common.Words.{u64_mod}
use nexus_node.Evm.State.{KeeperError, expired}
use nexus_node.Evm.Timestamp.{Clock, UseBlockTimestamp, calculate_timestamp}
use nexus_node.Evm.Timestamp.Laws.{InWindow, calculate_timestamp-ranges}
use nexus_node.Evm.Retry.{GoContext, Attempt, again, done, retry}
use nexus_node.Evm.Retry.Runs.{Runs, retry-iff-Runs}
use nexus_node.Evm.Retry.Budget.{retry_ends}
use nexus_node.Evm.Payload.{validate_payload}
use nexus_node.Evm.Payload.Laws.{IsComplete, Extends, validate_payload_iff}
use nexus_node.Evm.Samples.{parent, child, keeper, context, libraries, message}

validate_payload_iff_example :
    (validate_payload keeper libraries context message parent ≡ ok child) ↔ (
      (message.authority ≡ libraries.module_address)
      × (libraries.unmarshal_payload message.execution_payload ≡ some child)
      × IsComplete child
      × Extends keeper context parent child)
validate_payload_iff_example = validate_payload_iff keeper libraries context message parent child

-- The heights from 10 to 19 use the height plus 1000.
abbrev window : UseBlockTimestamp
window = record { start_block_height = 10; offset = 1000; stop_block_height = some 20 }

abbrev windowed : Clock
windowed = record { use_block_timestamp = some window; unix_timestamp_offset = 0 }

calculate_timestamp-ranges_example :
    (calculate_timestamp windowed 90 12 5000 < u64_mod)
    × (((cfg : UseBlockTimestamp) × (windowed.use_block_timestamp ≡ some cfg)
          × InWindow (some cfg) 12
          × (calculate_timestamp windowed 90 12 5000 ≡ (12 + cfg.offset) % u64_mod))
        ⊎ ((¬ InWindow windowed.use_block_timestamp 12)
            × (5000 < calculate_timestamp windowed 90 12 5000)))
calculate_timestamp-ranges_example =
    calculate_timestamp-ranges windowed 90 12 5000 (omega arith) (omega arith)

-- A context with a deadline: the world is the number of milliseconds that are left.
abbrev deadline : GoContext ℕ
deadline = record {
  cause = λ w. if w == 0 then some [] else none;
  sleep = λ n w. w - n;
  wait = λ n w. (none, w - n);
}

abbrev never : Done → ℕ → Attempt KeeperError × Done × ℕ
never u w = (again, tt, w)

abbrev at_second : ℕ → ℕ → Attempt KeeperError × ℕ × ℕ
at_second c w = (if c == 1 then done else again, c + 1, w)

retry_ends_example : retry deadline expired never 4 tt 25 ≢ none
retry_ends_example =
    retry_ends deadline expired never
      (record {
        left = λ w. w;
        lasts = λ w h. ground arith;
        slept = λ n w. omega arith;
        spent = λ c w. omega arith;
      })
      3 tt 25 (omega arith)

retry-iff-Runs_example :
    (((fuel : ℕ) × (retry deadline expired at_second fuel 0 25 ≡ some (ok 2, 15)))
      → Runs deadline expired at_second (ok 2) 15 0 25)
    × (Runs deadline expired at_second (ok 2) 15 0 25
        → (fuel : ℕ) × (retry deadline expired at_second fuel 0 25 ≡ some (ok 2, 15)))
retry-iff-Runs_example = retry-iff-Runs deadline expired at_second 0 25 (ok 2) 15
