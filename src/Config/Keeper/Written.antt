-- ===== src/Config/Keeper/Written.antt =====
-- The file that gives a wanted configuration.
use nexus_node.Common.{
  not, ◌&&◌, if◌then◌else◌, ℕ, ◌<◌, ◌≡◌, refl, true, false, Option, none, some, ok, [], is_empty,
  ltb, String, arith,
}
use nexus_node.Common.Text.{Bytes}
use nexus_node.Common.Words.{u64_mod}
use nexus_node.Common.Decimal.{format_uint, parse_uint-format_uint, format_uint-nonempty}
use nexus_node.Evm.Timestamp.{UseBlockTimestamp}
use nexus_node.Config.{File, read_config_file, read}
use nexus_node.Config.Keeper.{
  bad_offset, bad_start, bad_stop, bad_unix_offset, RawUseBlockTimestamp, RawConfig, KeeperConfig,
  KeeperPanic, Addresses, optional_uint, recipient_of, window_of, optional_window, config_of,
  decoded_config, config_from, read_config,
}
use nexus_node.Config.Keeper.Laws.{StopsAfter, HasWindow, IsConfig}

-- The texts of a configuration: decimal numbers, and an empty text for no stop height.
written_stop : Option ℕ → Bytes
written_stop none = []
written_stop (some stop) = format_uint stop

written_window : Option UseBlockTimestamp → Option RawUseBlockTimestamp
unfolding written_stop
written_window none = none
written_window (some w) = some (record {
  start_block_height = format_uint w.start_block_height;
  offset = format_uint w.offset;
  stop_block_height = written_stop w.stop_block_height;
})

pub written : Bytes → KeeperConfig → RawConfig
unfolding written_window
written recipient cfg = record {
  suggested_fee_recipient = recipient;
  use_block_timestamp = written_window cfg.use_block_timestamp;
  unix_timestamp_offset = format_uint cfg.unix_timestamp_offset;
}

optional_uint-written :
    (n : ℕ) (p : KeeperPanic) → n < u64_mod → optional_uint (format_uint n) p ≡ ok n
unfolding optional_uint
optional_uint-written n p small =
    ground (arith, format_uint-nonempty n, parse_uint-format_uint n small)

optional_stop-written :
    (o : Option ℕ) (start : ℕ)
    → StopsAfter start o
    → (stop : ℕ) × (optional_uint (written_stop o) bad_stop ≡ ok stop)
      × ((not (is_empty (written_stop o)) && ltb stop start) ≡ false)
      × ((if is_empty (written_stop o) then none else some stop) ≡ o)
unfolding written_stop optional_uint
optional_stop-written none start good = (0, refl, refl, refl)
optional_stop-written (some stop) start (after, small) =
    let full = format_uint-nonempty stop in
    (stop, optional_uint-written stop bad_stop small, ground (arith, full), ground (arith, full))

optional_window-written :
    (o : Option UseBlockTimestamp) → HasWindow o → optional_window (written_window o) ≡ ok o
unfolding optional_window written_window window_of
optional_window-written none good = refl
optional_window-written (some w) good =
    let (stop, e, ordered, same) =
      optional_stop-written w.stop_block_height w.start_block_height good.stop_small in
    rw
      (
        optional_uint-written w.offset bad_offset good.offset_small,
        optional_uint-written w.start_block_height bad_start good.start_small,
        e,
        ordered,
        same,
      )
      refl

config_of-written :
    (a : Addresses) (recipient : Bytes) (cfg : KeeperConfig)
    → IsConfig cfg
    → recipient_of a recipient ≡ ok cfg.suggested_fee_recipient
    → config_of a (written recipient cfg) ≡ ok cfg
unfolding config_of written
config_of-written a recipient cfg good r =
    rw
      (
        r,
        optional_window-written cfg.use_block_timestamp good.window,
        optional_uint-written cfg.unix_timestamp_offset bad_unix_offset good.unix_small,
      )
      refl

-- A configuration of uint64 numbers whose window does not stop before it starts is read back from
-- the file that holds it: its numbers in decimal, no text for a stop height that is not set, and a
-- hexadecimal address for the recipient.
pub read_config-written :
    (a : Addresses) (unmarshal : Bytes → Option RawConfig) (path : String) (file : String → File)
    (b recipient : Bytes) (cfg : KeeperConfig)
    → read_config_file path file ≡ ok (read b)
    → unmarshal b ≡ some (written recipient cfg)
    → is_empty recipient ≡ false
    → a.is_hex_address recipient ≡ true
    → a.hex_to_address recipient ≡ cfg.suggested_fee_recipient
    → IsConfig cfg
    → read_config a unmarshal path file ≡ ok cfg
unfolding read_config config_from decoded_config recipient_of
read_config-written a unmarshal path file b recipient cfg found decodes full hex address good =
    let r : recipient_of a recipient ≡ ok cfg.suggested_fee_recipient =
      ground (arith, full, hex, address) in
    rw (found, decodes) (config_of-written a recipient cfg good r)
