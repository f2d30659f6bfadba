-- ===== src/Config/Keeper/Laws.antt =====
-- What a configuration that `readConfig` returns looks like.
use mathlib.Core.Path.{subst}
use nexus_node.Common.{
  not, ◌&&◌, Bool, if◌then◌else◌, >>=-ok, fail_if-ok, ok_injective, ℕ, ◌≤◌, ◌<◌, ◌≡◌, inl, inr,
  refl, true, false, Option, none, some, Result, ok, err, is_empty, ltb, Option-cases, String,
  arith,
}
use nexus_node.Common.Text.{Bytes}
use nexus_node.Common.Words.{u64_mod}
use nexus_node.Common.Decimal.{parse_uint, parse_uint-lt}
use nexus_node.Evm.Timestamp.{UseBlockTimestamp}
use nexus_node.Config.{File, Panic, ConfigData, read_config_file, no_path, read}
use nexus_node.Config.Keeper.{
  bad_offset, bad_start, bad_stop, stop_before_start, bad_unix_offset, RawUseBlockTimestamp,
  RawConfig, KeeperConfig, KeeperPanic, Addresses, optional_uint, recipient_of, window_of,
  optional_window, config_of, decoded_config, config_from, read_config,
}

abbrev pub StopsAfter : ℕ → Option ℕ → Type 0
StopsAfter start none = Unit
StopsAfter start (some stop) = (start ≤ stop) × (stop < u64_mod)

-- Its numbers are uint64, and it does not stop before it starts.
pub record IsWindow (w : UseBlockTimestamp) : Type 0 where
  pub start_small : w.start_block_height < u64_mod
  pub offset_small : w.offset < u64_mod
  pub stop_small : StopsAfter w.start_block_height w.stop_block_height

abbrev pub HasWindow : Option UseBlockTimestamp → Type 0
HasWindow none = Unit
HasWindow (some w) = IsWindow w

pub record IsConfig (cfg : KeeperConfig) : Type 0 where
  pub window : HasWindow cfg.use_block_timestamp
  pub unix_small : cfg.unix_timestamp_offset < u64_mod

optional_uint-lt : (s : Bytes) (p : KeeperPanic) (n : ℕ) → optional_uint s p ≡ ok n → n < u64_mod
unfolding optional_uint
optional_uint-lt s p n h = elim (Option-cases (parse_uint s)) [
  | inl bad ↦ ground (arith, bad)
  | inr (v, good) ↦ ground (arith, good, parse_uint-lt s v good)
]

-- The stop height of a window as `readConfig` gives it.
stop_of-StopsAfter :
    (unset : Bool) (start stop : ℕ)
    → (not unset && ltb stop start) ≡ false
    → stop < u64_mod
    → StopsAfter start (if unset then none else some stop)
stop_of-StopsAfter true start stop h small = tt
stop_of-StopsAfter false start stop h small = (ground arith, small)

window_of-IsWindow :
    (raw : RawUseBlockTimestamp) (w : UseBlockTimestamp) → window_of raw ≡ ok w → IsWindow w
unfolding window_of
window_of-IsWindow raw w h =
    let (offset, o, h1) = >>=-ok (optional_uint raw.offset bad_offset) _ w h in
    let (start, s, h2) = >>=-ok (optional_uint raw.start_block_height bad_start) _ w h1 in
    let (stop, e, h3) = >>=-ok (optional_uint raw.stop_block_height bad_stop) _ w h2 in
    let (ordered, h4) =
      fail_if-ok (not (is_empty raw.stop_block_height) && ltb stop start) stop_before_start _ w
        h3 in
    let same = ok_injective refl h4 in
    subst IsWindow same (record {
      start_small = optional_uint-lt raw.start_block_height bad_start start s;
      offset_small = optional_uint-lt raw.offset bad_offset offset o;
      stop_small =
          stop_of-StopsAfter (is_empty raw.stop_block_height) start stop ordered
            (optional_uint-lt raw.stop_block_height bad_stop stop e);
    })

optional_window-HasWindow :
    (raw : Option RawUseBlockTimestamp) (w : Option UseBlockTimestamp)
    → optional_window raw ≡ ok w
    → HasWindow w
unfolding optional_window
optional_window-HasWindow none w h = subst HasWindow (ok_injective refl h) tt
optional_window-HasWindow (some raw) w h =
    let (window, e, h1) = >>=-ok (window_of raw) _ w h in
    subst HasWindow (ok_injective refl h1) (window_of-IsWindow raw window e)

config_of-IsConfig :
    (a : Addresses) (raw : RawConfig) (cfg : KeeperConfig) → config_of a raw ≡ ok cfg → IsConfig cfg
unfolding config_of
config_of-IsConfig a raw cfg h =
    let (recipient, r, h1) = >>=-ok (recipient_of a raw.suggested_fee_recipient) _ cfg h in
    let (window, w, h2) = >>=-ok (optional_window raw.use_block_timestamp) _ cfg h1 in
    let (unix, u, h3) = >>=-ok (optional_uint raw.unix_timestamp_offset bad_unix_offset) _ cfg h2 in
    subst IsConfig (ok_injective refl h3) (record {
      window = optional_window-HasWindow raw.use_block_timestamp window w;
      unix_small = optional_uint-lt raw.unix_timestamp_offset bad_unix_offset unix u;
    })

config_from-IsConfig :
    (a : Addresses) (unmarshal : Bytes → Option RawConfig) (d : Result Panic ConfigData)
    (cfg : KeeperConfig)
    → config_from a unmarshal d ≡ ok cfg
    → IsConfig cfg
unfolding config_from decoded_config
config_from-IsConfig a unmarshal (err p) cfg h = absurd (cc)
config_from-IsConfig a unmarshal (ok no_path) cfg h =
    subst IsConfig (ok_injective refl h) (record { window = tt; unix_small = omega arith })
config_from-IsConfig a unmarshal (ok (read b)) cfg h = elim (Option-cases (unmarshal b)) [
  | inl bad ↦ absurd (ground (arith, bad))
  | inr (raw, good) ↦ config_of-IsConfig a raw cfg (ground (arith, good))
]

-- Whatever the environment, the file and the decoder, in a configuration that `readConfig` returns
-- every number is a uint64 and the window of heights does not stop before it starts.
pub read_config-IsConfig :
    (a : Addresses) (unmarshal : Bytes → Option RawConfig) (path : String) (file : String → File)
    (cfg : KeeperConfig)
    → read_config a unmarshal path file ≡ ok cfg
    → IsConfig cfg
unfolding read_config
read_config-IsConfig a unmarshal path file cfg h =
    config_from-IsConfig a unmarshal (read_config_file path file) cfg h
