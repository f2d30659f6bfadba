-- ===== src/Telemetry.antt =====
-- cosmos/app/metrics.go: the gauges of the validators. The text of a gauge's path and its label of
-- the bond status are a constructor here; a value is a number, which float32 holds exactly below
-- 2 ^ 24. Gauges are listed in the order in which they are set.
mod Totals
mod Tests
use nexus_node.Common.{
  ℕ, ◌+◌, Bool, true, false, ◌&&◌, List, [], ◌∷◌, ◌++◌, String, Result, ok, err, if◌then◌else◌,
}
use nexus_node.Common.Text.{Bytes}

-- The values of the SDK's status; `unspecified` is a value that the switch does not name.
pub data BondStatus : Type 0 where
  bonded unbonding unbonded unspecified : BondStatus

pub record Validator : Type 0 where
  pub moniker : Bytes
  pub operator : Bytes
  pub status : BondStatus
  pub jailed : Bool
  pub cons_addr : Result String Bytes

pub data Name : Type 0 where
  validator_bonded validator_unbonding validator_unbonded validator_jailed validator_tombstoned :
      Name
  network_bonded network_unbonding network_unbonded network_jailed network_tombstoned : Name

pub record Gauge : Type 0 where
  pub name : Name
  pub labels : List Bytes
  pub value : ℕ

-- The counters and the gauges that are set so far.
pub record Tally : Type 0 where
  pub bonded : ℕ
  pub unbonding : ℕ
  pub unbonded : ℕ
  pub jailed : ℕ
  pub tombstoned : ℕ
  pub gauges : List Gauge

-- The `switch` on the status: it adds to a counter and sets one of the three values.
unfoldable pub count_status : BondStatus → Tally → Tally × (ℕ × ℕ × ℕ)
count_status BondStatus.bonded t = (record t { bonded = t.bonded + 1 }, (1, 0, 0))
count_status BondStatus.unbonding t = (record t { unbonding = t.unbonding + 1 }, (0, 1, 0))
count_status BondStatus.unbonded t = (record t { unbonded = t.unbonded + 1 }, (0, 0, 1))
count_status BondStatus.unspecified t = (t, (0, 0, 0))

unfoldable pub count_jailed : Bool → Tally → Tally × ℕ
count_jailed true t = (record t { jailed = t.jailed + 1 }, 1)
count_jailed false t = (t, 0)

unfoldable pub count_info : Result String Bool → Tally → Tally × ℕ
count_info (ok true) t = (record t { tombstoned = t.tombstoned + 1 }, 1)
count_info (ok false) t = (t, 0)
count_info (err e) t = (t, 0)

-- `info.Tombstoned` of the signing info that is found; `infos` is the slashing keeper's getter.
unfoldable pub count_tombstoned :
    (Bytes → Result String Bool) → Result String Bytes → Tally → Tally × ℕ
count_tombstoned infos (ok addr) t = count_info (infos addr) t
count_tombstoned infos (err e) t = (t, 0)

-- The gauges of a validator.
abbrev pub gauges_of : List Bytes → (ℕ × ℕ × ℕ) → ℕ → ℕ → List Gauge
gauges_of labels (a, b, c) d e =
    record { name = validator_bonded; labels = labels; value = a }
    ∷ (record { name = validator_unbonding; labels = labels; value = b }
        ∷ (record { name = validator_unbonded; labels = labels; value = c }
            ∷ (record { name = validator_jailed; labels = labels; value = d }
                ∷ (record { name = validator_tombstoned; labels = labels; value = e } ∷ []))))

-- The callback of the iteration.
unfoldable pub visit : (Bytes → Result String Bool) → Validator → Tally → Tally
visit infos val t =
    let counted = count_status val.status t in
    let jailing = count_jailed val.jailed counted.0 in
    let tombstoning = count_tombstoned infos val.cons_addr jailing.0 in
    let labels = val.moniker ∷ (val.operator ∷ []) in
    record tombstoning.0 { gauges = t.gauges ++ gauges_of labels counted.1 jailing.1 tombstoning.1 }

unfoldable pub visit_all : (Bytes → Result String Bool) → List Validator → Tally → Tally
visit_all infos [] t = t
visit_all infos (val ∷ rest) t = visit_all infos rest (visit infos val t)

abbrev pub no_tally : Tally
no_tally = record {
  bonded = 0;
  unbonding = 0;
  unbonded = 0;
  jailed = 0;
  tombstoned = 0;
  gauges = [];
}

abbrev pub network_gauges : Tally → List Gauge
network_gauges t =
    record { name = network_bonded; labels = []; value = t.bonded }
    ∷ (record { name = network_unbonding; labels = []; value = t.unbonding }
        ∷ (record { name = network_unbonded; labels = []; value = t.unbonded }
            ∷ (record { name = network_jailed; labels = []; value = t.jailed }
                ∷ (record { name = network_tombstoned; labels = []; value = t.tombstoned } ∷ []))))

-- The validators that the iteration visits, and whether it ends with an error.
unfoldable pub update_validator_metrics :
    (Bytes → Result String Bool) → List Validator → Bool → List Gauge
update_validator_metrics infos visited failed =
    let t = visit_all infos visited no_tally in
    if failed then t.gauges else t.gauges ++ network_gauges t
