-- ===== src/Telemetry/Totals.antt =====
-- What the gauges of the network say of the validators.
use nexus_node.Common.{
  ℕ, ◌+◌, Bool, false, List, [], ◌∷◌, ◌++◌, String, Result, ok, err, true, ◌≡◌, ◌==◌, All,
  if◌then◌else◌,
}
use nexus_node.Common.Text.{Bytes}
use nexus_node.Telemetry.{BondStatus, Validator, Name, Gauge, Tally, gauges_of}

abbrev pub one_if : Bool → ℕ
one_if b = if b then 1 else 0

-- The kinds of a validator.
abbrev bonds_bonded : BondStatus → Bool
bonds_bonded BondStatus.bonded = true
bonds_bonded _ = false

abbrev pub is_bonded : Validator → Bool
is_bonded val = bonds_bonded val.status

abbrev bonds_unbonding : BondStatus → Bool
bonds_unbonding BondStatus.unbonding = true
bonds_unbonding _ = false

abbrev pub is_unbonding : Validator → Bool
is_unbonding val = bonds_unbonding val.status

abbrev bonds_unbonded : BondStatus → Bool
bonds_unbonded BondStatus.unbonded = true
bonds_unbonded _ = false

abbrev pub is_unbonded : Validator → Bool
is_unbonded val = bonds_unbonded val.status

abbrev bonds_named : BondStatus → Bool
bonds_named BondStatus.unspecified = false
bonds_named _ = true

abbrev pub is_named : Validator → Bool
is_named val = bonds_named val.status

abbrev tombstone_of : Result String Bool → Bool
tombstone_of (ok tombstoned) = tombstoned
tombstone_of (err e) = false

abbrev signing_tombstone : (Bytes → Result String Bool) → Result String Bytes → Bool
signing_tombstone infos (ok addr) = tombstone_of (infos addr)
signing_tombstone infos (err e) = false

-- The address of the consensus key is known, and so is its signing info, with a tombstone.
abbrev pub has_tombstone : (Bytes → Result String Bool) → Validator → Bool
has_tombstone infos val = signing_tombstone infos val.cons_addr

-- How many of the validators are of a kind.
unfoldable pub count : (Validator → Bool) → List Validator → ℕ
count p [] = 0
count p (val ∷ vals) = one_if (p val) + count p vals

abbrev pub is_network : Name → Bool
is_network Name.network_bonded = true
is_network Name.network_unbonding = true
is_network Name.network_unbonded = true
is_network Name.network_jailed = true
is_network Name.network_tombstoned = true
is_network _ = false

-- A number for each name.
unfoldable pub code : Name → ℕ
code Name.validator_bonded = 0
code Name.validator_unbonding = 1
code Name.validator_unbonded = 2
code Name.validator_jailed = 3
code Name.validator_tombstoned = 4
code Name.network_bonded = 5
code Name.network_unbonding = 6
code Name.network_unbonded = 7
code Name.network_jailed = 8
code Name.network_tombstoned = 9

-- The sum of the gauges with a name.
unfoldable pub total : Name → List Gauge → ℕ
total n [] = 0
total n (g ∷ gs) = (if code n == code g.name then g.value else 0) + total n gs

-- The counters agree with the gauges that are set, and no gauge of the network is.
record Agrees (t : Tally) : Type 0 where
  bonded_sum : total Name.validator_bonded t.gauges ≡ t.bonded
  unbonding_sum : total Name.validator_unbonding t.gauges ≡ t.unbonding
  unbonded_sum : total Name.validator_unbonded t.gauges ≡ t.unbonded
  jailed_sum : total Name.validator_jailed t.gauges ≡ t.jailed
  tombstoned_sum : total Name.validator_tombstoned t.gauges ≡ t.tombstoned
  no_network_bonded : total Name.network_bonded t.gauges ≡ 0
  no_network_unbonding : total Name.network_unbonding t.gauges ≡ 0
  no_network_unbonded : total Name.network_unbonded t.gauges ≡ 0
  no_network_jailed : total Name.network_jailed t.gauges ≡ 0
  no_network_tombstoned : total Name.network_tombstoned t.gauges ≡ 0
  no_network : All (λ g. is_network g.name ≡ false) t.gauges

-- What a visit adds to the counters and which gauges it sets.
visited : (Bytes → Result String Bool) → Validator → Tally → Tally
visited infos val t = record {
  bonded = t.bonded + one_if (is_bonded val);
  unbonding = t.unbonding + one_if (is_unbonding val);
  unbonded = t.unbonded + one_if (is_unbonded val);
  jailed = t.jailed + one_if val.jailed;
  tombstoned = t.tombstoned + one_if (has_tombstone infos val);
  gauges =
      t.gauges
      ++ gauges_of (val.moniker ∷ (val.operator ∷ []))
          (one_if (is_bonded val), one_if (is_unbonding val), one_if (is_unbonded val))
          (one_if val.jailed) (one_if (has_tombstone infos val));
}
