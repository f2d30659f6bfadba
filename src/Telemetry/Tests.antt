-- ===== src/Telemetry/Tests.antt =====
-- Two validators: one bonded and tombstoned, one unbonding and jailed, whose address is lost.
use nexus_node.Common.{Bool, true, false, List, [], ◌∷◌, String, Result, ok, err, ◌≡◌, refl}
use nexus_node.Common.Text.{Bytes, codes}
use nexus_node.Telemetry.{
  bonded, unbonding, Validator, Name, count_status, count_jailed, count_tombstoned, count_info,
  visit, visit_all, update_validator_metrics,
}
use nexus_node.Telemetry.Totals.{total, code}

abbrev infos : Bytes → Result String Bool
infos addr = ok true

abbrev vals : List Validator
vals =
    record {
      moniker = codes "a";
      operator = codes "va";
      status = bonded;
      jailed = false;
      cons_addr = ok (codes "ca");
    }
    ∷ (record {
      moniker = codes "b";
      operator = codes "vb";
      status = unbonding;
      jailed = true;
      cons_addr = err "no public key";
    }
        ∷ [])

tombstoned_test : total Name.network_tombstoned (update_validator_metrics infos vals false) ≡ 1
unfolding update_validator_metrics visit_all visit count_status count_jailed count_tombstoned
    count_info total code
tombstoned_test = refl
