-- ===== src/Export/Prepared.antt =====
-- What each loop of `prepForZeroHeightGenesis` does to its store.
use nexus_node.Common.{
  List, [], ◌∷◌, map, Option, none, some, ok, ◌≡◌, refl, sym, ap, ◌∙◌, All, arith,
}
use nexus_node.Common.Text.{Bytes}
use nexus_node.Export.{
  Staker, Keepers, must, reset_redelegation, reset_unbonding, reset_validator, reset_info,
  reset_redelegations, reset_unbondings, reset_validator_at, reset_validators, reset_signing_infos,
}
use nexus_node.Export.Laws.{Stores, Laws}
use nexus_node.Export.Heights.{changed, over, over_all_complete, Leaves, walk-changes}
use nexus_node.Export.Rewrites.{
  redelegations_field, unbondings_field, validators_field, infos_field, put-over, zero_twice,
  rewrites,
}

-- What a validator's record becomes.
abbrev pub own_reset : List Bytes → Staker → Staker
own_reset allowed v = reset_validator allowed v.operator v

module _ {W C : Type 0} (k : Keepers W C) (s : Stores W) (laws : Laws k s) where
  pub redelegations-reset :
      (w : W)
      → Leaves s.stored (reset_redelegations k w) (record (s.stored w) {
        redelegations = λ b. changed reset_redelegation ((s.stored w).redelegations b);
      })
  unfolding reset_redelegations redelegations_field
  redelegations-reset w =
      let (rs, e, lists) = laws.redelegations w in
      rw e (
        rewrites s.stored redelegations_field reset_redelegation s.redelegation_key (λ r. r) _
          (λ r. ap (λ es. record r { entries = es }) (zero_twice r.entries))
          (λ r v.
            let (d, g) = laws.set_redelegation (reset_redelegation r) v in
            (rw d refl, rw (sym (laws.redelegation_key r)) g))
          rs w lists)

  pub unbondings-reset :
      (w : W)
      → Leaves s.stored (reset_unbondings k w) (record (s.stored w) {
        unbondings = λ b. changed reset_unbonding ((s.stored w).unbondings b);
      })
  unfolding reset_unbondings unbondings_field
  unbondings-reset w =
      let (us, e, lists) = laws.unbondings w in
      rw e (
        rewrites s.stored unbondings_field reset_unbonding s.unbonding_key (λ u. u) _
          (λ u. ap (λ es. record u { entries = es }) (zero_twice u.entries))
          (λ u v.
            let (d, g) = laws.set_unbonding (reset_unbonding u) v in
            (rw d refl, rw (sym (laws.unbonding_key u)) g))
          us w lists)

  pub infos-reset :
      (w : W)
      → Leaves s.stored
          (reset_signing_infos k w)
          (record (s.stored w) { infos = λ b. changed reset_info ((s.stored w).infos b) })
  unfolding reset_signing_infos infos_field
  infos-reset w =
      let (xs, e, lists) = laws.infos w in
      rw e (
        rewrites s.stored infos_field reset_info (λ x. s.info_key x.0) (λ x. x.1) _ (λ info. refl)
          (λ x v. laws.set_info x.0 (reset_info x.1) v) xs w lists)

  abbrev Spelled : Bytes → Option Staker → Type 0
  Spelled b o = (v : Staker) × (o ≡ some v) × (k.codec.validator_text b ≡ ok v.operator)

  own_reset_twice :
      (allowed : List Bytes) (v : Staker)
      → own_reset allowed (own_reset allowed v) ≡ own_reset allowed v
  unfolding reset_validator
  own_reset_twice allowed v = ap (λ j. record v { unbonding_height = 0; jailed = j }) (ground arith)

  at_reset :
      (allowed : List Bytes) (b : Bytes) (w : W)
      → Spelled b (changed (own_reset allowed) ((s.stored w).validators b))
      → Leaves s.stored
          (reset_validator_at k allowed b w)
          (record (s.stored w) { validators = over (own_reset allowed) b (s.stored w).validators })
  unfolding reset_validator_at reset_validator
  at_reset allowed b w h = found ((s.stored w).validators b) refl h
    where
      found :
          (o : Option Staker)
          → (s.stored w).validators b ≡ o
          → Spelled b (changed (own_reset allowed) o)
          → Leaves s.stored (reset_validator_at k allowed b w) (record (s.stored w) {
            validators = over (own_reset allowed) b (s.stored w).validators;
          })
      found none e (v, g, _) = cc
      found (some v0) e (v, g, text) =
          let same : own_reset allowed v0 ≡ v = cc in
          let spelled : k.codec.validator_text b ≡ ok v0.operator =
            text ∙ ap (λ (u : Staker). ok u.operator) (sym same) in
          let (d, put_at) = laws.set_validator b (own_reset allowed v0) w spelled in
          let fresh : changed (own_reset allowed) ((s.stored w).validators b)
              ≡ some (own_reset allowed v0) =
            ap (changed (own_reset allowed)) e in
          let after : Leaves s.stored (must (k.staking.set_validator (own_reset allowed v0)) w)
              (record (s.stored w) {
                validators = over (own_reset allowed) b (s.stored w).validators;
              }) =
            (
              rw d refl,
              put_at
                  ∙ ap (λ at. record (s.stored w) { validators = at })
                      (put-over (own_reset allowed) b v0 (s.stored w).validators fresh),
            ) in
          rw (laws.get_validator b v0 w e) (rw spelled after)

  Spelled-all :
      (allowed : List Bytes) (at : Bytes → Option Staker) (keys : List Bytes)
      → All (λ b. (v : Staker) × (at b ≡ some v) × (k.codec.validator_text b ≡ ok v.operator)) keys
      → All (λ b. Spelled b (changed (own_reset allowed) (at b))) keys
  unfolding reset_validator
  Spelled-all allowed at [] h = tt
  Spelled-all allowed at (b ∷ bs) ((v, e, g), hs) =
      ((own_reset allowed v, ap (changed (own_reset allowed)) e, g), Spelled-all allowed at bs hs)

  pub validators-reset :
      (allowed : List Bytes) (w : W)
      → Leaves s.stored (reset_validators k allowed w) (record (s.stored w) {
        validators = λ b. changed (own_reset allowed) ((s.stored w).validators b);
      })
  unfolding reset_validators validators_field
  validators-reset allowed w =
      let (fit, complete) = laws.keys w in
      let walked =
        walk-changes s.stored validators_field (own_reset allowed) (own_reset_twice allowed)
          (λ b. b) Spelled (reset_validator_at k allowed) (at_reset allowed)
          (k.staking.validator_keys w) w
          (Spelled-all allowed (s.stored w).validators (k.staking.validator_keys w) fit) in
      (
        walked.0,
        walked.1
            ∙ ap (λ at. record (s.stored w) { validators = at })
                (over_all_complete (own_reset allowed) (map (λ b. b) (k.staking.validator_keys w))
                  (s.stored w).validators complete),
      )
