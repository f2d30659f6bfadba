-- ===== src/Export/Laws.antt =====
-- What the resets of a zero-height export rely on: that the SDK's stores keep each record under its
-- key, that an iteration visits each of them, and that the calls of one module leave the other
-- modules' records alone.
use nexus_node.Common.{
  ℕ, Bool, true, false, List, map, Option, none, some, Result, ok, All, ◌≡◌, if◌then◌else◌,
}
use nexus_node.Common.Text.{Bytes, bytes_eq}
use nexus_node.Upgrades.Api.{Chain, App, done}
use nexus_node.Export.{
  Redelegation, Unbonding, Staker, Delegation, Info, Keepers, ignore, is_allowed,
  reset_redelegation, reset_unbonding,
}

-- The records that the stores hold, by their keys, and the addresses that stand in the power index up
-- to the maximum number of validators.
pub record Stored : Type 0 where
  pub redelegations : Bytes → Option Redelegation
  pub unbondings : Bytes → Option Unbonding
  pub validators : Bytes → Option Staker
  pub infos : Bytes → Option Info
  pub power_index : List Bytes

pub record Stores (W : Type 0) : Type 0 where
  pub redelegation_key : Redelegation → Bytes
  pub unbonding_key : Unbonding → Bytes
  pub info_key : Bytes → Bytes
  pub stored : W → Stored

-- What a store gives after a write at one key.
abbrev pub put : {A : Type 0} → Bytes → A → (Bytes → Option A) → Bytes → Option A
put key a at b = if bytes_eq key b then some a else at b

abbrev pub IsOk : {A : Type 0} → Result Chain A → Type 0
IsOk {A = A} r = (a : A) × (r ≡ ok a)

module _ {W : Type 0} (s : Stores W) where
  -- A call that goes well and writes none of the four stores.
  abbrev pub Quiet : App W Unit → Type 0
  Quiet m = (w : W) → ((m w).0 ≡ done tt) × (s.stored (m w).1 ≡ s.stored w)

abbrev pub jailed_at : Option Staker → Option Bool
jailed_at none = none
jailed_at (some v) = some v.jailed

-- No validator of the power index is jailed.
abbrev pub NoneJailed : Stored → Type 0
NoneJailed t = All (λ b. jailed_at (t.validators b) ≡ some false) t.power_index

-- A listing names each stored record once or more, and nothing else.
abbrev pub Lists :
    {A I : Type 0} → (Bytes → Option A) → (I → Bytes) → (I → A → Type 0) → List I → Type 0
Lists {A = A} at key Names xs =
    All (λ x. (a : A) × (at (key x) ≡ some a) × Names x a) xs
    × ((b : Bytes) (a : A) → at b ≡ some a → is_allowed (map key xs) b ≡ true)

pub record Laws {W C : Type 0} (k : Keepers W C) (s : Stores W) : Type 0 where
  pub redelegations :
      (w : W)
      → (rs : List Redelegation) × (k.staking.redelegations w ≡ ok rs)
        × Lists (s.stored w).redelegations s.redelegation_key (λ r a. a ≡ r) rs
  pub unbondings :
      (w : W)
      → (us : List Unbonding) × (k.staking.unbondings w ≡ ok us)
        × Lists (s.stored w).unbondings s.unbonding_key (λ u a. a ≡ u) us
  pub infos :
      (w : W)
      → (xs : List (Bytes × Info)) × (k.slashing.signing_infos w ≡ ok xs)
        × Lists (s.stored w).infos (λ x. s.info_key x.0) (λ x a. a ≡ x.1) xs
  pub keys :
      (w : W)
      → Lists
          (s.stored w).validators
          (λ (b : Bytes). b)
          (λ b v. k.codec.validator_text b ≡ ok v.operator)
          (k.staking.validator_keys w)
  pub get_validator :
      (b : Bytes) (v : Staker) (w : W)
      → (s.stored w).validators b ≡ some v
      → k.staking.get_validator b w ≡ ok v
  pub set_redelegation :
      (r : Redelegation) (w : W)
      → ((k.staking.set_redelegation r w).0 ≡ done tt)
        × (s.stored (k.staking.set_redelegation r w).1 ≡ record (s.stored w) {
          redelegations = put (s.redelegation_key r) r (s.stored w).redelegations;
        })
  pub set_unbonding :
      (u : Unbonding) (w : W)
      → ((k.staking.set_unbonding u w).0 ≡ done tt)
        × (s.stored (k.staking.set_unbonding u w).1 ≡ record (s.stored w) {
          unbondings = put (s.unbonding_key u) u (s.stored w).unbondings;
        })
  pub set_validator :
      (b : Bytes) (v : Staker) (w : W)
      → k.codec.validator_text b ≡ ok v.operator
      → ((k.staking.set_validator v w).0 ≡ done tt)
        × (s.stored (k.staking.set_validator v w).1
            ≡ record (s.stored w) { validators = put b v (s.stored w).validators })
  pub set_info :
      (b : Bytes) (x : Info) (w : W)
      → ((ignore (k.slashing.set_signing_info b x) w).0 ≡ done tt)
        × (s.stored (k.slashing.set_signing_info b x w).1
            ≡ record (s.stored w) { infos = put (s.info_key b) x (s.stored w).infos })
  -- The key of a record does not depend on its heights.
  pub redelegation_key :
      (r : Redelegation) → s.redelegation_key (reset_redelegation r) ≡ s.redelegation_key r
  pub unbonding_key : (u : Unbonding) → s.unbonding_key (reset_unbonding u) ≡ s.unbonding_key u

-- What the distribution part and the end of the staking part rely on: every address that a record
-- spells decodes, the hooks go well, and only the last call of the staking module writes validators,
-- none of which it jails or releases. That call panics at a jailed validator of the power index, so
-- nothing is said of it where there is one.
pub record Calm {W C : Type 0} (k : Keepers W C) (s : Stores W) : Type 0 where
  pub validators :
      (w : W)
      → (vs : List Staker) × (k.staking.validators w ≡ ok vs)
        × All (λ v. IsOk (k.codec.validator_bytes v.operator)) vs
  pub delegations :
      (w : W)
      → (ds : List Delegation) × (k.staking.delegations w ≡ ok ds)
        × All
            (λ d.
              IsOk (k.codec.validator_bytes d.validator_address)
              × IsOk (k.codec.account_bytes d.delegator_address))
            ds
  pub withdraw_commission :
      (h : ℕ) (b : Bytes) → Quiet s (ignore (k.distribution.withdraw_commission h b))
  pub withdraw_rewards :
      (h : ℕ) (d b : Bytes) → Quiet s (ignore (k.distribution.withdraw_rewards h d b))
  pub delete_slash_events : Quiet s k.distribution.delete_slash_events
  pub delete_historical_rewards : Quiet s k.distribution.delete_historical_rewards
  pub outstanding_rewards : (b : Bytes) (w : W) → IsOk (k.distribution.outstanding_rewards b w)
  pub community_pool : (w : W) → IsOk (k.distribution.community_pool w)
  pub set_community_pool : (c : C) → Quiet s (k.distribution.set_community_pool c)
  pub after_validator_created :
      (h : ℕ) (b : Bytes) → Quiet s (k.distribution.after_validator_created h b)
  pub before_delegation_created :
      (h : ℕ) (d b : Bytes) → Quiet s (k.distribution.before_delegation_created h d b)
  pub after_delegation_modified :
      (h : ℕ) (d b : Bytes) → Quiet s (k.distribution.after_delegation_modified h d b)
  pub close_iterator : Quiet s k.staking.close_iterator
  pub apply_done :
      (h : ℕ) (w : W)
      → NoneJailed (s.stored w)
      → (k.staking.apply_validator_set_updates h w).0 ≡ done tt
  pub apply_others :
      (h : ℕ) (w : W)
      → NoneJailed (s.stored w)
      → let after = (k.staking.apply_validator_set_updates h w).1 in
        s.stored after ≡ record (s.stored w) {
          validators = (s.stored after).validators;
          power_index = (s.stored after).power_index;
        }
  pub apply_jailed :
      (h : ℕ) (b : Bytes) (w : W)
      → NoneJailed (s.stored w)
      → jailed_at ((s.stored (k.staking.apply_validator_set_updates h w).1).validators b)
        ≡ jailed_at ((s.stored w).validators b)
