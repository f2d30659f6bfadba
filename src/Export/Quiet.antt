-- ===== src/Export/Quiet.antt =====
-- Calls that go well and leave the stores of staking and slashing as they were, put together.
use nexus_node.Common.{ℕ, List, [], ◌∷◌, Result, ok, String, ◌≡◌, refl, ◌∙◌, All}
use nexus_node.Common.Text.{Bytes}
use nexus_node.Upgrades.Api.{Chain, App, Out, done, ◌>>=◌, ◌>>◌, pure, read, or_panic}
use nexus_node.Export.{
  Keepers, Staker, Delegation, must, walk, check_allowed, withdraw_commission, withdraw_rewards,
  reinitialize_validator, reinitialize_delegation, reset_distribution,
}
use nexus_node.Export.Laws.{Stores, Quiet, IsOk, Calm}

module _ {W : Type 0} (s : Stores W) where
  abbrev QuietAt : W → Out Unit × W → Type 0
  QuietAt w r = (r.0 ≡ done tt) × (s.stored r.1 ≡ s.stored w)

  pub then_Quiet : (m n : App W Unit) → Quiet s m → Quiet s n → Quiet s (m >> n)
  then_Quiet m n hm hn w =
      let (e, g) = hm w in let (e2, g2) = hn (m w).1 in (rw e e2, rw e (g2 ∙ g))

  pub must_Quiet : (m : App W Unit) → Quiet s m → Quiet s (must m)
  must_Quiet m h w = let (e, g) = h w in (rw e refl, g)

  pub or_panic_Quiet : (text : String) (m : App W Unit) → Quiet s m → Quiet s (or_panic text m)
  or_panic_Quiet text m h w = let (e, g) = h w in (rw e refl, g)

  -- A reading that succeeds, and what is done with its value.
  pub read_Quiet :
      {A : Type 0} (f : W → Result Chain A) (k : A → App W Unit) (w : W) (a : A)
      → f w ≡ ok a
      → QuietAt w (k a w)
      → QuietAt w ((must (read f) >>= k) w)
  read_Quiet f k w a e h = rw e h

  pub walk_Quiet :
      {A : Type 0} (f : A → App W Unit) (xs : List A)
      → All (λ x. Quiet s (f x)) xs
      → Quiet s (walk f xs)
  walk_Quiet f [] h = λ w. (refl, refl)
  walk_Quiet f (x ∷ xs) (h, hs) = then_Quiet (f x) (walk f xs) h (walk_Quiet f xs hs)

pub all_map :
    {A : Type 0} {P Q : A → Type 0} → ((a : A) → P a → Q a) → (xs : List A) → All P xs → All Q xs
all_map f [] h = tt
all_map f (x ∷ xs) (h, hs) = (f x h, all_map f xs hs)

pub all_of : {A : Type 0} {P : A → Type 0} → ((a : A) → P a) → (xs : List A) → All P xs
all_of f [] = tt
all_of f (x ∷ xs) = (f x, all_of f xs)

module _ {W C : Type 0} (k : Keepers W C) (s : Stores W) where
  pub check_allowed-Quiet :
      (allowed : List Bytes)
      → All (λ addr. IsOk (k.codec.validator_bytes addr)) allowed
      → Quiet s (check_allowed k allowed)
  unfolding check_allowed
  check_allowed-Quiet allowed h = walk_Quiet s _ allowed (
      all_map
        (λ addr e w.
          read_Quiet s (λ _. k.codec.validator_bytes addr) (λ _. pure tt) w e.0 e.1 (refl, refl))
        allowed h)

module _ {W C : Type 0} (k : Keepers W C) (s : Stores W) (calm : Calm k s) where
  withdraw_commission-Quiet :
      (h : ℕ) (v : Staker)
      → IsOk (k.codec.validator_bytes v.operator)
      → Quiet s (withdraw_commission k h v)
  unfolding withdraw_commission
  withdraw_commission-Quiet h v e w =
      read_Quiet s (λ _. k.codec.validator_bytes v.operator) _ w e.0 e.1
        (calm.withdraw_commission h e.0 w)

  withdraw_rewards-Quiet :
      (h : ℕ) (d : Delegation)
      → IsOk (k.codec.validator_bytes d.validator_address)
        × IsOk (k.codec.account_bytes d.delegator_address)
      → Quiet s (withdraw_rewards k h d)
  unfolding withdraw_rewards
  withdraw_rewards-Quiet h d (a, b) w =
      read_Quiet s (λ _. k.codec.validator_bytes d.validator_address) _ w a.0 a.1
        (read_Quiet s (λ _. k.codec.account_bytes d.delegator_address) _ w b.0 b.1
          (calm.withdraw_rewards h b.0 a.0 w))

  reinitialize_validator-Quiet :
      (h : ℕ) (v : Staker)
      → IsOk (k.codec.validator_bytes v.operator)
      → Quiet s (reinitialize_validator k h v)
  unfolding reinitialize_validator
  reinitialize_validator-Quiet h v e w =
      let (rewards, er) = calm.outstanding_rewards e.0 w in
      let (pool, ep) = calm.community_pool w in
      read_Quiet s (λ _. k.codec.validator_bytes v.operator) _ w e.0 e.1
        (read_Quiet s (k.distribution.outstanding_rewards e.0) _ w rewards er (
          read_Quiet s k.distribution.community_pool _ w pool ep (
            then_Quiet s
              (must (k.distribution.set_community_pool (k.distribution.add pool rewards)))
              (must (k.distribution.after_validator_created h e.0))
              (must_Quiet s _ (calm.set_community_pool _))
              (must_Quiet s _ (calm.after_validator_created h e.0)) w)))

  reinitialize_delegation-Quiet :
      (h : ℕ) (d : Delegation)
      → IsOk (k.codec.validator_bytes d.validator_address)
        × IsOk (k.codec.account_bytes d.delegator_address)
      → Quiet s (reinitialize_delegation k h d)
  unfolding reinitialize_delegation
  reinitialize_delegation-Quiet h d (a, b) w =
      read_Quiet s (λ _. k.codec.validator_bytes d.validator_address) _ w a.0 a.1
        (read_Quiet s (λ _. k.codec.account_bytes d.delegator_address) _ w b.0 b.1
          (then_Quiet s
            (or_panic "error while incrementing period"
              (k.distribution.before_delegation_created h b.0 a.0))
            (or_panic "error while creating a new delegation period record"
              (k.distribution.after_delegation_modified h b.0 a.0))
            (or_panic_Quiet s _ _ (calm.before_delegation_created h b.0 a.0))
            (or_panic_Quiet s _ _ (calm.after_delegation_modified h b.0 a.0)) w))

  reinitialize-Quiet :
      (ds : List Delegation)
      → All
          (λ d.
            IsOk (k.codec.validator_bytes d.validator_address)
            × IsOk (k.codec.account_bytes d.delegator_address))
          ds
      → (w : W)
      → QuietAt s w (
          (must (read k.staking.validators) >>= λ again.
          walk (reinitialize_validator k 0) again >> walk (reinitialize_delegation k 0) ds)
            w)
  reinitialize-Quiet ds h w =
      let (vs, e, hv) = calm.validators w in
      read_Quiet s k.staking.validators _ w vs e (
        then_Quiet s (walk (reinitialize_validator k 0) vs) (walk (reinitialize_delegation k 0) ds)
          (walk_Quiet s _ vs (all_map (reinitialize_validator-Quiet 0) vs hv))
          (walk_Quiet s _ ds (all_map (reinitialize_delegation-Quiet 0) ds h)) w)

  after_commission-Quiet :
      (h : ℕ)
      → Quiet s (
          must (read k.staking.delegations) >>= λ dels.
          walk (withdraw_rewards k h) dels
          >> (k.distribution.delete_slash_events
              >> (k.distribution.delete_historical_rewards
                  >> (must (read k.staking.validators) >>= λ again.
                      walk (reinitialize_validator k 0) again
                      >> walk (reinitialize_delegation k 0) dels))))
  after_commission-Quiet h w =
      let (ds, e, hd) = calm.delegations w in
      read_Quiet s k.staking.delegations _ w ds e (
        then_Quiet s (walk (withdraw_rewards k h) ds) _
          (walk_Quiet s _ ds (all_map (withdraw_rewards-Quiet h) ds hd))
          (then_Quiet s k.distribution.delete_slash_events _ calm.delete_slash_events (
            then_Quiet s k.distribution.delete_historical_rewards _ calm.delete_historical_rewards
              (reinitialize-Quiet ds hd)))
          w)

  pub reset_distribution-Quiet : (h : ℕ) → Quiet s (reset_distribution k h)
  unfolding reset_distribution
  reset_distribution-Quiet h w =
      let (vs, e, hv) = calm.validators w in
      read_Quiet s k.staking.validators _ w vs e (
        then_Quiet s (walk (withdraw_commission k h) vs) _
          (walk_Quiet s _ vs (all_map (withdraw_commission-Quiet h) vs hv))
          (after_commission-Quiet h) w)
