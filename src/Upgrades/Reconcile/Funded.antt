-- ===== src/Upgrades/Reconcile/Funded.antt =====
-- The pools after a reconciliation. The laws say what the SDK's bank promises for the two pools.
use nexus_node.Common.{
  ℕ, ◌+◌, ◌-◌, ◌≤◌, ◌≡◌, ◌∙◌, ap, ok, err, List, ltb, Result-cases, inl, inr, String, arith,
  if◌then◌else◌,
}
use nexus_node.Upgrades.Api.{Out, Validator, Keepers, Names}
use nexus_node.Upgrades.Reconcile.{
  bonded_sum, not_bonded_sum, unbonding_sum, pool_balance, bond_coin, fund_bonded, fund_not_bonded,
  moved, execute_reconcile_staking_pools,
}

abbrev pub max : ℕ → ℕ → ℕ
max a b = if ltb a b then b else a

-- Coins may be minted into the bonded pool, and its coins may be moved to the not-bonded one. Neither
-- touches the staking module's records.
pub record PoolLaws {W : Type 0} (names : Names) (k : Keepers W) : Type 0 where
  pub mint-done :
      (n : ℕ) (w : W)
      → (k.bank.mint_coins names.bonded_pool (bond_coin names k n) w).0 ≡ Out.done tt
  pub mint-bonded :
      (n : ℕ) (w : W)
      → pool_balance names k names.bonded_pool
          (k.bank.mint_coins names.bonded_pool (bond_coin names k n) w).1
        ≡ pool_balance names k names.bonded_pool w + n
  pub mint-not_bonded :
      (n : ℕ) (w : W)
      → pool_balance names k names.not_bonded_pool
          (k.bank.mint_coins names.bonded_pool (bond_coin names k n) w).1
        ≡ pool_balance names k names.not_bonded_pool w
  pub send-bonded :
      (n : ℕ) (w : W)
      → n ≤ pool_balance names k names.bonded_pool w
      → pool_balance names k names.bonded_pool
            (k.bank.send_to_module names.bonded_pool names.not_bonded_pool
              (bond_coin names k n)
              w).1
          + n
        ≡ pool_balance names k names.bonded_pool w
  pub send-not_bonded :
      (n : ℕ) (w : W)
      → n ≤ pool_balance names k names.bonded_pool w
      → pool_balance names k names.not_bonded_pool
          (k.bank.send_to_module names.bonded_pool names.not_bonded_pool (bond_coin names k n) w).1
        ≡ pool_balance names k names.not_bonded_pool w + n
  pub mint-validators :
      (n : ℕ) (w : W)
      → k.staking.all_validators (k.bank.mint_coins names.bonded_pool (bond_coin names k n) w).1
        ≡ k.staking.all_validators w
  pub mint-unbondings :
      (n : ℕ) (w : W)
      → k.staking.unbondings (k.bank.mint_coins names.bonded_pool (bond_coin names k n) w).1
        ≡ k.staking.unbondings w
  pub send-validators :
      (n : ℕ) (w : W)
      → k.staking.all_validators
          (k.bank.send_to_module names.bonded_pool names.not_bonded_pool (bond_coin names k n) w).1
        ≡ k.staking.all_validators w
  pub send-unbondings :
      (n : ℕ) (w : W)
      → k.staking.unbondings
          (k.bank.send_to_module names.bonded_pool names.not_bonded_pool (bond_coin names k n) w).1
        ≡ k.staking.unbondings w

module _ {W : Type 0} (names : Names) (k : Keepers W) (laws : PoolLaws names k) where
  fund_bonded-bonded :
      (sum : ℕ) (w : W)
      → pool_balance names k names.bonded_pool (fund_bonded names k sum w)
        ≡ max (pool_balance names k names.bonded_pool w) sum
  unfolding fund_bonded
  fund_bonded-bonded sum w =
      ground (arith, laws.mint-bonded (sum - pool_balance names k names.bonded_pool w) w)

  fund_bonded-not_bonded :
      (sum : ℕ) (w : W)
      → pool_balance names k names.not_bonded_pool (fund_bonded names k sum w)
        ≡ pool_balance names k names.not_bonded_pool w
  unfolding fund_bonded
  fund_bonded-not_bonded sum w =
      ground (arith, laws.mint-not_bonded (sum - pool_balance names k names.bonded_pool w) w)

  fund_bonded-validators :
      (sum : ℕ) (w : W)
      → k.staking.all_validators (fund_bonded names k sum w) ≡ k.staking.all_validators w
  unfolding fund_bonded
  fund_bonded-validators sum w =
      ground (arith, laws.mint-validators (sum - pool_balance names k names.bonded_pool w) w)

  fund_bonded-unbondings :
      (sum : ℕ) (w : W) → k.staking.unbondings (fund_bonded names k sum w) ≡ k.staking.unbondings w
  unfolding fund_bonded
  fund_bonded-unbondings sum w =
      ground (arith, laws.mint-unbondings (sum - pool_balance names k names.bonded_pool w) w)

  module _ (sum : ℕ) (w : W) where
    abbrev short : ℕ
    short = sum - pool_balance names k names.not_bonded_pool w

    abbrev minted : W
    minted = (k.bank.mint_coins names.bonded_pool (bond_coin names k short) w).1

    fund_not_bonded-bonded :
        pool_balance names k names.bonded_pool (fund_not_bonded names k sum w)
        ≡ pool_balance names k names.bonded_pool w
    unfolding fund_not_bonded moved
    fund_not_bonded-bonded = ground (
      arith,
      laws.mint-done short w,
      laws.mint-bonded short w,
      laws.send-bonded short minted (omega (arith, laws.mint-bonded short w)),
    )

    fund_not_bonded-not_bonded :
        pool_balance names k names.not_bonded_pool (fund_not_bonded names k sum w)
        ≡ max (pool_balance names k names.not_bonded_pool w) sum
    unfolding fund_not_bonded moved
    fund_not_bonded-not_bonded = ground (
      arith,
      laws.mint-done short w,
      laws.mint-not_bonded short w,
      laws.send-not_bonded short minted (omega (arith, laws.mint-bonded short w)),
    )

    fund_not_bonded-validators :
        k.staking.all_validators (fund_not_bonded names k sum w) ≡ k.staking.all_validators w
    unfolding fund_not_bonded moved
    fund_not_bonded-validators = ground (
      arith,
      laws.mint-done short w,
      laws.mint-validators short w,
      laws.send-validators short minted,
    )

    fund_not_bonded-unbondings :
        k.staking.unbondings (fund_not_bonded names k sum w) ≡ k.staking.unbondings w
    unfolding fund_not_bonded moved
    fund_not_bonded-unbondings = ground (
      arith,
      laws.mint-done short w,
      laws.mint-unbondings short w,
      laws.send-unbondings short minted,
    )

  -- What the pools should hold.
  abbrev pub owed_not_bonded : List Validator → W → ℕ
  owed_not_bonded vs w = not_bonded_sum vs + unbonding_sum (k.staking.unbondings w)

  reconcile-found :
      (vs : List Validator) (w : W)
      → k.staking.all_validators w ≡ ok vs
      → execute_reconcile_staking_pools names k w
        ≡ fund_not_bonded names k (owed_not_bonded vs w) (fund_bonded names k (bonded_sum vs) w)
  unfolding execute_reconcile_staking_pools
  reconcile-found vs w found = ground arith

  reconcile-err :
      (e : List String) (w : W)
      → k.staking.all_validators w ≡ err e
      → execute_reconcile_staking_pools names k w ≡ w
  unfolding execute_reconcile_staking_pools
  reconcile-err e w bad = ground arith

  -- By the laws of the bank, after a reconciliation each pool holds what it held before or what the
  -- staking module's records claim of it, whichever is more: a deficit is made up to the coin, and
  -- a pool that covers its claims is left as it is. The records do not change.
  pub reconcile-funds :
      (vs : List Validator) (w : W)
      → k.staking.all_validators w ≡ ok vs
      → let after = execute_reconcile_staking_pools names k w in
        (pool_balance names k names.bonded_pool after
          ≡ max (pool_balance names k names.bonded_pool w) (bonded_sum vs))
        × (pool_balance names k names.not_bonded_pool after
            ≡ max (pool_balance names k names.not_bonded_pool w) (owed_not_bonded vs w))
        × (k.staking.all_validators after ≡ ok vs)
        × (k.staking.unbondings after ≡ k.staking.unbondings w)
  reconcile-funds vs w found =
      let funded = fund_bonded names k (bonded_sum vs) w in
      let owed = owed_not_bonded vs w in
      rw (reconcile-found vs w found) (
        fund_not_bonded-bonded owed funded ∙ fund_bonded-bonded (bonded_sum vs) w,
        ground (
          arith,
          fund_not_bonded-not_bonded owed funded,
          fund_bonded-not_bonded (bonded_sum vs) w,
        ),
        fund_not_bonded-validators owed funded ∙ fund_bonded-validators (bonded_sum vs) w ∙ found,
        fund_not_bonded-unbondings owed funded ∙ fund_bonded-unbondings (bonded_sum vs) w,
      )

  -- Pools that cover their claims are left alone.
  covered-unchanged :
      (vs : List Validator) (w : W)
      → k.staking.all_validators w ≡ ok vs
      → bonded_sum vs ≤ pool_balance names k names.bonded_pool w
      → owed_not_bonded vs w ≤ pool_balance names k names.not_bonded_pool w
      → execute_reconcile_staking_pools names k w ≡ w
  unfolding fund_bonded fund_not_bonded
  covered-unchanged vs w found fits fits' =
      let same : fund_bonded names k (bonded_sum vs) w ≡ w = ground arith in
      let same' : fund_not_bonded names k (owed_not_bonded vs w) w ≡ w = ground arith in
      reconcile-found vs w found ∙ ap (fund_not_bonded names k (owed_not_bonded vs w)) same ∙ same'

  -- By the laws of the bank, reconciling is idempotent: a second reconciliation right after the first
  -- changes nothing of the state.
  pub reconcile-idempotent :
      (w : W)
      → execute_reconcile_staking_pools names k (execute_reconcile_staking_pools names k w)
        ≡ execute_reconcile_staking_pools names k w
  reconcile-idempotent w = elim (Result-cases (k.staking.all_validators w)) [
    | inr (e, bad) ↦ ap (execute_reconcile_staking_pools names k) (reconcile-err e w bad)
    | inl (vs, found) ↦
        let (bonded, not_bonded, same, same') = reconcile-funds vs w found in
        covered-unchanged vs (execute_reconcile_staking_pools names k w) same (ground arith)
          (ground arith)
  ]
