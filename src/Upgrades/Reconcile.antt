-- ===== src/Upgrades/Reconcile.antt =====
-- cosmos/app/upgrades.go: `ExecuteReconcileStakingPools`.
pub mod Funded
use nexus_node.Common.{
  ℕ, ◌+◌, ◌-◌, Option, none, some, Result, ok, err, Bool, true, false, String, ltb, if◌then◌else◌,
  List, [], ◌∷◌,
}
use nexus_node.Upgrades.Api.{Out, App, Validator, Coin, Keepers, Names}
use nexus_node.Upgrades.Balance.{amount_of}

-- The loops over the validators and over the entries of the unbonding delegations; a nil amount is
-- skipped, which is to add 0.
unfoldable pub bonded_sum : List Validator → ℕ
bonded_sum [] = 0
bonded_sum (v ∷ vs) = (if v.bonded then amount_of v.tokens else 0) + bonded_sum vs

unfoldable pub not_bonded_sum : List Validator → ℕ
not_bonded_sum [] = 0
not_bonded_sum (v ∷ vs) = (if v.bonded then 0 else amount_of v.tokens) + not_bonded_sum vs

entries_sum : List (Option ℕ) → ℕ
entries_sum [] = 0
entries_sum (b ∷ bs) = amount_of b + entries_sum bs

unfoldable pub unbonding_sum : List (List (Option ℕ)) → ℕ
unfolding entries_sum
unbonding_sum [] = 0
unbonding_sum (u ∷ us) = entries_sum u + unbonding_sum us

module _ {W : Type 0} (names : Names) (k : Keepers W) where
  abbrev pub pool_balance : String → W → ℕ
  pool_balance pool w = k.bank.get_balance (k.auth.module_address pool) names.default_bond_denom w

  abbrev pub bond_coin : ℕ → Coin
  bond_coin n = record { denom = names.default_bond_denom; amount = n }

  -- A mint that fails is logged.
  unfoldable pub fund_bonded : ℕ → W → W
  fund_bonded sum w =
      let balance = pool_balance names.bonded_pool w in
      let minted = (k.bank.mint_coins names.bonded_pool (bond_coin (sum - balance)) w).1 in
      if ltb balance sum then minted else w

  -- The not-bonded pool may not mint: the coins go by the bonded pool. A failed mint ends it, a failed
  -- transfer is logged.
  moved : Coin → Out Unit → W → W
  moved coin (Out.done u) w =
      (k.bank.send_to_module names.bonded_pool names.not_bonded_pool coin w).1
  moved coin _ w = w

  unfoldable pub fund_not_bonded : ℕ → W → W
  unfolding moved
  fund_not_bonded sum w =
      let balance = pool_balance names.not_bonded_pool w in
      let coin = bond_coin (sum - balance) in
      let minted = k.bank.mint_coins names.bonded_pool coin w in
      let after = moved coin minted.0 minted.1 in if ltb balance sum then after else w

  unfoldable pub execute_reconcile_staking_pools : W → W
  execute_reconcile_staking_pools w = elim (k.staking.all_validators w) [
    | err e ↦ w
    | ok vs ↦
        fund_not_bonded (not_bonded_sum vs + unbonding_sum (k.staking.unbondings w))
          (fund_bonded (bonded_sum vs) w)
  ]
