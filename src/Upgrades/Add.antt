-- ===== src/Upgrades/Add.antt =====
-- cosmos/app/upgrades.go: `ExecuteAddValidator`.
pub mod Effects
use nexus_node.Common.{
  ℕ, ◌-◌, Option, none, some, Result, ok, err, Bool, true, false, String, leb, if◌then◌else◌, [],
  ◌∷◌,
}
use nexus_node.Common.Text.{Bytes}
use nexus_node.Upgrades.Api.{
  Out, App, ◌>>=◌, ◌>>◌, pure, fail, wrap, read, Validator, SigningInfo, Coin, Keepers, Names,
  Chain,
}
use nexus_node.Upgrades.Balance.{set_validator_balance}

pub record AddValidatorOptions : Type 0 where
  pub pub_key : Option Bytes
  pub description : String
  pub initial_tokens : Option ℕ
  pub min_self_delegation : Option ℕ

-- `!a.IsNil() && a.IsPositive()`
abbrev pub is_positive : Option ℕ → Bool
is_positive none = false
is_positive (some n) = leb 1 n

module _ {W : Type 0} (names : Names) (k : Keepers W) where
  ensure_account : Bytes → App W Unit
  ensure_account addr w =
      if k.auth.has_account addr w then (Out.done tt, w) else k.auth.set_new_account addr w

  ensure_signing_info : Bytes → App W Unit
  ensure_signing_info cons_addr w = elim (k.slashing.get_signing_info cons_addr w) [
    | ok info ↦ (Out.done tt, w)
    | err e ↦
        wrap "failed to set signing info"
          (k.slashing.set_signing_info cons_addr (record {
            address = cons_addr;
            start_height = k.block_height;
            index_offset = k.block_height - 1;
            jailed_until = 0;
            tombstoned = false;
            missed_blocks = 0;
          }))
          w
  ]

  ensure_fee_pool : App W Unit
  ensure_fee_pool w = elim (k.distribution.get_fee_pool w) [
    | ok u ↦ (Out.done tt, w)
    | err e ↦ wrap "failed to initialize fee pool" k.distribution.init_fee_pool w
  ]

  -- The block under a positive `MinSelfDelegation`: the only place that stores the new validator.
  persist : Bytes → Validator → App W Validator
  unfolding ensure_signing_info ensure_fee_pool
  persist val_addr validator = do
    wrap "failed to persist validator" (k.staking.set_validator validator)
    wrap "failed to index validator by cons addr" (k.staking.set_by_cons_addr validator)
    wrap "failed to index validator by power" (k.staking.set_new_by_power_index validator)
    cons_addr ← wrap "failed to get consensus address" (read (λ _. validator.cons_addr))
    ensure_signing_info cons_addr
    wrap "failed to set validator historical rewards"
        (k.distribution.init_historical_rewards val_addr)
    wrap "failed to set validator current rewards" (k.distribution.init_current_rewards val_addr)
    wrap "failed to set validator accumulated commission" (k.distribution.init_commission val_addr)
    ensure_fee_pool
    wrap "failed to load validator after creation" (read (k.staking.get_validator val_addr))

  persisted : Bytes → Option ℕ → Validator → App W Validator
  unfolding persist
  persisted val_addr min_self_delegation validator =
      if is_positive min_self_delegation
      then persist val_addr (record validator { min_self_delegation = min_self_delegation })
      else pure validator

  -- The validator is not there, the options have a key and a positive amount.
  create : Bytes → Bytes → ℕ → AddValidatorOptions → App W Unit
  unfolding ensure_account persisted
  create val_addr key initial_tokens opts = do
    ensure_account val_addr
    new ←
        wrap "failed to build validator"
          (read (λ _. k.staking.new_validator val_addr key opts.description))
    validator ←
        persisted val_addr opts.min_self_delegation
          (record new { bonded = true; tokens = some 0; delegator_shares = 0 })
    wrap "failed to ensure validator balance"
        (set_validator_balance names k val_addr validator initial_tokens)

  with_options : Bytes → Chain → Option AddValidatorOptions → App W Unit
  unfolding create
  with_options val_addr e none = fail ("validator not found" ∷ e)
  with_options val_addr e (some opts) = elim opts.pub_key [
    | none ↦ fail ("validator not found" ∷ e)
    | some key ↦
        if is_positive opts.initial_tokens
        then elim opts.initial_tokens [ none ↦ pure tt | some n ↦ create val_addr key n opts ]
        else fail ("initial_tokens must be a positive amount" ∷ [])
  ]

  unfoldable pub execute_add_validator : Bytes → Option AddValidatorOptions → App W Unit
  unfolding with_options
  execute_add_validator val_addr opts w = elim (k.staking.get_validator val_addr w) [
    | ok validator ↦ (Out.done tt, w)
    | err e ↦ with_options val_addr e opts w
  ]
