-- ===== src/Upgrades/Remove.antt =====
-- cosmos/app/upgrades.go: `ExecuteRemoveValidator`, `tombstoneValidator`, `handleValidatorTokens`.
pub mod Laws
pub mod Effects
use nexus_node.Common.{
  ℕ, ◌-◌, Option, none, some, Result, ok, err, Bool, true, false, not, ◌||◌, ◌&&◌, String, ltb, leb,
  if◌then◌else◌, is_some,
}
use nexus_node.Common.Text.{Bytes}
use nexus_node.Upgrades.Api.{
  Out, App, ◌>>=◌, ◌>>◌, pure, or_panic, read, Validator, SigningInfo, Coin, Keepers, Names,
}
use nexus_node.Upgrades.Balance.{amount_of}

pub record RemoveValidatorOptions : Type 0 where
  pub burn_tokens : Bool
  pub token_recipient : Option Bytes

-- `time.Unix(253402300799, 0)`
abbrev pub year_9999 : ℕ
year_9999 = 253402300799

module _ {W : Type 0} (names : Names) (k : Keepers W) where
  unfoldable pub mark_tombstoned : Bytes → SigningInfo → App W Unit
  mark_tombstoned cons_addr info =
      let mark = or_panic "failed to tombstone validator" (
        k.slashing.set_signing_info cons_addr
          (record info { tombstoned = true; jailed_until = year_9999 })) in
      if info.tombstoned then pure tt else mark

  unfoldable pub tombstone_validator : Bytes → App W Unit
  unfolding mark_tombstoned
  tombstone_validator cons_addr = do
    info ←
        or_panic "failed to get validator signing info"
          (read (k.slashing.get_signing_info cons_addr))
    mark_tombstoned cons_addr info

  abbrev pub pool_of : Validator → String
  pool_of validator = if validator.bonded then names.bonded_pool else names.not_bonded_pool

  -- The amount, capped to what the pool holds.
  abbrev pub capped_amount : Validator → String → W → ℕ
  capped_amount validator denom w =
      let tokens = amount_of validator.tokens in
      let balance = k.bank.get_balance (k.auth.module_address (pool_of validator)) denom w in
      if ltb balance tokens then balance else tokens

  -- The call of the bank by the options; one of the two is set.
  burned : String → Coin → App W Bool
  burned pool coin = do or_panic "failed to burn tokens" (k.bank.burn_coins pool coin); pure true

  transferred : String → Coin → Option Bytes → App W Bool
  transferred pool coin none = pure false
  transferred pool coin (some recipient) = do
    or_panic "failed to transfer tokens" (k.bank.send_to_account pool recipient coin)
    pure true

  -- The call of the bank by the options; one of the two is set.
  take_out : RemoveValidatorOptions → String → Coin → App W Bool
  unfolding burned transferred
  take_out opts pool coin =
      if opts.burn_tokens then burned pool coin else transferred pool coin opts.token_recipient

  take_capped : RemoveValidatorOptions → Validator → String → App W Bool
  unfolding take_out
  take_capped opts validator denom w =
      let amount = capped_amount validator denom w in
      let taken = take_out opts (pool_of validator) (record { denom = denom; amount = amount }) w in
      if leb 1 amount then taken else (Out.done false, w)

  take_tokens : RemoveValidatorOptions → Validator → App W Bool
  unfolding take_capped
  take_tokens opts validator = do
    denom ← or_panic "failed to get bond denom" (read k.staking.bond_denom)
    take_capped opts validator denom

  unfoldable pub handle_validator_tokens : Validator → Option RemoveValidatorOptions → App W Bool
  unfolding take_tokens
  handle_validator_tokens validator none = pure false
  handle_validator_tokens validator (some opts) =
      if leb 1 (amount_of validator.tokens) && (opts.burn_tokens || is_some opts.token_recipient)
      then take_tokens opts validator
      else pure false

  drop_power_index : Validator → App W Unit
  drop_power_index validator =
      let drop =
        or_panic "failed to delete validator from power index"
          (k.staking.delete_by_power_index validator) in
      if validator.jailed then pure tt else drop

  -- The record that is stored: jailed, and empty if tokens went.
  abbrev pub removed : Validator → Bool → Validator
  removed validator true = record validator { jailed = true; tokens = some 0; delegator_shares = 0 }
  removed validator false = record validator { jailed = true }

  update_record : Validator → Bool → App W Unit
  update_record validator tokens_burned =
      let update =
        or_panic "failed to update validator"
          (k.staking.set_validator (removed validator tokens_burned)) in
      if not validator.jailed || tokens_burned then update else pure tt

  unfoldable pub execute_remove_validator : Bytes → Option RemoveValidatorOptions → App W Unit
  unfolding drop_power_index update_record
  execute_remove_validator val_addr opts = do
    validator ← or_panic "validator not found" (read (k.staking.get_validator val_addr))
    cons_addr ← or_panic "failed to get consensus address" (read (λ _. validator.cons_addr))
    tombstone_validator cons_addr
    drop_power_index validator
    tokens_burned ← handle_validator_tokens validator opts
    update_record validator tokens_burned
