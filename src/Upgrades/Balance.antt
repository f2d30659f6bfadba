-- ===== src/Upgrades/Balance.antt =====
-- cosmos/app/upgrades.go: `setValidatorBalance` and `ExecuteUnjailing`.
pub mod Floor
use nexus_node.Common.{
  ℕ, ◌-◌, Option, none, some, Result, ok, err, Bool, true, false, ltb, if◌then◌else◌,
}
use nexus_node.Common.Text.{Bytes}
use nexus_node.Upgrades.Api.{
  App, ◌>>=◌, ◌>>◌, pure, fail, wrap, read, Validator, SigningInfo, Coin, Keepers, Names,
}

-- A nil amount counts as zero.
abbrev pub amount_of : Option ℕ → ℕ
amount_of none = 0
amount_of (some n) = n

module _ {W : Type 0} (names : Names) (k : Keepers W) where
  -- Mint into the bonded pool, send to the operator's account, delegate. The operator's account has
  -- the bytes of the validator's address.
  unfoldable pub mint_and_delegate : Bytes → Coin → App W Unit
  mint_and_delegate val_addr coin = do
    wrap "failed to mint additional tokens" (k.bank.mint_coins names.bonded_pool coin)
    wrap "failed to send minted tokens to validator account"
        (k.bank.send_to_account names.bonded_pool val_addr coin)
    wrap "failed to delegate tokens to validator account"
        (k.staking.delegate val_addr val_addr coin)

  unfoldable pub set_validator_balance : Bytes → Validator → ℕ → App W Unit
  set_validator_balance val_addr validator target =
      let tokens = amount_of validator.tokens in
      let top_up =
        mint_and_delegate val_addr
          (record { denom = names.default_bond_denom; amount = target - tokens }) in
      if ltb tokens target then top_up else pure tt

  restore : Bytes → Validator → Option ℕ → App W Unit
  restore val_addr validator none = pure tt
  restore val_addr validator (some target) =
      wrap "failed to restore validator balance" (set_validator_balance val_addr validator target)

  -- Let the jail time be over, and unjail.
  release : Bytes → Validator → App W Unit
  release val_addr validator = do
    cons_addr ← wrap "failed to get consensus address" (read (λ _. validator.cons_addr))
    info ← wrap "failed to get signing info" (read (k.slashing.get_signing_info cons_addr))
    wrap "failed to update signing info"
        (k.slashing.set_signing_info cons_addr (record info { jailed_until = k.block_time - 1 }))
    wrap "failed to unjail validator" (k.slashing.unjail val_addr)

  unfoldable pub execute_unjailing : Bytes → Option ℕ → App W Unit
  unfolding restore release
  execute_unjailing val_addr target_tokens = do
    validator ← wrap "failed to get validator" (read (k.staking.get_validator val_addr))
    restore val_addr validator target_tokens
    release val_addr validator
