-- ===== src/Testnet/InPlace.antt =====
-- cosmos/cmd/nexusd/cmd/testnet.go: a chain's state is turned into that of a network with one
-- validator. The keepers are arguments. Where `handleErr` ends the process, the computation panics
-- here.
mod Cleared
mod Single
mod Unfunded
mod Tests
use nexus_node.Common.{ℕ, ◌-◌, Bool, true, false, List, [], ◌∷◌, String, Result, ok, err}
use nexus_node.Common.Text.{Bytes, codes}
use nexus_node.Upgrades.Api.{Chain, App, Out, done, failed, panicked, next, ◌>>=◌, ◌>>◌, pure, read}
use nexus_node.Export.{must, must_out, ignore, dropped, walk}
use nexus_node.Testnet.Options.{ValArgs, Options, get_command_args}

-- `stakingtypes.Validator` as the command fills it; decimals are texts.
pub record NewValidator : Type 0 where
  pub operator : Bytes
  pub pub_key : Bytes
  pub jailed : Bool
  pub bonded : Bool
  pub tokens : ℕ
  pub delegator_shares : Bytes
  pub moniker : Bytes
  pub rate : Bytes
  pub max_rate : Bytes
  pub max_change_rate : Bytes
  pub min_self_delegation : ℕ

-- The staking keeper and its store. `keys_under` lists the keys with a prefix.
pub record Staking (W : Type 0) : Type 0 where
  pub validator_bytes : Bytes → Result Chain Bytes
  pub power_keys : W → Result Chain (List Bytes)
  pub last_validator_keys : W → Result Chain (List Bytes)
  pub keys_under : Bytes → W → List Bytes
  -- `ValidatorsKey` and `ValidatorQueueKey`
  pub validators_prefix : Bytes
  pub validator_queue_prefix : Bytes
  pub delete : Bytes → App W Unit
  pub set_validator : NewValidator → App W Unit
  pub set_by_cons_addr : NewValidator → App W Unit
  pub set_by_power_index : NewValidator → App W Unit
  pub set_last_power : Bytes → ℕ → App W Unit
  pub after_validator_created : Bytes → App W Unit
  pub bond_denom : W → Result Chain Bytes

-- The distribution keeper, with the values that the code passes built in.
pub record Distribution (W : Type 0) : Type 0 where
  pub set_historical_rewards : Bytes → App W Unit
  pub set_current_rewards : Bytes → App W Unit
  pub set_commission : Bytes → App W Unit
  pub set_outstanding_rewards : Bytes → App W Unit

pub record Bank (W : Type 0) : Type 0 where
  -- Into the mint module's account, of a denomination.
  pub mint_coins : Bytes → ℕ → App W Unit
  pub account_bytes : Bytes → Result Chain Bytes
  pub send_to_account : Bytes → Bytes → ℕ → App W Unit

pub record Keepers (W : Type 0) : Type 0 where
  pub pack_key : Bytes → Result Chain Bytes
  pub staking : Staking W
  pub distribution : Distribution W
  -- Address and start height of the new signing info, which is not tombstoned.
  pub set_signing_info : Bytes → ℕ → App W Unit
  pub bank : Bank W
  pub last_block_height : W → ℕ

abbrev pub new_validator : ValArgs → Bytes → NewValidator
new_validator args key = record {
  operator = args.new_operator_address;
  pub_key = key;
  jailed = false;
  bonded = true;
  tokens = 900000000000000;
  delegator_shares = codes "10000000";
  moniker = codes "Testnet Validator";
  rate = codes "0.05";
  max_rate = codes "0.1";
  max_change_rate = codes "0.05";
  min_self_delegation = 1;
}

module _ {W : Type 0} (k : Keepers W) where
  -- Delete the keys that an iterator visits.
  abbrev pub delete_all : List Bytes → App W Unit
  delete_all = walk k.staking.delete

  abbrev pub delete_under : Bytes → App W Unit
  delete_under prefix w = delete_all (k.staking.keys_under prefix w) w

  -- The old validators leave the four stores.
  unfoldable pub clear_validators : App W Unit
  clear_validators = do
    powers ← must (read k.staking.power_keys)
    delete_all powers
    lasts ← must (read k.staking.last_validator_keys)
    delete_all lasts
    delete_under k.staking.validators_prefix
    delete_under k.staking.validator_queue_prefix

  unfoldable pub add_validator : NewValidator → Bytes → App W Unit
  add_validator val addr = do
    must (k.staking.set_validator val)
    must (k.staking.set_by_cons_addr val)
    must (k.staking.set_by_power_index val)
    must (k.staking.set_last_power addr 0)
    must (k.staking.after_validator_created addr)

  unfoldable pub init_distribution : Bytes → App W Unit
  init_distribution addr = do
    must (k.distribution.set_historical_rewards addr)
    must (k.distribution.set_current_rewards addr)
    must (k.distribution.set_commission addr)
    must (k.distribution.set_outstanding_rewards addr)

  unfoldable pub add_signing_info : ValArgs → App W Unit
  add_signing_info args w =
      ignore (k.set_signing_info args.new_val_addr (k.last_block_height w - 1)) w

  -- A billion of the bond denomination for an account.
  unfoldable pub fund : Bytes → Bytes → App W Unit
  fund denom text = do
    must (k.bank.mint_coins denom 1000000000)
    account ← must (read (λ _. k.bank.account_bytes text))
    must (k.bank.send_to_account account denom 1000000000)

  unfoldable pub fund_accounts : List Bytes → App W Unit
  fund_accounts accounts = do denom ← must (read k.staking.bond_denom); walk (fund denom) accounts

  unfoldable pub init_app_for_testnet : ValArgs → App W Unit
  init_app_for_testnet args = do
    key ← must (read (λ _. k.pack_key args.new_val_pub_key))
    addr ← must (read (λ _. k.staking.validator_bytes args.new_operator_address))
    clear_validators
    add_validator (new_validator args key) addr
    init_distribution addr
    add_signing_info args
    fund_accounts args.accounts_to_fund

  -- The application is there when the options are read.
  unfoldable pub new_testnet_app : Options → App W Unit
  new_testnet_app o = do args ← must (read (λ _. get_command_args o)); init_app_for_testnet args
