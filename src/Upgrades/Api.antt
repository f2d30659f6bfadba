-- ===== src/Upgrades/Api.antt =====
-- The SDK's keepers as cosmos/app/upgrades.go calls them, and what a call comes to. A call that fails
-- keeps what was written before it: nothing rolls the state back.
use nexus_node.Common.{ℕ, Bool, Option, List, ◌∷◌, String, Result, Done, ok, err}
use nexus_node.Common.Text.{Bytes}

-- An error with the texts that wrapped it, the outermost first.
abbrev pub Chain : Type 0
Chain = List String

pub data Out (A : Type 0) : Type 0 where
  done : A → Out A
  failed panicked : Chain → Out A

-- A computation on the chain's state.
abbrev pub App : Type 0 → Type 0 → Type 0
App W A = W → Out A × W

abbrev pub wrap_out : {A : Type 0} → String → Out A → Out A
wrap_out text (done a) = done a
wrap_out text (failed e) = failed (text ∷ e)
wrap_out text (panicked e) = panicked e

abbrev pub panic_out : {A : Type 0} → String → Out A → Out A
panic_out text (done a) = done a
panic_out text (failed e) = panicked (text ∷ e)
panic_out text (panicked e) = panicked e

abbrev pub of_result : {A : Type 0} → Result Chain A → Out A
of_result (ok a) = done a
of_result (err e) = failed e

module _ {W : Type 0} where
  -- What follows a call, by its outcome.
  abbrev pub next : {A B : Type 0} → Out A → W → (A → App W B) → Out B × W
  next (done a) w f = f a w
  next (failed e) w f = (failed e, w)
  next (panicked e) w f = (panicked e, w)

  infixl 5 ◌>>=◌ ◌>>◌
  abbrev pub ◌>>=◌ : {A B : Type 0} → App W A → (A → App W B) → App W B
  ◌>>=◌ m f w = next (m w).0 (m w).1 f

  abbrev pub ◌>>◌ : {B : Type 0} → App W Unit → App W B → App W B
  m >> k = m >>= λ _. k

  abbrev pub pure : {A : Type 0} → A → App W A
  pure a w = (done a, w)

  abbrev pub fail : {A : Type 0} → Chain → App W A
  fail e w = (failed e, w)

  abbrev pub crash : {A : Type 0} → Chain → App W A
  crash e w = (panicked e, w)

  -- `if err := m; err != nil { return fmt.Errorf(text + ": %w", err) }`
  abbrev pub wrap : {A : Type 0} → String → App W A → App W A
  wrap text m w = (wrap_out text (m w).0, (m w).1)

  -- `if err := m; err != nil { panic(…) }`
  abbrev pub or_panic : {A : Type 0} → String → App W A → App W A
  or_panic text m w = (panic_out text (m w).0, (m w).1)

  -- A call that only reads.
  abbrev pub read : {A : Type 0} → (W → Result Chain A) → App W A
  read f w = (of_result (f w), w)

-- A token amount is `none` where the Int is nil. Amounts of a record are never negative; a negative
-- amount of an option is `none` too, which the code treats like nil.
pub record Validator : Type 0 where
  pub operator : Bytes
  -- `GetConsAddr`
  pub cons_addr : Result Chain Bytes
  pub tokens : Option ℕ
  pub delegator_shares : ℕ
  pub bonded : Bool
  pub jailed : Bool
  pub min_self_delegation : Option ℕ
  pub description : String

-- Times are in seconds.
pub record SigningInfo : Type 0 where
  pub address : Bytes
  pub start_height : ℕ
  pub index_offset : ℕ
  pub jailed_until : ℕ
  pub tombstoned : Bool
  pub missed_blocks : ℕ

pub record Coin : Type 0 where
  pub denom : String
  pub amount : ℕ

pub record Bank (W : Type 0) : Type 0 where
  pub mint_coins : String → Coin → App W Unit
  pub burn_coins : String → Coin → App W Unit
  pub send_to_account : String → Bytes → Coin → App W Unit
  pub send_to_module : String → String → Coin → App W Unit
  pub get_balance : Bytes → String → W → ℕ

pub record Staking (W : Type 0) : Type 0 where
  pub get_validator : Bytes → W → Result Chain Validator
  pub set_validator : Validator → App W Unit
  pub set_by_cons_addr : Validator → App W Unit
  pub set_new_by_power_index : Validator → App W Unit
  pub delete_by_power_index : Validator → App W Unit
  -- `Delegate` of the message server: delegator, validator, amount.
  pub delegate : Bytes → Bytes → Coin → App W Unit
  pub bond_denom : W → Result Chain String
  pub all_validators : W → Result Chain (List Validator)
  -- The balances of the entries of the unbonding delegations that `IterateUnbondingDelegations` visits.
  pub unbondings : W → List (List (Option ℕ))
  -- `NewValidator`: operator, public key, description.
  pub new_validator : Bytes → Bytes → String → Result Chain Validator

pub record Slashing (W : Type 0) : Type 0 where
  pub get_signing_info : Bytes → W → Result Chain SigningInfo
  pub set_signing_info : Bytes → SigningInfo → App W Unit
  pub unjail : Bytes → App W Unit

-- The distribution keeper, with the values that the code passes built in.
pub record Distribution (W : Type 0) : Type 0 where
  pub init_historical_rewards : Bytes → App W Unit
  pub init_current_rewards : Bytes → App W Unit
  pub init_commission : Bytes → App W Unit
  pub get_fee_pool : W → Result Chain Done
  pub init_fee_pool : App W Unit

pub record Auth (W : Type 0) : Type 0 where
  pub has_account : Bytes → W → Bool
  -- `NewAccountWithAddress` and `SetAccount`
  pub set_new_account : Bytes → App W Unit
  pub module_address : String → Bytes

-- The keepers of `App`, with the height and the time of the block.
pub record Keepers (W : Type 0) : Type 0 where
  pub bank : Bank W
  pub staking : Staking W
  pub slashing : Slashing W
  pub distribution : Distribution W
  pub auth : Auth W
  pub block_height : ℕ
  pub block_time : ℕ

-- `sdk.DefaultBondDenom`, `stakingtypes.BondedPoolName`, `stakingtypes.NotBondedPoolName`: names that
-- the SDK chooses.
pub record Names : Type 0 where
  pub default_bond_denom : String
  pub bonded_pool : String
  pub not_bonded_pool : String
