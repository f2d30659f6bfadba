-- ===== src/Upgrades/Tests.antt =====
-- A chain with one validator.
use nexus_node.Common.{
  ℕ, ◌+◌, ◌-◌, ◌≡◌, ◌≢◌, refl, Option, none, some, List, [], ◌∷◌, Result, Done, ok, err, true,
  false, arith, if◌then◌else◌, ◌==◌, String, str_eq, Option-cases, inl, inr,
}
use nexus_node.Common.Text.{Bytes}
use nexus_node.Upgrades.Api.{
  Out, App, Chain, Validator, SigningInfo, Coin, Bank, Staking, Keepers, Names,
}
use nexus_node.Upgrades.Balance.{
  amount_of, execute_unjailing, set_validator_balance, mint_and_delegate,
}
use nexus_node.Upgrades.Balance.Floor.{tokens_at, TokenLaws, unjailing-floor}
use nexus_node.Upgrades.Add.{AddValidatorOptions, execute_add_validator}
use nexus_node.Upgrades.Add.Effects.{AddLaws, unpersisted-fails}
use nexus_node.Upgrades.Remove.{RemoveValidatorOptions, execute_remove_validator}
use nexus_node.Upgrades.Remove.Laws.{RemoveLaws, IsTombstoned}
use nexus_node.Upgrades.Remove.Effects.{removal-final}
use nexus_node.Upgrades.Reconcile.{bonded_sum, pool_balance, execute_reconcile_staking_pools}
use nexus_node.Upgrades.Reconcile.Funded.{max, PoolLaws, owed_not_bonded, reconcile-funds}

record World : Type 0 where
  pub bonded : ℕ
  pub not_bonded : ℕ
  pub validator : Option Validator
  pub info : SigningInfo

abbrev names : Names
names = record {
  default_bond_denom = "stake";
  bonded_pool = "bonded";
  not_bonded_pool = "not bonded";
}

abbrev add_to_pool : String → ℕ → World → World
add_to_pool pool n w =
    if str_eq pool "bonded"
    then record w { bonded = w.bonded + n }
    else record w { not_bonded = w.not_bonded + n }

abbrev take_from_pool : String → ℕ → World → World
take_from_pool pool n w =
    if str_eq pool "bonded"
    then record w { bonded = w.bonded - n }
    else record w { not_bonded = w.not_bonded - n }

abbrev balance_of : Bytes → World → ℕ
balance_of [] w = 0
balance_of (c ∷ _) w = if c == 0 then w.bonded else w.not_bonded

abbrev bank : Bank World
bank = record {
  mint_coins = λ pool c w. (Out.done tt, add_to_pool pool c.amount w);
  burn_coins = λ pool c w. (Out.done tt, take_from_pool pool c.amount w);
  send_to_account = λ pool to c w. (Out.done tt, take_from_pool pool c.amount w);
  send_to_module =
      λ from to c w. (Out.done tt, add_to_pool to c.amount (take_from_pool from c.amount w));
  get_balance = λ addr denom w. balance_of addr w;
}

abbrev found : Option Validator → Result Chain Validator
found none = err ("no validator" ∷ [])
found (some v) = ok v

abbrev delegated : Option Validator → Coin → App World Done
delegated none c w = (Out.failed ("no validator" ∷ []), w)
delegated (some v) c w = (
  Out.done tt,
  record w {
    validator = some (record v { tokens = some (amount_of v.tokens + c.amount) });
    bonded = w.bonded + c.amount;
  },
)

abbrev validators : Option Validator → List Validator
validators none = []
validators (some v) = v ∷ []

abbrev keep : App World Done
keep w = (Out.done tt, w)

abbrev staking : Staking World
staking = record {
  get_validator = λ addr w. found w.validator;
  set_validator = λ v w. (Out.done tt, record w { validator = some v });
  set_by_cons_addr = λ v. keep;
  set_new_by_power_index = λ v. keep;
  delete_by_power_index = λ v. keep;
  delegate = λ delegator addr c w. delegated w.validator c w;
  bond_denom = λ w. ok "stake";
  all_validators = λ w. ok (validators w.validator);
  unbondings = λ w. (some 2 ∷ none ∷ []) ∷ [];
  new_validator = λ addr key description. err [];
}

abbrev keepers : Keepers World
keepers = record {
  bank = bank;
  staking = staking;
  slashing = record {
    get_signing_info = λ cons w. ok w.info;
    set_signing_info = λ cons i w. (Out.done tt, record w { info = i });
    unjail = λ addr. keep;
  };
  distribution = record {
    init_historical_rewards = λ addr. keep;
    init_current_rewards = λ addr. keep;
    init_commission = λ addr. keep;
    get_fee_pool = λ w. ok tt;
    init_fee_pool = keep;
  };
  auth = record {
    has_account = λ addr w. false;
    set_new_account = λ addr. keep;
    module_address = λ pool. (if str_eq pool "bonded" then 0 else 1) ∷ [];
  };
  block_height = 50;
  block_time = 1000;
}

abbrev operator : Bytes
operator = 5 ∷ []

abbrev consensus : Bytes
consensus = 6 ∷ []

abbrev slashed : Validator
slashed = record {
  operator = operator;
  cons_addr = ok consensus;
  tokens = some 40;
  delegator_shares = 40;
  bonded = true;
  jailed = false;
  min_self_delegation = some 1;
  description = "";
}

abbrev healthy : SigningInfo
healthy = record {
  address = consensus;
  start_height = 1;
  index_offset = 0;
  jailed_until = 0;
  tombstoned = false;
  missed_blocks = 0;
}

-- The bonded pool holds less than the validator's tokens.
abbrev short_pool : World
short_pool = record { bonded = 30; not_bonded = 0; validator = some slashed; info = healthy }

abbrev nobody : World
nobody = record { bonded = 30; not_bonded = 0; validator = none; info = healthy }

delegate_tokens :
    (c : Coin) (w : World) (n : ℕ)
    → tokens_at keepers operator w ≡ some n
    → tokens_at keepers operator (staking.delegate operator operator c w).1 ≡ some (n + c.amount)
delegate_tokens c w n h = elim (Option-cases w.validator) [
  | inl missing ↦ absurd (ground arith)
  | inr (v, there) ↦ ground arith
]

delegate_missing :
    (c : Coin) (w : World)
    → tokens_at keepers operator w ≡ none
    → (staking.delegate operator operator c w).0 ≢ Out.done tt
delegate_missing c w h e = elim (Option-cases w.validator) [
  | inl missing ↦ ground arith
  | inr (v, there) ↦ ground arith
]

token_laws : TokenLaws keepers operator
token_laws = record {
  mint-tokens = λ pool c w. ground arith;
  send-tokens = λ pool to c w. ground arith;
  delegate-tokens = λ c w n h d. delegate_tokens c w n h;
  signing-tokens = λ cons i w. refl;
  unjail-tokens = λ w. refl;
}

add_laws : AddLaws keepers operator
add_laws = record {
  tokens = token_laws;
  delegate-missing = delegate_missing;
  account-tokens = λ w. refl;
}

remove_laws : RemoveLaws names keepers "stake"
remove_laws = record {
  signing-done = λ cons i w. refl;
  signing-get = λ cons i w. refl;
  signing-validator = λ cons addr i w. refl;
  index-done = λ v w. refl;
  index-validator = λ v addr w. refl;
  index-signing = λ v cons w. refl;
  denom-known = λ w. refl;
  blocked = λ to. false;
  burn-done = λ pool c w own h. refl;
  burn-validator = λ pool c addr w. ground arith;
  burn-signing = λ pool c cons w. ground arith;
  send-done = λ pool to c w free h. refl;
  send-validator = λ pool to c addr w. ground arith;
  send-signing = λ pool to c cons w. ground arith;
  store-done = λ v w. refl;
  store-get = λ v w. refl;
  store-signing = λ v cons w. refl;
}

pool_laws : PoolLaws names keepers
pool_laws = record {
  mint-done = λ n w. refl;
  mint-bonded = λ n w. refl;
  mint-not_bonded = λ n w. refl;
  send-bonded = λ n w h. omega arith;
  send-not_bonded = λ n w h. refl;
  mint-validators = λ n w. refl;
  mint-unbondings = λ n w. refl;
  send-validators = λ n w. refl;
  send-unbondings = λ n w. refl;
}

unjailed : (execute_unjailing names keepers operator (some 100) short_pool).0 ≡ Out.done tt
unfolding execute_unjailing set_validator_balance mint_and_delegate
unjailed = refl

unjailing-floor_example :
    tokens_at keepers operator (execute_unjailing names keepers operator (some 100) short_pool).1
    ≡ some 100
unjailing-floor_example =
    unjailing-floor names keepers operator token_laws slashed (some 100) short_pool refl unjailed

-- No minimum is set.
abbrev options : AddValidatorOptions
options = record {
  pub_key = some (1 ∷ []);
  description = "";
  initial_tokens = some 10;
  min_self_delegation = some 0;
}

unpersisted-fails_example :
    (execute_add_validator names keepers operator (some options) nobody).0 ≢ Out.done tt
unpersisted-fails_example =
    unpersisted-fails names keepers operator add_laws options nobody refl refl

abbrev burn_all : RemoveValidatorOptions
burn_all = record { burn_tokens = true; token_recipient = none }

removal-final_example :
    let p = execute_remove_validator names keepers operator (some burn_all) short_pool in
    (p.0 ≡ Out.done tt)
    × ((v : Validator) × (keepers.staking.get_validator operator p.1 ≡ ok v) × (v.jailed ≡ true))
    × IsTombstoned keepers consensus p.1
removal-final_example =
    removal-final names keepers "stake" remove_laws slashed consensus (some burn_all) healthy
      short_pool refl refl refl (λ recipient no given. absurd (cc))

reconcile-funds_example :
    let after = execute_reconcile_staking_pools names keepers short_pool in
    (pool_balance names keepers "bonded" after ≡ max 30 (bonded_sum (slashed ∷ [])))
    × (pool_balance names keepers "not bonded" after
        ≡ max 0 (owed_not_bonded names keepers pool_laws (slashed ∷ []) short_pool))
    × (keepers.staking.all_validators after ≡ ok (slashed ∷ []))
    × (keepers.staking.unbondings after ≡ keepers.staking.unbondings short_pool)
reconcile-funds_example = reconcile-funds names keepers pool_laws (slashed ∷ []) short_pool refl
