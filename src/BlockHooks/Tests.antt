-- ===== src/BlockHooks/Tests.antt =====
-- Two hooks of one height on a chain that keeps nothing but a count of the reconciliations.
use nexus_node.Common.{
  ℕ, suc, ◌≡◌, refl, arith, none, some, List, [], ◌∷◌, Done, Result, ok, err, Bool, false, String,
  All,
}
use nexus_node.Common.Text.{Bytes, codes}
use nexus_node.Telemetry
use nexus_node.Telemetry.{update_validator_metrics}
use nexus_node.Upgrades.Api.{Out, App, Chain, Keepers, Names}
use nexus_node.Upgrades.Balance.{execute_unjailing}
use nexus_node.BlockHooks.Parse.{Value, Fields, RawHook, BlockHook, HookParams, Parsers, parse_hook}
use nexus_node.BlockHooks.{BlockHooks, append_hook, load_hooks, perform_hook, end_blocker}
use nexus_node.BlockHooks.Load.{Parsed, scheduled, load_hooks-order}
use nexus_node.BlockHooks.Typing.{action_of, loaded_hooks_perform}
use nexus_node.BlockHooks.Run.{all_hooks, NoPanic, end_blocker-all}

abbrev parsers : Parsers
parsers = record {
  parse_int64 = λ s. some (some 5);
  parse_bool = λ s. none;
  decode_base64 = λ s. none;
  acc_address = λ s. none;
  val_address = λ s. some (1 ∷ []);
  lower = λ s. s;
  key_type = "ed25519";
  key_size = 32;
}

abbrev raw_unjail : RawHook
raw_unjail = record {
  block = 8;
  action = "unjail";
  params = Value.mapping (Fields.field "validator" (Value.text "nexusvaloper1") Fields.no_fields);
}

abbrev raw_reconcile : RawHook
raw_reconcile = record { block = 8; action = "reconcile_staking_pools"; params = Value.unknown }

abbrev unjail : BlockHook
unjail = record {
  block = 8;
  action = "unjail";
  params = HookParams.unjail_params "nexusvaloper1" none;
}

abbrev reconcile : BlockHook
reconcile = record {
  block = 8;
  action = "reconcile_staking_pools";
  params = HookParams.reconcile_params;
}

abbrev loaded : BlockHooks parsers
loaded = append_hook parsers reconcile (append_hook parsers unjail (λ b. []))

both_loaded : load_hooks parsers (λ b. []) (raw_unjail ∷ raw_reconcile ∷ []) ≡ ok loaded
unfolding load_hooks parse_hook
both_loaded = refl

load_hooks-order_test :
    (parsed : List BlockHook) × Parsed parsers (raw_unjail ∷ raw_reconcile ∷ []) parsed
    × ((b : ℕ) → loaded b ≡ scheduled parsers b parsed)
load_hooks-order_test =
    load_hooks-order parsers loaded (raw_unjail ∷ raw_reconcile ∷ []) both_loaded

abbrev names : Names
names = record {
  default_bond_denom = "stake";
  bonded_pool = "bonded";
  not_bonded_pool = "not bonded";
}

abbrev keep : App ℕ Done
keep w = (Out.done tt, w)

abbrev missing : Chain
missing = "no validator" ∷ []

-- Nothing is in the pools, and 4 coins are owed to a delegator: a mint is counted.
abbrev keepers : Keepers ℕ
keepers = record {
  bank = record {
    mint_coins = λ pool c w. (Out.done tt, suc w);
    burn_coins = λ pool c. keep;
    send_to_account = λ pool to c. keep;
    send_to_module = λ from to c. keep;
    get_balance = λ addr denom w. 0;
  };
  staking = record {
    get_validator = λ addr w. err missing;
    set_validator = λ v. keep;
    set_by_cons_addr = λ v. keep;
    set_new_by_power_index = λ v. keep;
    delete_by_power_index = λ v. keep;
    delegate = λ delegator addr c. keep;
    bond_denom = λ w. ok "stake";
    all_validators = λ w. ok [];
    unbondings = λ w. (some 4 ∷ []) ∷ [];
    new_validator = λ addr key description. err missing;
  };
  slashing = record {
    get_signing_info = λ cons w. err missing;
    set_signing_info = λ cons i. keep;
    unjail = λ addr. keep;
  };
  distribution = record {
    init_historical_rewards = λ addr. keep;
    init_current_rewards = λ addr. keep;
    init_commission = λ addr. keep;
    get_fee_pool = λ w. ok tt;
    init_fee_pool = keep;
  };
  auth = record {
    has_account = λ addr w. false;
    set_new_account = λ addr. keep;
    module_address = λ pool. [];
  };
  block_height = 8;
  block_time = 1000;
}

unjail_fails :
    (w : ℕ)
    → (perform_hook parsers names keepers unjail w).0
      ≡ Out.failed ("failed to get validator" ∷ missing)
unfolding perform_hook execute_unjailing
unjail_fails w = refl

reconcile-done : (w : ℕ) → (perform_hook parsers names keepers reconcile w).0 ≡ Out.done tt
unfolding perform_hook
reconcile-done w = refl

-- A bonded validator; the signing info of nobody is known.
abbrev visits : ℕ → List Telemetry.Validator × Bool
visits w = (
  record {
    moniker = codes "a";
    operator = codes "va";
    status = Telemetry.BondStatus.bonded;
    jailed = false;
    cons_addr = err "no public key";
  }
      ∷ [],
  false,
)

abbrev infos : ℕ → Bytes → Result String Bool
infos w addr = err "no signing info"

-- The unjailing fails, and the reconciliation behind it runs.
end_blocker-all_example :
    let after = all_hooks parsers names keepers (unjail ∷ reconcile ∷ []) 0 in
    end_blocker parsers names keepers loaded visits infos keep 0
    ≡ (Out.done tt, after, update_validator_metrics (infos after) (visits after).0 (visits after).1)
unfolding append_hook
end_blocker-all_example =
    end_blocker-all parsers names keepers loaded visits infos keep tt 0 refl calm
  where
    calm : NoPanic parsers names keepers (unjail ∷ reconcile ∷ []) 0
    calm = (
      (λ e h. ground (arith, unjail_fails 0)),
      ((λ e h. ground (arith, reconcile-done (perform_hook parsers names keepers unjail 0).1)), tt),
    )

loaded_hooks_perform_example :
    All
      (λ hook.
        perform_hook parsers names keepers hook ≡ action_of parsers names keepers hook.params)
      (loaded 8)
loaded_hooks_perform_example =
    loaded_hooks_perform parsers names keepers (raw_unjail ∷ raw_reconcile ∷ []) loaded 8
      both_loaded
