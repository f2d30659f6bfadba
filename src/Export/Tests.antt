-- ===== src/Export/Tests.antt =====
-- A chain of one validator, with a store of each kind that holds one record.
use nexus_node.Common.{
  ℕ, Bool, true, false, List, [], ◌∷◌, Option, none, some, Result, ok, err, ◌≡◌, refl,
  if◌then◌else◌, ◌+◌,
}
use nexus_node.Common.Text.{Bytes, codes, bytes_eq}
use nexus_node.Upgrades.Api.{Chain, Out, App, done, pure, fail}
use nexus_node.Export.{Redelegation, Unbonding, Staker, Info, Keepers}
use nexus_node.Export.Laws.{Stores, Laws}
use nexus_node.Export.Zero.{jailed_after}

-- The address of the validator, in bytes and as a text.
abbrev address : Bytes
address = 7 ∷ []

abbrev operator : Bytes
operator = codes "nexusvaloper1"

abbrev other_operator : Bytes
other_operator = codes "nexusvaloper2"

record World : Type 0 where
  redelegation : Redelegation
  unbonding : Unbonding
  is_jailed : Bool
  in_index : Bool
  unbonding_height : ℕ
  info : Info
  pool : ℕ

abbrev staker : World → Staker
staker w = record {
  operator = operator;
  jailed = w.is_jailed;
  unbonding_height = w.unbonding_height;
}

abbrev index_of : Bool → List Bytes
index_of true = address ∷ []
index_of false = []

-- A jailed validator of the power index is a panic.
abbrev applied : Bool → Bool → ℕ → World → Out Unit × World
applied true true h w = (Out.panicked ("jailed validator" ∷ []), w)
applied true false h w = (done tt, record w { unbonding_height = h })
applied false j h w = (done tt, record w { unbonding_height = h })

-- A store with one key.
abbrev only : {A : Type 0} → Bytes → A → Bytes → Option A
only key a b = if bytes_eq key b then some a else none

abbrev stores : Stores World
stores = record {
  redelegation_key = λ r. 1 ∷ [];
  unbonding_key = λ u. 2 ∷ [];
  info_key = λ b. 3 ∷ [];
  stored = λ w. record {
    redelegations = only (1 ∷ []) w.redelegation;
    unbondings = only (2 ∷ []) w.unbonding;
    validators = only address (staker w);
    infos = only (3 ∷ []) w.info;
    power_index = index_of w.in_index;
  };
}

abbrev quiet : App World Unit
quiet = pure tt

abbrev validator_text : Bytes → Result Chain Bytes
validator_text b = if bytes_eq address b then ok operator else err []

abbrev keepers : Keepers World ℕ
keepers = record {
  codec = record {
    validator_bytes = λ text.
        if bytes_eq operator text
        then ok address
        else if bytes_eq other_operator text
        then ok (8 ∷ [])
        else err [];
    account_bytes = λ text. ok text;
    validator_text = validator_text;
  };
  staking = record {
    validators = λ w. ok (staker w ∷ []);
    delegations =
        λ w. ok (record { delegator_address = codes "nexus1"; validator_address = operator } ∷ []);
    redelegations = λ w. ok (w.redelegation ∷ []);
    set_redelegation = λ r w. (done tt, record w { redelegation = r });
    unbondings = λ w. ok (w.unbonding ∷ []);
    set_unbonding = λ u w. (done tt, record w { unbonding = u });
    validator_keys = λ w. address ∷ [];
    get_validator = λ b w. if bytes_eq address b then ok (staker w) else err [];
    set_validator =
        λ v w. (done tt, record w { is_jailed = v.jailed; unbonding_height = v.unbonding_height });
    close_iterator = quiet;
    apply_validator_set_updates = λ h w. applied w.in_index w.is_jailed h w;
  };
  distribution = record {
    add = λ a b. a + b;
    withdraw_commission = λ h b. fail ("no commission" ∷ []);
    withdraw_rewards = λ h d b. quiet;
    delete_slash_events = quiet;
    delete_historical_rewards = quiet;
    outstanding_rewards = λ b w. ok 5;
    community_pool = λ w. ok w.pool;
    set_community_pool = λ n w. (done tt, record w { pool = n });
    after_validator_created = λ h b. quiet;
    before_delegation_created = λ h d b. quiet;
    after_delegation_modified = λ h d b. quiet;
  };
  slashing = record {
    signing_infos = λ w. ok ((address, w.info) ∷ []);
    set_signing_info = λ b x w. (done tt, record w { info = x });
  };
}

-- A chain at height 90 with an unbonding of height 40.
abbrev chain : World
chain = record {
  redelegation = record {
    delegator = 1 ∷ [];
    source = 2 ∷ [];
    destination = 3 ∷ [];
    entries = record { creation_height = 30; balance = 8 } ∷ [];
  };
  unbonding = record {
    delegator = 1 ∷ [];
    validator = 2 ∷ [];
    entries = record { creation_height = 40; balance = 9 } ∷ [];
  };
  is_jailed = false;
  in_index = false;
  unbonding_height = 12;
  info = record { start_height = 20; tombstoned = false };
  pool = 100;
}

newly_jailed :
    jailed_after (other_operator ∷ []) ((stores.stored chain).validators address) ≡ some true
unfolding bytes_eq
newly_jailed = refl
