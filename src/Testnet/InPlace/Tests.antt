-- ===== src/Testnet/InPlace/Tests.antt =====
-- A store that is a list of keys, the first byte of which tells the store, and the coins of the mint
-- module.
use nexus_node.Common.{
  ℕ, ◌+◌, ◌-◌, ◌≤◌, leb, Bool, true, false, not, ◌&&◌, ◌||◌, List, [], ◌∷◌, some, ok, err, ◌≡◌, ◌≢◌,
  refl, sym, ap, ◌∙◌, arith, if◌then◌else◌, is_empty, Bool-cases, inl, inr,
}
use nexus_node.Common.Text.{Bytes, codes, bytes_eq, has_prefix, bytes_eq_sound}
use nexus_node.Upgrades.Api.{App, Out, done, pure}
use nexus_node.Export.{is_allowed}
use nexus_node.Testnet.Options.{ValArgs, Options}
use nexus_node.Testnet.InPlace.{Keepers, new_validator, init_app_for_testnet, new_testnet_app}
use nexus_node.Testnet.InPlace.Cleared.{StoreKeys, StoreLaws, cleared}
use nexus_node.Testnet.InPlace.Single.{OtherLaws, added, init_app_for_testnet-single}
use nexus_node.Testnet.InPlace.Unfunded.{new_testnet_app-unfunded}

record World : Type 0 where
  stored : List Bytes
  coins : ℕ

abbrev holds : Bytes → World → Bool
holds b w = is_allowed w.stored b

remove : Bytes → List Bytes → List Bytes
remove key [] = []
remove key (b ∷ w) = let rest = remove key w in if bytes_eq key b then rest else b ∷ rest

under : Bytes → List Bytes → List Bytes
under p [] = []
under p (b ∷ w) = let rest = under p w in if has_prefix b p then b ∷ rest else rest

holds-remove :
    (key b : Bytes) (w : List Bytes)
    → is_allowed (remove key w) b ≡ (not (bytes_eq key b) && is_allowed w b)
unfolding remove
holds-remove key b [] = ground arith
holds-remove key b (c ∷ w) =
    let rest = holds-remove key b w in
    elim (Bool-cases (bytes_eq key c)) [
      | inl e ↦
          let same = bytes_eq_sound key c e in
          rw e (rest ∙ rw same (hidden (bytes_eq c b) (is_allowed w b)))
      | inr e ↦ elim (Bool-cases (bytes_eq c b)) [
        | inl f ↦
            let other : bytes_eq key b ≡ false = rw (sym (bytes_eq_sound c b f)) e in
            rw e (rw f (rw other refl))
        | inr f ↦ rw e (rw f rest)
      ]
    ]
  where
    hidden : (x h : Bool) → (not x && h) ≡ (not x && (x || h))
    hidden true h = refl
    hidden false h = refl

under-all :
    (p : Bytes) (w : List Bytes) (b : Bytes)
    → is_allowed w b ≡ true
    → has_prefix b p ≡ true
    → is_allowed (under p w) b ≡ true
unfolding under
under-all p [] b h g = h
under-all p (c ∷ w) b h g = elim (Bool-cases (bytes_eq c b)) [
  | inl e ↦
      let same = bytes_eq_sound c b e in
      let prefixed : has_prefix c p ≡ true = rw same g in rw prefixed (rw e refl)
  | inr e ↦
      let deeper : is_allowed w b ≡ true = rw e at h in
      let rest = under-all p w b deeper g in ground arith
]

under-only :
    (p : Bytes) (w : List Bytes) (b : Bytes)
    → is_allowed (under p w) b ≡ true
    → has_prefix b p ≡ true
unfolding under
under-only p [] b h = cc
under-only p (c ∷ w) b h =
    let rest = under-only p w b in
    elim (Bool-cases (bytes_eq c b)) [
      | inl e ↦ let same = bytes_eq_sound c b e in ground (arith, ap (λ t. has_prefix t p) same)
      | inr e ↦ ground arith
    ]

abbrev quiet : App World Unit
quiet = pure tt

abbrev write : Bytes → App World Unit
write key w = (done tt, record w { stored = key ∷ w.stored })

-- A send to a blocked account fails, and so does one of more than there is.
abbrev send : Bytes → ℕ → App World Unit
send to n w =
    if bytes_eq to (codes "module")
    then (Out.failed ("unauthorized" ∷ []), w)
    else if leb n w.coins
    then (done tt, record w { coins = w.coins - n })
    else (Out.failed ("insufficient funds" ∷ []), w)

abbrev keepers : Keepers World
keepers = record {
  pack_key = λ key. ok key;
  staking = record {
    validator_bytes = λ text. ok text;
    power_keys = λ w. ok (under (1 ∷ []) w.stored);
    last_validator_keys = λ w. ok (under (2 ∷ []) w.stored);
    keys_under = λ p w. under p w.stored;
    validators_prefix = 3 ∷ [];
    validator_queue_prefix = 4 ∷ [];
    delete = λ key w. (done tt, record w { stored = remove key w.stored });
    set_validator = λ v. write (3 ∷ v.operator);
    set_by_cons_addr = λ v. write (5 ∷ v.pub_key);
    set_by_power_index = λ v. write (1 ∷ v.operator);
    set_last_power = λ addr n. write (2 ∷ addr);
    after_validator_created = λ addr. quiet;
    bond_denom = λ w. ok (codes "stake");
  };
  distribution = record {
    set_historical_rewards = λ addr. quiet;
    set_current_rewards = λ addr. quiet;
    set_commission = λ addr. quiet;
    set_outstanding_rewards = λ addr. quiet;
  };
  set_signing_info = λ addr height. quiet;
  bank = record {
    mint_coins = λ denom n w. (done tt, record w { coins = w.coins + n });
    account_bytes = λ text. if is_empty text then err ("empty address" ∷ []) else ok text;
    send_to_account = λ to denom n. send to n;
  };
  last_block_height = λ w. 90;
}

abbrev store_keys : StoreKeys
store_keys = record {
  power_prefix = 1 ∷ [];
  last_prefix = 2 ∷ [];
  validator_key = λ v. 3 ∷ v.operator;
  cons_key = λ v. 5 ∷ v.pub_key;
  power_key = λ v. 1 ∷ v.operator;
  last_key = λ addr. 2 ∷ addr;
}

store_laws : StoreLaws keepers holds store_keys
store_laws = record {
  delete = λ key w. (refl, λ b. holds-remove key b w.stored);
  power_keys = λ w.
      (under (1 ∷ []) w.stored, refl, (under-all (1 ∷ []) w.stored, under-only (1 ∷ []) w.stored));
  last_validator_keys = λ w.
      (under (2 ∷ []) w.stored, refl, (under-all (2 ∷ []) w.stored, under-only (2 ∷ []) w.stored));
  keys_under = λ p w. (under-all p w.stored, under-only p w.stored);
  set_validator = λ v w. (refl, λ b. refl);
  set_by_cons_addr = λ v key packed w. (refl, λ b. refl);
  set_by_power_index = λ v free w. (refl, λ b. refl);
  set_last_power = λ addr w. (refl, λ b. refl);
}

sent :
    (b denom : Bytes) (n : ℕ) (w : World)
    → bytes_eq b (codes "module") ≡ false
    → n ≤ w.coins
    → let p = send b n w in
      (p.0 ≡ done tt) × (p.1.coins + n ≡ w.coins) × ((c : Bytes) → holds c p.1 ≡ holds c w)
sent b denom n w free held =
    let fits : leb n w.coins ≡ true = ground (arith, held) in
    rw (free, fits) (refl, omega (arith, held), λ c. refl)

other_laws : OtherLaws keepers holds store_keys
other_laws = record {
  after_validator_created = λ v addr w decoded h. (refl, λ b. refl);
  historical_rewards = λ addr w. (refl, λ b. refl);
  current_rewards = λ addr w. (refl, λ b. refl);
  commission = λ addr w. (refl, λ b. refl);
  outstanding_rewards = λ addr w. (refl, λ b. refl);
  signing_info = λ addr h w. (refl, λ b. refl);
  mint_coins = λ denom n w. (refl, λ b. refl);
  blocked = λ b. bytes_eq b (codes "module");
  balance = λ denom w. w.coins;
  mint-balance = λ denom n w. refl;
  send_to_account = sent;
  bond_denom = λ w. (codes "stake", refl);
}

abbrev args : ValArgs
args = record {
  new_val_addr = codes "cons";
  new_operator_address = codes "op";
  new_val_pub_key = codes "key";
  accounts_to_fund = codes "alice" ∷ [];
  upgrade_to_trigger = [];
  home_dir = codes "home";
}

-- An old validator in each of the four stores, and a delegation.
abbrev old : World
old = record {
  stored =
      (1 ∷ (8 ∷ []))
      ∷ ((2 ∷ (8 ∷ [])) ∷ ((3 ∷ (8 ∷ [])) ∷ ((4 ∷ (8 ∷ [])) ∷ ((6 ∷ (8 ∷ [])) ∷ []))));
  coins = 0;
}

not_blocked : bytes_eq (codes "alice") (codes "module") ≡ false
unfolding bytes_eq
not_blocked = refl

init_app_for_testnet-single_example :
    let after = init_app_for_testnet keepers args old in
    (after.0 ≡ done tt)
    × ((b : Bytes)
        → holds b after.1
          ≡ added store_keys
              (new_validator args (codes "key"))
              (codes "op")
              b
              (not (cleared keepers store_keys b) && holds b old))
unfolding other_laws
init_app_for_testnet-single_example =
    init_app_for_testnet-single keepers holds store_keys store_laws other_laws args (codes "key")
      (codes "op") old refl refl ((codes "alice", refl, not_blocked), tt)

abbrev options : Options
options = record {
  new_val_addr = some (codes "cons");
  user_pub_key = some (codes "key");
  new_op_addr = some (codes "op");
  trigger_testnet_upgrade = some [];
  accounts_to_fund = [];
  home = codes "home";
}

new_testnet_app-unfunded_example : (new_testnet_app keepers options old).0 ≢ done tt
new_testnet_app-unfunded_example =
    new_testnet_app-unfunded keepers options ("empty address" ∷ []) old refl refl
