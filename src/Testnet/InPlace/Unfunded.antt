-- ===== src/Testnet/InPlace/Unfunded.antt =====
-- Without accounts to fund the process ends.
use nexus_node.Common.{
  List, [], ◌∷◌, ok, err, ◌≡◌, ◌≢◌, refl, ap, ◌∙◌, Result-cases, is_empty, sym, >>=-ok, fail_if-ok,
  ok_injective, inl, inr,
}
use nexus_node.Common.Text.{Bytes}
use nexus_node.Upgrades.Api.{Chain, App, Out, done, failed, panicked, next, ◌>>=◌, read}
use nexus_node.Export.{must}
use nexus_node.Testnet.Args.{split, split_on}
use nexus_node.Testnet.Options.{ValArgs, Options, get_command_args, typed}
use nexus_node.Testnet.InPlace.{
  add_signing_info, Keepers, clear_validators, add_validator, init_distribution, fund,
  fund_accounts, init_app_for_testnet, new_testnet_app, new_validator,
}

next_done :
    {W A B : Type 0} (o : Out A) (w : W) (f : A → App W B) (b : B)
    → (next o w f).0 ≡ done b
    → (a : A) × (o ≡ done a) × ((f a w).0 ≡ done b)
next_done (done a) w f b h = (a, refl, h)
next_done (failed e) w f b h = cc
next_done (panicked e) w f b h = cc

-- A sequence that went well went through each of its calls.
pub bind_done :
    {W A B : Type 0} (m : App W A) (f : A → App W B) (w : W) (b : B)
    → ((m >>= f) w).0 ≡ done b
    → (a : A) × ((m w).0 ≡ done a) × ((f a (m w).1).0 ≡ done b)
bind_done m f w b h = next_done (m w).0 (m w).1 f b h

module _ {W : Type 0} (k : Keepers W) where
  fund-empty :
      (denom : Bytes) (e : Chain) (w : W)
      → k.bank.account_bytes [] ≡ err e
      → (fund k denom [] w).0 ≢ done tt
  unfolding fund
  fund-empty denom e w refused h =
      let (_, _, rest) = bind_done (must (k.bank.mint_coins denom 1000000000)) _ w tt h in
      let (_, bad, _) = bind_done (must (read (λ _. k.bank.account_bytes []))) _ _ tt rest in
      let gone = rw refused at bad in cc

  fund_accounts-empty :
      (e : Chain) (w : W)
      → k.bank.account_bytes [] ≡ err e
      → (fund_accounts k ([] ∷ []) w).0 ≢ done tt
  unfolding fund_accounts
  fund_accounts-empty e w refused h =
      let (denom, _, rest) = bind_done (must (read k.staking.bond_denom)) _ w tt h in
      let (_, one, _) = bind_done (fund k denom []) _ _ tt rest in fund-empty denom e _ refused one

  fund_accounts-given :
      (accounts : List Bytes) (e : Chain) (w : W)
      → k.bank.account_bytes [] ≡ err e
      → accounts ≡ [] ∷ []
      → (fund_accounts k accounts w).0 ≢ done tt
  fund_accounts-given accounts e w refused given h = fund_accounts-empty e w refused (rw given at h)

  init_app-unfunded :
      (args : ValArgs) (e : Chain) (w : W)
      → k.bank.account_bytes [] ≡ err e
      → args.accounts_to_fund ≡ [] ∷ []
      → (init_app_for_testnet k args w).0 ≢ done tt
  unfolding init_app_for_testnet
  init_app-unfunded args e w refused given h =
      let (key, _, h1) = bind_done (must (read (λ _. k.pack_key args.new_val_pub_key))) _ w tt h in
      let (addr, _, h2) =
        bind_done (must (read (λ _. k.staking.validator_bytes args.new_operator_address))) _ _ tt
          h1 in
      let (_, _, h3) = bind_done (clear_validators k) _ _ tt h2 in
      let (_, _, h4) = bind_done (add_validator k (new_validator args key) addr) _ _ tt h3 in
      let (_, _, h5) = bind_done (init_distribution k addr) _ _ tt h4 in
      let (_, _, h6) = bind_done (add_signing_info k args) _ _ tt h5 in
      fund_accounts-given args.accounts_to_fund e _ refused given h6

  args-unfunded :
      (o : Options) (args : ValArgs)
      → o.accounts_to_fund ≡ []
      → get_command_args o ≡ ok args
      → args.accounts_to_fund ≡ [] ∷ []
  unfolding get_command_args split_on
  args-unfunded o args empty h =
      let (addr, _, h1) =
        >>=-ok (typed o.new_val_addr "newValAddr is not of type bytes.HexBytes") _ args h in
      let (key, _, h2) =
        >>=-ok (typed o.user_pub_key "newValPubKey is not of type crypto.PubKey") _ args h1 in
      let (op, _, h3) =
        >>=-ok (typed o.new_op_addr "newOperatorAddress is not of type string") _ args h2 in
      let (up, _, h4) =
        >>=-ok (typed o.trigger_testnet_upgrade "upgradeToTrigger is not of type string") _ args
          h3 in
      let (_, h5) = fail_if-ok (is_empty o.home) ("invalid home dir" ∷ []) _ args h4 in
      sym (ap (λ (a : ValArgs). a.accounts_to_fund) (ok_injective refl h5)) ∙ ap split empty

  -- Where the address codec refuses the empty text, as the SDK's does, the command never comes to an
  -- application unless accounts to fund are named: the default, no accounts, ends the process.
  pub new_testnet_app-unfunded :
      (o : Options) (e : Chain) (w : W)
      → k.bank.account_bytes [] ≡ err e
      → o.accounts_to_fund ≡ []
      → (new_testnet_app k o w).0 ≢ done tt
  unfolding new_testnet_app
  new_testnet_app-unfunded o e w refused empty h = elim (Result-cases (get_command_args o)) [
    | inl (args, given) ↦
        init_app-unfunded args e w refused (args-unfunded o args empty given) (rw given at h)
    | inr (e2, bad) ↦ let gone = rw bad at h in cc
  ]
