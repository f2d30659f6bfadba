-- ===== src/Upgrades/Add/Effects.antt =====
-- When a validator is added. The laws say which calls of the SDK move a validator's tokens.
use nexus_node.Common.{
  ℕ, ◌-◌, ◌≤◌, ◌≡◌, ◌≢◌, refl, ◌∙◌, Option, none, some, ltb, leb, Bool-cases, Result-cases,
  Option-cases, inl, inr, arith, true, false,
}
use nexus_node.Common.Text.{Bytes}
use nexus_node.Upgrades.Api.{Out, ◌>>=◌, wrap, Validator, Coin, Keepers, Names}
use nexus_node.Upgrades.Completed.{bind-done, wrap-done}
use nexus_node.Upgrades.Balance.{amount_of, mint_and_delegate, set_validator_balance}
use nexus_node.Upgrades.Balance.Floor.{tokens_at, TokenLaws}
use nexus_node.Upgrades.Add.{
  AddValidatorOptions, is_positive, ensure_account, persisted, create, with_options,
  execute_add_validator,
}

pub record AddLaws {W : Type 0} (k : Keepers W) (addr : Bytes) : Type 0 where
  pub tokens : TokenLaws k addr
  -- There is nothing to delegate to.
  pub delegate-missing :
      (c : Coin) (w : W)
      → tokens_at k addr w ≡ none
      → (k.staking.delegate addr addr c w).0 ≢ Out.done tt
  pub account-tokens :
      (w : W) → tokens_at k addr (k.auth.set_new_account addr w).1 ≡ tokens_at k addr w

module _ {W : Type 0} (names : Names) (k : Keepers W) (addr : Bytes) (laws : AddLaws k addr) where
  mint_and_delegate-missing :
      (c : Coin) (w : W)
      → tokens_at k addr w ≡ none
      → (mint_and_delegate names k addr c w).0 ≢ Out.done tt
  unfolding mint_and_delegate
  mint_and_delegate-missing c w missing h =
      let mint = wrap "failed to mint additional tokens" (k.bank.mint_coins names.bonded_pool c) in
      let send =
        wrap "failed to send minted tokens to validator account"
          (k.bank.send_to_account names.bonded_pool addr c) in
      let delegate =
        wrap "failed to delegate tokens to validator account" (k.staking.delegate addr addr c) in
      let w1 = (k.bank.mint_coins names.bonded_pool c w).1 in
      let w2 = (k.bank.send_to_account names.bonded_pool addr c w1).1 in
      let (u, m, s, e) = bind-done mint (λ _. send >>= (λ _. delegate)) w tt h in
      let (u', m', s', e') = bind-done send (λ _. delegate) w1 tt s in
      laws.delegate-missing c w2
        (laws.tokens.send-tokens names.bonded_pool addr c w1
          ∙ laws.tokens.mint-tokens names.bonded_pool c w
          ∙ missing)
        (wrap-done "failed to delegate tokens to validator account" (k.staking.delegate addr addr c)
          w2 tt s')

  balance-missing :
      (v : Validator) (n : ℕ) (w : W)
      → v.tokens ≡ some 0
      → 1 ≤ n
      → tokens_at k addr w ≡ none
      → (set_validator_balance names k addr v n w).0 ≢ Out.done tt
  unfolding set_validator_balance
  balance-missing v n w empty more missing h =
      let coin : Coin = record {
        denom = names.default_bond_denom;
        amount = n - amount_of v.tokens;
      } in
      let less : ltb (amount_of v.tokens) n ≡ true = ground arith in
      mint_and_delegate-missing coin w missing (ground arith)

  ensure_account-tokens :
      (w : W) → tokens_at k addr (ensure_account names k addr w).1 ≡ tokens_at k addr w
  unfolding ensure_account
  ensure_account-tokens w = ground (arith, laws.account-tokens w)

  -- Without a positive minimum the new validator is passed on and stored nowhere.
  persisted-not :
      (v : Validator) (low : Option ℕ) (w : W)
      → is_positive low ≡ false
      → persisted names k addr low v w ≡ (Out.done v, w)
  unfolding persisted
  persisted-not v low w h = rw h

  create-missing :
      (key : Bytes) (n : ℕ) (opts : AddValidatorOptions) (w : W)
      → is_positive opts.min_self_delegation ≡ false
      → 1 ≤ n
      → tokens_at k addr w ≡ none
      → (create names k addr key n opts w).0 ≢ Out.done tt
  unfolding create
  create-missing key n opts w low more missing h =
      elim (Result-cases (k.staking.new_validator addr key opts.description)) [
        | inr (e, bad) ↦ ground arith
        | inl (new, good) ↦
            let v : Validator = record new {
              bonded = true;
              tokens = some 0;
              delegator_shares = 0;
            } in
            let w1 = (ensure_account names k addr w).1 in
            let skip = persisted-not v opts.min_self_delegation w1 low in
            balance-missing v n w1 refl more (ensure_account-tokens w ∙ missing) (ground arith)
      ]

  -- By the laws on tokens, of which one is that nobody can delegate to a validator without a
  -- record, `ExecuteAddValidator` does not succeed for such a validator when the options have no
  -- positive `MinSelfDelegation`, whatever else they have.
  pub unpersisted-fails :
      (opts : AddValidatorOptions) (w : W)
      → tokens_at k addr w ≡ none
      → is_positive opts.min_self_delegation ≡ false
      → (execute_add_validator names k addr (some opts) w).0 ≢ Out.done tt
  unfolding execute_add_validator with_options
  unpersisted-fails opts w missing low h = elim (Result-cases (k.staking.get_validator addr w)) [
    | inl (v, there) ↦ ground arith
    | inr (e, gone) ↦ elim (Option-cases opts.pub_key) [
      | inl no_key ↦ ground arith
      | inr (key, given) ↦ elim (Option-cases opts.initial_tokens) [
        | inl nil ↦ ground arith
        | inr (n, amount) ↦ elim (Bool-cases (leb 1 n)) [
          | inr zero ↦ ground arith
          | inl more ↦ create-missing key n opts w low (ground arith) missing (ground arith)
        ]
      ]
    ]
  ]
