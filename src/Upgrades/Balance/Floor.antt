-- ===== src/Upgrades/Balance/Floor.antt =====
-- The tokens of a validator after an unjailing. The laws say which calls of the SDK move a validator's tokens.
use nexus_node.Common.{
  ℕ, ◌+◌, ◌-◌, ◌≡◌, ◌∙◌, ap, Option, none, some, ok, err, ltb, Bool-cases, Result-cases, String,
  inl, inr, arith, if◌then◌else◌,
}
use nexus_node.Common.Text.{Bytes}
use nexus_node.Upgrades.Api.{Out, ◌>>=◌, wrap, Validator, SigningInfo, Coin, Keepers, Names}
use nexus_node.Upgrades.Completed.{bind-done, wrap-done}
use nexus_node.Upgrades.Balance.{
  amount_of, mint_and_delegate, set_validator_balance, restore, release, execute_unjailing,
}

-- The tokens on a validator's record, if it has one.
abbrev pub tokens_at : {W : Type 0} → Keepers W → Bytes → W → Option ℕ
tokens_at k addr w = elim (k.staking.get_validator addr w) [
  | err e ↦ none
  | ok v ↦ some (amount_of v.tokens)
]

-- Only a delegation adds to a validator's tokens.
pub record TokenLaws {W : Type 0} (k : Keepers W) (addr : Bytes) : Type 0 where
  pub mint-tokens :
      (pool : String) (c : Coin) (w : W)
      → tokens_at k addr (k.bank.mint_coins pool c w).1 ≡ tokens_at k addr w
  pub send-tokens :
      (pool : String) (to : Bytes) (c : Coin) (w : W)
      → tokens_at k addr (k.bank.send_to_account pool to c w).1 ≡ tokens_at k addr w
  pub delegate-tokens :
      (c : Coin) (w : W) (n : ℕ)
      → tokens_at k addr w ≡ some n
      → (k.staking.delegate addr addr c w).0 ≡ Out.done tt
      → tokens_at k addr (k.staking.delegate addr addr c w).1 ≡ some (n + c.amount)
  pub signing-tokens :
      (cons : Bytes) (i : SigningInfo) (w : W)
      → tokens_at k addr (k.slashing.set_signing_info cons i w).1 ≡ tokens_at k addr w
  pub unjail-tokens : (w : W) → tokens_at k addr (k.slashing.unjail addr w).1 ≡ tokens_at k addr w

abbrev pub floor : ℕ → Option ℕ → ℕ
floor n none = n
floor n (some target) = if ltb n target then target else n

module _ {W : Type 0} (names : Names) (k : Keepers W) (addr : Bytes) (laws : TokenLaws k addr) where
  mint_and_delegate-tokens :
      (c : Coin) (w : W) (n : ℕ)
      → tokens_at k addr w ≡ some n
      → (mint_and_delegate names k addr c w).0 ≡ Out.done tt
      → tokens_at k addr (mint_and_delegate names k addr c w).1 ≡ some (n + c.amount)
  unfolding mint_and_delegate
  mint_and_delegate-tokens c w n have h =
      let mint = wrap "failed to mint additional tokens" (k.bank.mint_coins names.bonded_pool c) in
      let send =
        wrap "failed to send minted tokens to validator account"
          (k.bank.send_to_account names.bonded_pool addr c) in
      let delegate =
        wrap "failed to delegate tokens to validator account" (k.staking.delegate addr addr c) in
      let w1 = (k.bank.mint_coins names.bonded_pool c w).1 in
      let w2 = (k.bank.send_to_account names.bonded_pool addr c w1).1 in
      let (u, m, s, e) = bind-done mint (λ _. send >>= (λ _. delegate)) w tt h in
      let (u', m', s', e') = bind-done send (λ _. delegate) w1 tt s in
      let have' : tokens_at k addr w2 ≡ some n =
        laws.send-tokens names.bonded_pool addr c w1
        ∙ laws.mint-tokens names.bonded_pool c w
        ∙ have in
      ap (λ p. tokens_at k addr p.1) (e ∙ e')
      ∙ laws.delegate-tokens c w2 n have' (
          wrap-done "failed to delegate tokens to validator account"
            (k.staking.delegate addr addr c) w2 tt s')

  -- A target tops the validator up to it, and takes nothing away.
  pub set_validator_balance-tokens :
      (v : Validator) (target : ℕ) (w : W)
      → k.staking.get_validator addr w ≡ ok v
      → (set_validator_balance names k addr v target w).0 ≡ Out.done tt
      → tokens_at k addr (set_validator_balance names k addr v target w).1
        ≡ some (floor (amount_of v.tokens) (some target))
  unfolding set_validator_balance
  set_validator_balance-tokens v target w found h =
      let coin : Coin = record {
        denom = names.default_bond_denom;
        amount = target - amount_of v.tokens;
      } in
      elim (Bool-cases (ltb (amount_of v.tokens) target)) [
        | inl less ↦
            let t =
              mint_and_delegate-tokens coin w (amount_of v.tokens) (ground arith) (ground arith) in
            ground arith
        | inr enough ↦ ground arith
      ]

  restore-tokens :
      (v : Validator) (target : Option ℕ) (w : W)
      → k.staking.get_validator addr w ≡ ok v
      → (restore names k addr v target w).0 ≡ Out.done tt
      → tokens_at k addr (restore names k addr v target w).1
        ≡ some (floor (amount_of v.tokens) target)
  unfolding restore
  restore-tokens v none w found h = ground arith
  restore-tokens v (some target) w found h = set_validator_balance-tokens v target w found (
      wrap-done "failed to restore validator balance" (set_validator_balance names k addr v target)
        w tt h)

  release-tokens :
      (v : Validator) (w : W) → tokens_at k addr (release names k addr v w).1 ≡ tokens_at k addr w
  unfolding release
  release-tokens v w = elim (Result-cases v.cons_addr) [
    | inr (e, bad) ↦ ground arith
    | inl (cons, good) ↦ elim (Result-cases (k.slashing.get_signing_info cons w)) [
      | inr (e, bad) ↦ ground arith
      | inl (info, known) ↦
          let cleared = record info { jailed_until = k.block_time - 1 } in
          ground (
            arith,
            laws.signing-tokens cons cleared w,
            laws.unjail-tokens (k.slashing.set_signing_info cons cleared w).1,
          )
    ]
  ]

  -- By the laws on tokens, an unjailing of a validator that has a record, if it succeeds, leaves
  -- it with the target or with the tokens that it had, whichever is more, and without a target
  -- with those it had: the target is a floor, not an addition.
  pub unjailing-floor :
      (v : Validator) (target : Option ℕ) (w : W)
      → k.staking.get_validator addr w ≡ ok v
      → (execute_unjailing names k addr target w).0 ≡ Out.done tt
      → tokens_at k addr (execute_unjailing names k addr target w).1
        ≡ some (floor (amount_of v.tokens) target)
  unfolding execute_unjailing
  unjailing-floor v target w found h =
      let w1 = (restore names k addr v target w).1 in
      let r : (restore names k addr v target w).0 ≡ Out.done tt = ground arith in
      ground (arith, restore-tokens v target w found r, release-tokens v w1)
