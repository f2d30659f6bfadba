-- ===== src/Testnet/InPlace/Single.antt =====
-- The new validator is the only one.
use nexus_node.Common.{
  true, ap, ℕ, ◌+◌, ◌≤◌, ◌∙◌, arith, false, ◌-◌, Bool, not, ◌&&◌, ◌||◌, List, [], ◌∷◌, ok, ◌≡◌,
  refl, All,
}
use nexus_node.Common.Text.{Bytes, bytes_eq, bytes_eq_refl}
use nexus_node.Upgrades.Api.{App, done, ◌>>◌}
use nexus_node.Export.{must, ignore, walk}
use nexus_node.Export.Laws.{IsOk}
use nexus_node.Testnet.Options.{ValArgs}
use nexus_node.Testnet.InPlace.{
  Keepers, NewValidator, new_validator, clear_validators, add_validator, init_distribution,
  add_signing_info, fund, fund_accounts, init_app_for_testnet,
}
use nexus_node.Testnet.InPlace.Cleared.{
  Changes, Still, then_Changes, must-Changes, StoreKeys, StoreLaws, cleared,
  clear_validators-Changes,
}

-- The other calls leave the staking module's store alone. A mint adds to what the mint module's account
-- holds of the denomination; a send from there goes well when the account holds the amount and the
-- recipient is not blocked. The remaining calls go well.
pub record OtherLaws {W : Type 0} (k : Keepers W) (holds : Bytes → W → Bool) (s : StoreKeys)
    : Type 0 where
  -- The hook is for a validator that is in the store.
  pub after_validator_created :
      (v : NewValidator) (b : Bytes) (w : W)
      → k.staking.validator_bytes v.operator ≡ ok b
      → holds (s.validator_key v) w ≡ true
      → let p = k.staking.after_validator_created b w in
        (p.0 ≡ done tt) × ((c : Bytes) → holds c p.1 ≡ holds c w)
  pub historical_rewards : (b : Bytes) → Still holds (k.distribution.set_historical_rewards b)
  pub current_rewards : (b : Bytes) → Still holds (k.distribution.set_current_rewards b)
  pub commission : (b : Bytes) → Still holds (k.distribution.set_commission b)
  pub outstanding_rewards : (b : Bytes) → Still holds (k.distribution.set_outstanding_rewards b)
  pub signing_info : (b : Bytes) (h : ℕ) → Still holds (ignore (k.set_signing_info b h))
  pub blocked : Bytes → Bool
  pub balance : Bytes → W → ℕ
  pub mint_coins : (denom : Bytes) (n : ℕ) → Still holds (k.bank.mint_coins denom n)
  pub mint-balance :
      (denom : Bytes) (n : ℕ) (w : W)
      → balance denom (k.bank.mint_coins denom n w).1 ≡ balance denom w + n
  pub send_to_account :
      (b denom : Bytes) (n : ℕ) (w : W)
      → blocked b ≡ false
      → n ≤ balance denom w
      → let p = k.bank.send_to_account b denom n w in
        (p.0 ≡ done tt)
        × (balance denom p.1 + n ≡ balance denom w)
        × ((c : Bytes) → holds c p.1 ≡ holds c w)
  pub bond_denom : (w : W) → IsOk (k.staking.bond_denom w)

-- A write at a key.
abbrev or_key : Bytes → Bytes → Bool → Bool
or_key key b held = bytes_eq key b || held

or_true : (b : Bool) → (b || true) ≡ true
or_true true = refl
or_true false = refl

module _ (s : StoreKeys) where
  -- Whether a key is held once the new validator is written.
  abbrev pub added : NewValidator → Bytes → Bytes → Bool → Bool
  added v addr b held =
      bytes_eq (s.last_key addr) b
      || (bytes_eq (s.power_key v) b
          || (bytes_eq (s.cons_key v) b || (bytes_eq (s.validator_key v) b || held)))

module _ {W : Type 0} (k : Keepers W) (holds : Bytes → W → Bool) (s : StoreKeys)
    (laws : StoreLaws k holds s) (others : OtherLaws k holds s) where
  -- A call that does this to a world that holds a key.
  abbrev ChangesAt : Bytes → App W Unit → (Bytes → Bool → Bool) → Type 0
  ChangesAt key m f =
      (w : W)
      → holds key w ≡ true
      → ((m w).0 ≡ done tt) × ((b : Bytes) → holds b (m w).1 ≡ f b (holds b w))

  -- A write keeps the key of the validator.
  still_held :
      (v : NewValidator) (key : Bytes) (m : App W Unit) (w : W)
      → Changes holds m (or_key key)
      → holds (s.validator_key v) w ≡ true
      → holds (s.validator_key v) (m w).1 ≡ true
  still_held v key m w a h =
      (a w).1 (s.validator_key v) ∙ rw h (or_true (bytes_eq key (s.validator_key v)))

  -- What follows a write of the validator, in a world that holds it.
  after_write :
      (v : NewValidator) (key : Bytes) (m n : App W Unit) (g : Bytes → Bool → Bool)
      → Changes holds m (or_key key)
      → ChangesAt (s.validator_key v) n g
      → ChangesAt (s.validator_key v) (m >> n) (λ b held. g b (or_key key b held))
  after_write v key m n g a c w h =
      let (d, e) = a w in
      let (d2, e2) = c (m w).1 (still_held v key m w a h) in
      (rw d d2, λ b. rw d (e2 b ∙ ap (g b) (e b)))

  -- The last call, for the validator that was written.
  created :
      (v : NewValidator) (addr : Bytes)
      → k.staking.validator_bytes v.operator ≡ ok addr
      → ChangesAt
          (s.validator_key v)
          (must (k.staking.after_validator_created addr))
          (λ b held. held)
  created v addr decoded w h =
      let (d, e) = others.after_validator_created v addr w decoded h in (rw d refl, e)

  add_validator-Changes :
      (v : NewValidator) (addr key : Bytes)
      → k.pack_key key ≡ ok v.pub_key
      → k.staking.validator_bytes v.operator ≡ ok addr
      → v.jailed ≡ false
      → Changes holds (add_validator k v addr) (added s v addr)
  unfolding add_validator
  add_validator-Changes v addr key packed decoded free w =
      let first = must-Changes holds _ (or_key (s.validator_key v)) (laws.set_validator v) in
      let w1 = (must (k.staking.set_validator v) w).1 in
      let stored : holds (s.validator_key v) w1 ≡ true =
        (first w).1 (s.validator_key v) ∙ rw (bytes_eq_refl (s.validator_key v)) refl in
      let (d, e) = first w in
      let (d2, e2) =
        after_write v (s.cons_key v) (must (k.staking.set_by_cons_addr v)) _
          (λ b held. bytes_eq (s.last_key addr) b || (bytes_eq (s.power_key v) b || held))
          (must-Changes holds _ (or_key (s.cons_key v)) (laws.set_by_cons_addr v key packed))
          (after_write v (s.power_key v) (must (k.staking.set_by_power_index v)) _
            (or_key (s.last_key addr))
            (must-Changes holds _ (or_key (s.power_key v)) (laws.set_by_power_index v free))
            (after_write v (s.last_key addr) (must (k.staking.set_last_power addr 0))
              (must (k.staking.after_validator_created addr)) (λ b held. held)
              (must-Changes holds _ (or_key (s.last_key addr)) (laws.set_last_power addr))
              (created v addr decoded)))
          w1 stored in
      (
        rw d d2,
        λ b. rw d (
            e2 b
            ∙ ap
                (λ held.
                  bytes_eq (s.last_key addr) b
                  || (bytes_eq (s.power_key v) b || (bytes_eq (s.cons_key v) b || held)))
                (e b)),
      )

  then_Still : (m n : App W Unit) → Still holds m → Still holds n → Still holds (m >> n)
  then_Still m n a c = then_Changes holds m n (λ b held. held) (λ b held. held) a c

  must-Still : (m : App W Unit) → Still holds m → Still holds (must m)
  must-Still m a = must-Changes holds m (λ b held. held) a

  init_distribution-Still : (addr : Bytes) → Still holds (init_distribution k addr)
  unfolding init_distribution
  init_distribution-Still addr =
      then_Still (must (k.distribution.set_historical_rewards addr)) _
        (must-Still _ (others.historical_rewards addr))
        (then_Still (must (k.distribution.set_current_rewards addr)) _
          (must-Still _ (others.current_rewards addr))
          (then_Still (must (k.distribution.set_commission addr))
            (must (k.distribution.set_outstanding_rewards addr))
            (must-Still _ (others.commission addr))
            (must-Still _ (others.outstanding_rewards addr))))

  add_signing_info-Still : (args : ValArgs) → Still holds (add_signing_info k args)
  unfolding add_signing_info
  add_signing_info-Still args w =
      others.signing_info args.new_val_addr (k.last_block_height w - 1) w

  -- The text of an account decodes, and the account may receive coins.
  abbrev pub MayReceive : Bytes → Type 0
  MayReceive text =
      (account : Bytes) × (k.bank.account_bytes text ≡ ok account)
      × (others.blocked account ≡ false)

  -- What was just minted can be sent.
  fund-Still : (denom text : Bytes) → MayReceive text → Still holds (fund k denom text)
  unfolding fund
  fund-Still denom text (account, e, free) w =
      let (d, h) = others.mint_coins denom 1000000000 w in
      let w1 = (k.bank.mint_coins denom 1000000000 w).1 in
      let held : 1000000000 ≤ others.balance denom w1 =
        omega (arith, others.mint-balance denom 1000000000 w) in
      let (d1, spent, h1) = others.send_to_account account denom 1000000000 w1 free held in
      rw (d, e, d1) (refl, λ b. h1 b ∙ h b)

  fund_all-Still :
      (denom : Bytes) (texts : List Bytes)
      → All MayReceive texts
      → Still holds (walk (fund k denom) texts)
  fund_all-Still denom [] h = λ w. (refl, λ b. refl)
  fund_all-Still denom (text ∷ texts) (h, hs) =
      then_Still (fund k denom text) (walk (fund k denom) texts) (fund-Still denom text h)
        (fund_all-Still denom texts hs)

  fund_accounts-Still :
      (texts : List Bytes) → All MayReceive texts → Still holds (fund_accounts k texts)
  unfolding fund_accounts
  fund_accounts-Still texts h w =
      let (denom, e) = others.bond_denom w in rw e (fund_all-Still denom texts h w)

  -- Where the key is packed, the operator's address and the accounts decode, no account is blocked from
  -- receiving coins, and the keepers answer as the SDK documents, the conversion finishes. Afterwards the staking module's store holds the four
  -- keys of the new validator, no other key of the power index, of the last validators, of the
  -- validators and of the unbonding queue, and all else that it held.
  pub init_app_for_testnet-single :
      (args : ValArgs) (key addr : Bytes) (w : W)
      → k.pack_key args.new_val_pub_key ≡ ok key
      → k.staking.validator_bytes args.new_operator_address ≡ ok addr
      → All MayReceive args.accounts_to_fund
      → let after = init_app_for_testnet k args w in
        (after.0 ≡ done tt)
        × ((b : Bytes)
            → holds b after.1
              ≡ added s (new_validator args key) addr b (not (cleared k s b) && holds b w))
  unfolding init_app_for_testnet
  init_app_for_testnet-single args key addr w packed decoded funded =
      let v = new_validator args key in
      let tail = then_Still (init_distribution k addr) _ (init_distribution-Still addr) (
        then_Still (add_signing_info k args) (fund_accounts k args.accounts_to_fund)
          (add_signing_info-Still args) (fund_accounts-Still args.accounts_to_fund funded)) in
      rw packed (
        rw decoded (
          then_Changes holds (clear_validators k) _ (λ b held. not (cleared k s b) && held)
            (added s v addr) (clear_validators-Changes k holds s laws)
            (then_Changes holds (add_validator k v addr) _ (added s v addr) (λ b held. held)
              (add_validator-Changes v addr args.new_val_pub_key packed decoded refl) tail)
            w))
