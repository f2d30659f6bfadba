-- ===== src/Upgrades/Remove/Laws.antt =====
-- What the SDK's keepers promise to a removal, and what a tombstone is.
use nexus_node.Common.{◌≤◌, ◌≡◌, ◌⊎◌, ok, Bool, true, false, String, Option, none, some}
use nexus_node.Common.Text.{Bytes}
use nexus_node.Upgrades.Remove.{RemoveValidatorOptions}
use nexus_node.Upgrades.Api.{Out, Validator, SigningInfo, Coin, Keepers, Names}

-- Stores succeed and are read back. The bonded and the not-bonded pool may burn what they hold, and the
-- bank sends what a pool holds to every address that it does not block. The modules do not write each
-- other's records.
pub record RemoveLaws {W : Type 0} (names : Names) (k : Keepers W) (denom : String) : Type 0 where
  -- The addresses that the bank does not send to.
  pub blocked : Bytes → Bool
  pub signing-done :
      (cons : Bytes) (i : SigningInfo) (w : W)
      → (k.slashing.set_signing_info cons i w).0 ≡ Out.done tt
  pub signing-get :
      (cons : Bytes) (i : SigningInfo) (w : W)
      → k.slashing.get_signing_info cons (k.slashing.set_signing_info cons i w).1 ≡ ok i
  pub signing-validator :
      (cons addr : Bytes) (i : SigningInfo) (w : W)
      → k.staking.get_validator addr (k.slashing.set_signing_info cons i w).1
        ≡ k.staking.get_validator addr w
  pub index-done : (v : Validator) (w : W) → (k.staking.delete_by_power_index v w).0 ≡ Out.done tt
  pub index-validator :
      (v : Validator) (addr : Bytes) (w : W)
      → k.staking.get_validator addr (k.staking.delete_by_power_index v w).1
        ≡ k.staking.get_validator addr w
  pub index-signing :
      (v : Validator) (cons : Bytes) (w : W)
      → k.slashing.get_signing_info cons (k.staking.delete_by_power_index v w).1
        ≡ k.slashing.get_signing_info cons w
  pub denom-known : (w : W) → k.staking.bond_denom w ≡ ok denom
  pub burn-done :
      (pool : String) (c : Coin) (w : W)
      → (pool ≡ names.bonded_pool) ⊎ (pool ≡ names.not_bonded_pool)
      → c.amount ≤ k.bank.get_balance (k.auth.module_address pool) c.denom w
      → (k.bank.burn_coins pool c w).0 ≡ Out.done tt
  pub burn-validator :
      (pool : String) (c : Coin) (addr : Bytes) (w : W)
      → k.staking.get_validator addr (k.bank.burn_coins pool c w).1 ≡ k.staking.get_validator addr w
  pub burn-signing :
      (pool : String) (c : Coin) (cons : Bytes) (w : W)
      → k.slashing.get_signing_info cons (k.bank.burn_coins pool c w).1
        ≡ k.slashing.get_signing_info cons w
  pub send-done :
      (pool : String) (to : Bytes) (c : Coin) (w : W)
      → blocked to ≡ false
      → c.amount ≤ k.bank.get_balance (k.auth.module_address pool) c.denom w
      → (k.bank.send_to_account pool to c w).0 ≡ Out.done tt
  pub send-validator :
      (pool : String) (to : Bytes) (c : Coin) (addr : Bytes) (w : W)
      → k.staking.get_validator addr (k.bank.send_to_account pool to c w).1
        ≡ k.staking.get_validator addr w
  pub send-signing :
      (pool : String) (to : Bytes) (c : Coin) (cons : Bytes) (w : W)
      → k.slashing.get_signing_info cons (k.bank.send_to_account pool to c w).1
        ≡ k.slashing.get_signing_info cons w
  pub store-done : (v : Validator) (w : W) → (k.staking.set_validator v w).0 ≡ Out.done tt
  pub store-get :
      (v : Validator) (w : W)
      → k.staking.get_validator v.operator (k.staking.set_validator v w).1 ≡ ok v
  pub store-signing :
      (v : Validator) (cons : Bytes) (w : W)
      → k.slashing.get_signing_info cons (k.staking.set_validator v w).1
        ≡ k.slashing.get_signing_info cons w

-- Where the options send the tokens to a recipient, it is one that the bank may send to.
abbrev pub MaySend : (Bytes → Bool) → Option RemoveValidatorOptions → Type 0
MaySend blocked none = Unit {0}
MaySend blocked (some opts) =
    (recipient : Bytes)
    → opts.burn_tokens ≡ false
    → opts.token_recipient ≡ some recipient
    → blocked recipient ≡ false

-- For good: the validator cannot be unjailed.
pub record IsTombstoned {W : Type 0} (k : Keepers W) (cons : Bytes) (w : W) : Type 0 where
  pub info : SigningInfo
  pub found : k.slashing.get_signing_info cons w ≡ ok info
  pub tombstoned : info.tombstoned ≡ true
