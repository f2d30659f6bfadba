-- ===== src/Upgrades/Remove/Effects.antt =====
-- What is left of a validator that was removed.
use nexus_node.Common.{
  ◌≤◌, ◌≡◌, ◌⊎◌, if◌then◌else◌, refl, Option, none, some, ok, leb, Bool-cases, Option-cases, inl,
  inr, arith, ◌&&◌, ◌||◌, is_some, Bool, true, false, String,
}
use nexus_node.Common.Text.{Bytes}
use nexus_node.Upgrades.Api.{Out, Validator, SigningInfo, Coin, Keepers, Names}
use nexus_node.Upgrades.Balance.{amount_of}
use nexus_node.Upgrades.Remove.Laws.{RemoveLaws, MaySend, IsTombstoned}
use nexus_node.Upgrades.Remove.{
  RemoveValidatorOptions, year_9999, mark_tombstoned, tombstone_validator, pool_of, capped_amount,
  burned, transferred, take_out, take_capped, take_tokens, handle_validator_tokens,
  drop_power_index, removed, update_record, execute_remove_validator,
}

module _ {W : Type 0} (names : Names) (k : Keepers W) (denom : String)
    (laws : RemoveLaws names k denom) (v : Validator) (cons : Bytes) where
  -- A stage that succeeds, and what still holds then.
  abbrev Stage : {A : Type 0} → Out A × W → A → Type 0
  Stage p a =
      (p.0 ≡ Out.done a) × (k.staking.get_validator v.operator p.1 ≡ ok v) × IsTombstoned k cons p.1

  -- The record before anything was done to it is there.
  tombstone-ok :
      (info : SigningInfo) (w : W)
      → k.staking.get_validator v.operator w ≡ ok v
      → k.slashing.get_signing_info cons w ≡ ok info
      → Stage (tombstone_validator names k cons w) tt
  unfolding tombstone_validator mark_tombstoned
  tombstone-ok info w found known =
      let mark = record info { tombstoned = true; jailed_until = year_9999 } in
      let stored = laws.signing-done cons mark w in
      let got = laws.signing-get cons mark w in
      let same = laws.signing-validator cons v.operator mark w in
      elim (Bool-cases info.tombstoned) [
        | inl already ↦ (
          ground arith,
          ground arith,
          record { info = info; found = ground arith; tombstoned = already },
        )
        | inr not_yet ↦ (
          ground arith,
          ground arith,
          record { info = mark; found = ground arith; tombstoned = refl },
        )
      ]

  drop-ok :
      (w : W)
      → k.staking.get_validator v.operator w ≡ ok v
      → IsTombstoned k cons w
      → Stage (drop_power_index names k v w) tt
  unfolding drop_power_index
  drop-ok w found t =
      let dropped = laws.index-done v w in
      let same = laws.index-validator v v.operator w in
      let same' = laws.index-signing v cons w in
      let e = t.found in
      (
        ground arith,
        ground arith,
        record { info = t.info; found = ground arith; tombstoned = t.tombstoned },
      )

  module _ (w : W) (found : k.staking.get_validator v.operator w ≡ ok v)
      (t : IsTombstoned k cons w) where
    burned-ok :
        (pool : String) (c : Coin)
        → (pool ≡ names.bonded_pool) ⊎ (pool ≡ names.not_bonded_pool)
        → c.amount ≤ k.bank.get_balance (k.auth.module_address pool) c.denom w
        → Stage (burned names k pool c w) true
    unfolding burned
    burned-ok pool c own fits =
        let gone = laws.burn-done pool c w own fits in
        let same = laws.burn-validator pool c v.operator w in
        let same' = laws.burn-signing pool c cons w in
        let e = t.found in
        (
          ground arith,
          ground arith,
          record { info = t.info; found = ground arith; tombstoned = t.tombstoned },
        )

    transferred-ok :
        (pool : String) (c : Coin) (recipient : Bytes)
        → laws.blocked recipient ≡ false
        → c.amount ≤ k.bank.get_balance (k.auth.module_address pool) c.denom w
        → Stage (transferred names k pool c (some recipient) w) true
    unfolding transferred
    transferred-ok pool c recipient allowed fits =
        let gone = laws.send-done pool recipient c w allowed fits in
        let same = laws.send-validator pool recipient c v.operator w in
        let same' = laws.send-signing pool recipient c cons w in
        let e = t.found in
        (
          ground arith,
          ground arith,
          record { info = t.info; found = ground arith; tombstoned = t.tombstoned },
        )

    pool_own :
        (bonded : Bool)
        → let pool = if bonded then names.bonded_pool else names.not_bonded_pool in
          (pool ≡ names.bonded_pool) ⊎ (pool ≡ names.not_bonded_pool)
    pool_own true = inl refl
    pool_own false = inr refl

    idle-ok : (b : Bool) → Stage (Out.done b, w) b
    idle-ok b = (refl, found, t)

    take_out-ok :
        (opts : RemoveValidatorOptions) (pool : String) (c : Coin)
        → MaySend laws.blocked (some opts)
        → (pool ≡ names.bonded_pool) ⊎ (pool ≡ names.not_bonded_pool)
        → c.amount ≤ k.bank.get_balance (k.auth.module_address pool) c.denom w
        → (b : Bool) × Stage (take_out names k opts pool c w) b
    unfolding take_out transferred
    take_out-ok opts pool c may own fits = elim (Bool-cases opts.burn_tokens) [
      | inl burn ↦
          let e : take_out names k opts pool c w ≡ burned names k pool c w = ground arith in
          rw e (true, burned-ok pool c own fits)
      | inr keep ↦ elim (Option-cases opts.token_recipient) [
        | inl nobody ↦
            let e : take_out names k opts pool c w ≡ (Out.done false, w) = ground arith in
            rw e (false, idle-ok false)
        | inr (recipient, given) ↦
            let e : take_out names k opts pool c w ≡ transferred names k pool c (some recipient) w =
              ground arith in
            rw e (true, transferred-ok pool c recipient (may recipient keep given) fits)
      ]
    ]

    take_capped-ok :
        (opts : RemoveValidatorOptions)
        → MaySend laws.blocked (some opts)
        → (b : Bool) × Stage (take_capped names k opts v denom w) b
    unfolding take_capped
    take_capped-ok opts may =
        let amount = capped_amount names k v denom w in
        let coin : Coin = record { denom = denom; amount = amount } in
        elim (Bool-cases (leb 1 amount)) [
          | inl more ↦
              let e : take_capped names k opts v denom w
                  ≡ take_out names k opts (pool_of names k v) coin w =
                ground arith in
              rw e
                (take_out-ok opts (pool_of names k v) coin may (pool_own v.bonded) (ground arith))
          | inr nothing ↦
              let e : take_capped names k opts v denom w ≡ (Out.done false, w) = ground arith in
              rw e (false, idle-ok false)
        ]

    -- The amount is capped, so that the bank has no reason to refuse.
    handle-ok :
        (opts : Option RemoveValidatorOptions)
        → MaySend laws.blocked opts
        → (b : Bool) × Stage (handle_validator_tokens names k v opts w) b
    unfolding handle_validator_tokens take_tokens
    handle-ok none may = (false, idle-ok false)
    handle-ok (some opts) may =
        let known = laws.denom-known w in
        elim (Bool-cases
          (leb 1 (amount_of v.tokens) && (opts.burn_tokens || is_some opts.token_recipient))) [
            | inl asked ↦
                let e : handle_validator_tokens names k v (some opts) w
                    ≡ take_capped names k opts v denom w =
                  ground arith in
                rw e (take_capped-ok opts may)
            | inr not_asked ↦
                let e : handle_validator_tokens names k v (some opts) w ≡ (Out.done false, w) =
                  ground arith in
                rw e (false, idle-ok false)
          ]

    -- After the update the record is jailed.
    update-ok :
        (b : Bool)
        → ((update_record names k v b w).0 ≡ Out.done tt)
          × ((v' : Validator) × (k.staking.get_validator v.operator (update_record names k v b w).1
                ≡ ok v')
              × (v'.jailed ≡ true)
              × (b ≡ true → v'.tokens ≡ some 0))
          × IsTombstoned k cons (update_record names k v b w).1
    unfolding update_record
    update-ok true =
        let new = removed names k v true in
        let stored = laws.store-done new w in
        let got = laws.store-get new w in
        let same = laws.store-signing new cons w in
        let e = t.found in
        (
          ground arith,
          (new, ground arith, refl, (λ _. refl)),
          record { info = t.info; found = ground arith; tombstoned = t.tombstoned },
        )
    update-ok false = elim (Bool-cases v.jailed) [
      | inl jailed ↦ (
        ground arith,
        (v, ground arith, jailed, (λ h. absurd (cc))),
        record {
          info = t.info;
          found = (let e = t.found in ground arith);
          tombstoned = t.tombstoned;
        },
      )
      | inr free ↦
          let new = removed names k v false in
          let stored = laws.store-done new w in
          let got = laws.store-get new w in
          let same = laws.store-signing new cons w in
          let e = t.found in
          (
            ground arith,
            (new, ground arith, refl, (λ h. absurd (cc))),
            record { info = t.info; found = ground arith; tombstoned = t.tombstoned },
          )
    ]

  -- By the laws of the keepers, a removal of a validator with a record, a consensus address and
  -- signing info never panics, however little its pool holds, unless the options send its tokens to an
  -- address that the bank blocks: it succeeds, the validator is tombstoned, and its record is
  -- jailed.
  pub removal-final :
      (opts : Option RemoveValidatorOptions) (info : SigningInfo) (w : W)
      → k.staking.get_validator v.operator w ≡ ok v
      → v.cons_addr ≡ ok cons
      → k.slashing.get_signing_info cons w ≡ ok info
      → MaySend laws.blocked opts
      → let p = execute_remove_validator names k v.operator opts w in
        (p.0 ≡ Out.done tt)
        × ((v' : Validator) × (k.staking.get_validator v.operator p.1 ≡ ok v') × (v'.jailed ≡ true))
        × IsTombstoned k cons p.1
  unfolding execute_remove_validator
  removal-final opts info w found addr known may =
      let (d1, f1, t1) = tombstone-ok info w found known in
      let w1 = (tombstone_validator names k cons w).1 in
      let (d2, f2, t2) = drop-ok w1 f1 t1 in
      let w2 = (drop_power_index names k v w1).1 in
      let (b, (d3, f3, t3)) = handle-ok w2 f2 t2 opts may in
      let w3 = (handle_validator_tokens names k v opts w2).1 in
      let (d4, (v', f4, jailed, empty), t4) = update-ok w3 f3 t3 b in
      let e : execute_remove_validator names k v.operator opts w ≡ update_record names k v b w3 =
        ground arith in
      rw e (d4, (v', f4, jailed), t4)
