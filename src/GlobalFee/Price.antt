-- ===== src/GlobalFee/Price.antt =====
-- The minimum gas price as an exact inequality. A `LegacyDec` is its integer over 10 ^ 18.
use nexus_node.Common.{
  ℕ, ◌+◌, ◌-◌, ◌*◌, ◌/◌, ◌^◌, ◌≤◌, ◌≡◌, ◌↔◌, refl, sym, ◌∙◌, Option, some, ok, true, false, zero,
  suc, Bool, String, arith, Bool-cases, inl, inr, ◌==◌, ==_iff,
}
use nexus_node.GlobalFee.{
  ℤ, pos, negsuc, lt_int, DecOps, Params, Fee, get_params, required_fee, enough, ante_handle,
}

abbrev pub one : ℕ
one = 10 ^ 18

-- -n
abbrev pub minus : ℕ → ℤ
minus zero = pos 0
minus (suc n) = negsuc n

abbrev pub AtMost : ℤ → ℤ → Type 0
AtMost (pos a) (pos b) = a ≤ b
AtMost (pos a) (negsuc b) = ⊥
AtMost (negsuc a) (pos b) = Unit {0}
AtMost (negsuc a) (negsuc b) = b ≤ a

-- A product with a natural number.
abbrev pub scale : ℤ → ℕ → ℤ
scale (pos a) n = pos (a * n)
scale (negsuc a) n = minus ((a + 1) * n)

-- The least multiple of `one` that is not below.
abbrev pub round_up : ℤ → ℤ
round_up (pos n) = pos ((n + (one - 1)) / one * one)
round_up (negsuc n) = minus ((n + 1) / one * one)

-- The whole part, towards zero.
abbrev pub whole : ℤ → ℤ
whole (pos n) = pos (n / one)
whole (negsuc n) = minus ((n + 1) / one)

abbrev pub is_null : ℤ → Bool
is_null (pos n) = n == 0
is_null (negsuc n) = false

-- What the SDK documents of `LegacyDec`, through the integer that it stores.
pub record DecLaws {Decimal : Type 0} (dec : DecOps Decimal) : Type 0 where
  pub value : Decimal → ℤ
  pub is_zero-value : (d : Decimal) → dec.is_zero d ≡ is_null (value d)
  pub mul_int-value : (d : Decimal) (n : ℕ) → value (dec.mul_int d n) ≡ scale (value d) n
  pub ceil-value : (d : Decimal) → value (dec.ceil d) ≡ round_up (value d)
  pub truncate_int-value : (d : Decimal) → dec.truncate_int d ≡ whole (value d)

minus_low : (n : ℕ) → AtMost (minus n) (pos 0)
minus_low zero = omega arith
minus_low (suc n) = tt

round_up_low : (z : ℤ) → AtMost z (pos 0) → AtMost (round_up z) (pos 0)
round_up_low (pos n) h = omega (arith, h)
round_up_low (negsuc n) h = minus_low ((n + 1) / one * one)

whole_low : (z : ℤ) → AtMost z (pos 0) → AtMost (whole z) (pos 0)
whole_low (pos n) h = omega (arith, h)
whole_low (negsuc n) h = minus_low ((n + 1) / one)

low_lt : (z : ℤ) (paid : ℕ) → AtMost z (pos 0) → lt_int (pos paid) z ≡ false
unfolding lt_int
low_lt (pos n) paid h = ground (arith, h)
low_lt (negsuc n) paid h = refl

low_below : (z : ℤ) (n : ℕ) → AtMost z (pos 0) → AtMost z (pos n)
low_below (pos m) n h = omega (arith, h)
low_below (negsuc m) n h = tt

-- Rounding up loses nothing against a whole number.
rounded-le : (n paid : ℕ) → ((n + (one - 1)) / one * one / one ≤ paid) ↔ (n ≤ paid * one)
rounded-le n paid = (λ h. omega arith, λ h. omega arith)

-- Neither does it for a price below zero.
rounded_iff :
    (z : ℤ) (gas paid : ℕ)
    → (lt_int (pos paid) (whole (round_up (scale z gas))) ≡ false)
      ↔ AtMost (scale z gas) (pos (paid * one))
unfolding lt_int
rounded_iff (pos a) gas paid =
    let iff = rounded-le (a * gas) paid in
    ((λ h. iff.0 (ground arith)), (λ h. let f = iff.1 h in ground arith))
rounded_iff (negsuc a) gas paid =
    let low = minus_low ((a + 1) * gas) in
    (
      (λ h. low_below (minus ((a + 1) * gas)) (paid * one) low),
      (λ h. low_lt _ paid (
          whole_low (round_up (minus ((a + 1) * gas))) (round_up_low (minus ((a + 1) * gas)) low))),
    )

null_free : (z : ℤ) (gas n : ℕ) → is_null z ≡ true → AtMost (scale z gas) (pos n)
null_free (pos a) gas n h = let e : a ≡ 0 = (==_iff a 0).0 h in rw e (omega arith)
null_free (negsuc a) gas n h = absurd (cc)

module _ {Decimal : Type 0} (dec : DecOps Decimal) (laws : DecLaws dec) (chain_denom : String) where
  required_fee_iff :
      (d : Decimal) (gas paid : ℕ)
      → (lt_int (pos paid) (required_fee dec chain_denom d gas) ≡ false)
        ↔ AtMost (scale (laws.value d) gas) (pos (paid * one))
  unfolding required_fee
  required_fee_iff d gas paid =
      let m = laws.mul_int-value d gas in
      let c = laws.ceil-value (dec.mul_int d gas) in
      let t = laws.truncate_int-value (dec.ceil (dec.mul_int d gas)) in
      rw (t, c, m) (rounded_iff (laws.value d) gas paid)

  -- By the laws of `LegacyDec`, and when the SDK's ante chain accepts, the fee check outside a
  -- simulation accepts a transaction with a fee exactly when the fee that it pays in the
  -- denomination of the price is at least the exact product of the price and its gas, with nothing
  -- lost to rounding or to 64 bits; a price of zero, or below it, included.
  pub ante_handle_iff :
      {E C : Type 0} (stored : Option (Params Decimal)) (fee : Fee) (c : C)
      → let p = get_params dec chain_denom stored in
        (ante_handle dec chain_denom {E = E} stored (some fee) false (ok c) ≡ ok c)
        ↔ AtMost (scale (laws.value p.price) fee.gas) (pos (fee.paid p.denom * one))
  unfolding ante_handle enough
  ante_handle_iff stored fee c =
      let p = get_params dec chain_denom stored in
      let iff = required_fee_iff p.price fee.gas (fee.paid p.denom) in
      let z = laws.is_zero-value p.price in
      elim (Bool-cases (dec.is_zero p.price)) [
        | inl zero_price ↦ (
          (λ h.
              null_free (laws.value p.price) fee.gas (fee.paid p.denom * one) (sym z ∙ zero_price)),
          (λ h. ground arith),
        )
        | inr asked ↦ ((λ h. iff.0 (ground arith)), (λ h. let fits = iff.1 h in ground arith))
      ]
