-- ===== src/GlobalFee/Tests.antt =====
-- A price of half a coin per unit of gas.
use nexus_node.Common.{
  ℕ, ◌*◌, ◌≡◌, ◌↔◌, refl, sym, ap, ◌∙◌, none, some, [], ◌∷◌, Option, Done, ok, str_eq, eq_iff,
  arith, if◌then◌else◌, ◌==◌, true, false,
}
use nexus_node.Common.Text.{Bytes}
use nexus_node.GlobalFee.{
  ℤ, pos, negsuc, lt_int, enough, required_fee, DecOps, Params, Fee, get_params, ante_handle,
  validate_params,
}
use nexus_node.GlobalFee.Genesis.{
  FeeJson, FeeJsonLaws, absent, bytes, load_params, decode_stored, export_fee_genesis,
  init_fee_genesis, set_params, validate_fee_genesis, check_fee, checked,
  check_fee-init_fee_genesis,
}
use nexus_node.GlobalFee.Price.{AtMost, scale, round_up, whole, is_null, one, ante_handle_iff}

-- Decimals as integers over 10 ^ 18.
abbrev decimals : DecOps ℤ
decimals = record {
  zero_dec = pos 0;
  is_zero = is_null;
  mul_int = scale;
  ceil = round_up;
  truncate_int = whole;
  valid_coin = λ denom d. true;
}

abbrev half : Params ℤ
half = record { denom = "nex"; price = pos 500000000000000000 }

abbrev fee : Fee
fee = record { gas = 3; paid = λ denom. 2 }

abbrev done : Done
done = tt

ante_handle_iff_example :
    (ante_handle decimals "nex" {E = Done} (some half) (some fee) false (ok done) ≡ ok done)
    ↔ AtMost (scale (get_params decimals "nex" (some half)).price 3) (pos (2 * one))
ante_handle_iff_example =
    ante_handle_iff decimals
      (record {
        value = λ d. d;
        is_zero-value = λ d. refl;
        mul_int-value = λ d n. refl;
        ceil-value = λ d. refl;
        truncate_int-value = λ d. refl;
      })
      "nex" {E = Done} (some half) fee done

-- A price below zero asks for nothing.
negative_accepted :
    ante_handle decimals "nex" {E = Done}
      (some (record { denom = "nex"; price = negsuc 0 }))
      (some fee)
      false
      (ok done)
    ≡ ok done
unfolding ante_handle enough required_fee get_params lt_int
negative_accepted = refl

-- A price with its sign in front.
abbrev price_bytes : ℤ → Bytes
price_bytes (pos n) = b'+' ∷ (n ∷ [])
price_bytes (negsuc n) = b'-' ∷ (n ∷ [])

-- Parameters in the chain's denomination are written as their price.
abbrev write : Params ℤ → Option Bytes
write p = if str_eq p.denom "nex" then some (price_bytes p.price) else none

read_price : ℕ → ℕ → ℤ
read_price sign n = if sign == b'+' then pos n else negsuc n

read : Bytes → Option (Params ℤ)
unfolding read_price
read (sign ∷ price ∷ []) = some (record { denom = "nex"; price = read_price sign price })
read _ = none

abbrev json : FeeJson ℤ
json = record {
  marshal = write;
  unmarshal = read;
  marshal_genesis = write;
  unmarshal_genesis = read;
}

read-price_bytes : (z : ℤ) → read (price_bytes z) ≡ some (record { denom = "nex"; price = z })
unfolding read read_price
read-price_bytes (pos n) = refl
read-price_bytes (negsuc n) = refl

reads : (p : Params ℤ) (b : Bytes) → write p ≡ some b → read b ≡ some p
reads p b h =
    let denom : p.denom ≡ "nex" = ground (arith, (eq_iff p.denom "nex").0) in
    let same : price_bytes p.price ≡ b = ground (arith, (eq_iff p.denom "nex").0) in
    rw (sym same) (read-price_bytes p.price ∙ ap (λ d. some (record p { denom = d })) (sym denom))

json_laws : FeeJsonLaws json
json_laws = record { params = reads; genesis = reads }

-- Nothing is stored, so the default price of zero is exported.
exports : export_fee_genesis decimals "nex" json absent ≡ ok (b'+' ∷ (0 ∷ []))
unfolding export_fee_genesis load_params decode_stored get_params
exports = refl

starts : init_fee_genesis decimals "nex" json (b'+' ∷ (0 ∷ [])) ≡ ok (bytes (b'+' ∷ (0 ∷ [])))
unfolding init_fee_genesis set_params read read_price
starts = refl

check_fee-init_fee_genesis_example :
    ((p : Params ℤ) × (load_params decimals "nex" json absent ≡ ok p)
      × (load_params decimals "nex" json (bytes (b'+' ∷ (0 ∷ []))) ≡ ok p)
      × (validate_fee_genesis decimals "nex" json (b'+' ∷ (0 ∷ []))
          ≡ checked (validate_params decimals "nex" p)))
    × (check_fee decimals "nex" json {E = Done} (bytes (b'+' ∷ (0 ∷ []))) (some fee) false (ok done)
        ≡ check_fee decimals "nex" json absent (some fee) false (ok done))
check_fee-init_fee_genesis_example =
    check_fee-init_fee_genesis decimals "nex" json json_laws absent (bytes (b'+' ∷ (0 ∷ [])))
      (b'+' ∷ (0 ∷ [])) (some fee) false (ok done) exports starts
