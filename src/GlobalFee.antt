-- ===== src/GlobalFee.antt =====
-- cosmos/x/globalfee and cosmos/app/ante.go: the minimum gas price that is a consensus rule, and which
-- transactions skip the ante chain. `LegacyDec`, the store and the SDK's ante chain are arguments.
pub mod Price
pub mod Genesis
mod Tests
use nexus_node.Common.{
  ℕ, ◌+◌, ◌*◌, Option, none, some, Result, Done, ok, err, fail_if, ◌>>=◌, ◌>>◌, Bool, true, false,
  not, ◌||◌, String, str_eq, ltb, if◌then◌else◌, List, is_some,
}
use nexus_node.Proposal.{Tx, payload_of, Msg}
use nexus_node.Common.{is_empty, [], ◌∷◌}

-- An integer: `pos n` is n, `negsuc n` is -(n + 1).
pub data ℤ : Type 0 where
  pos negsuc : ℕ → ℤ

-- `Int.LT`
unfoldable pub lt_int : ℤ → ℤ → Bool
lt_int (pos a) (pos b) = ltb a b
lt_int (pos a) (negsuc b) = false
lt_int (negsuc a) (pos b) = true
lt_int (negsuc a) (negsuc b) = ltb b a

-- The operations of `math.LegacyDec` that the fee check uses, on a type `Decimal`, and `DecCoin.Validate`.
pub record DecOps (Decimal : Type 0) : Type 0 where
  pub zero_dec : Decimal
  pub is_zero : Decimal → Bool
  pub mul_int : Decimal → ℕ → Decimal
  pub ceil : Decimal → Decimal
  pub truncate_int : Decimal → ℤ
  pub valid_coin : String → Decimal → Bool

-- `MinimumGasPrice` is a `DecCoin`.
pub record Params (Decimal : Type 0) : Type 0 where
  pub denom : String
  pub price : Decimal

pub data ParamsError : Type 0 where
  bad_coin bad_denom : ParamsError

-- What the decorator reads of a transaction. `fee` is `none` for one that is no `FeeTx`; `paid` is
-- `GetFee().AmountOf`, which valid coins have at zero or above, and `gas` is below 2 ^ 64.
pub record Fee : Type 0 where
  pub gas : ℕ
  pub paid : String → ℕ

pub data FeeError (E : Type 0) : Type 0 where
  not_fee_tx insufficient_fees direct_payload : FeeError E
  sdk : E → FeeError E

-- `len(msgs) == 1` and the message is an execution payload.
unfoldable pub is_lone_payload : Tx → Bool
is_lone_payload tx = elim tx.msgs [
  | [] ↦ false
  | m ∷ rest ↦ if is_empty rest then is_some (payload_of tx) else false
]

module _ {Decimal : Type 0} (dec : DecOps Decimal) (chain_denom : String) where
  unfoldable pub default_params : Params Decimal
  default_params = record { denom = chain_denom; price = dec.zero_dec }

  unfoldable pub validate_params : Params Decimal → Result ParamsError Done
  validate_params p = do
    fail_if (not (dec.valid_coin p.denom p.price)) bad_coin
    fail_if (not (str_eq p.denom chain_denom)) bad_denom

  -- `GetParams`: nothing stored means the default.
  unfoldable pub get_params : Option (Params Decimal) → Params Decimal
  unfolding default_params
  get_params none = default_params
  get_params (some p) = p

  -- The fee that the price asks for `gas`.
  unfoldable pub required_fee : Decimal → ℕ → ℤ
  required_fee price gas = dec.truncate_int (dec.ceil (dec.mul_int price gas))

  enough : {E : Type 0} → Params Decimal → Option Fee → Result (FeeError E) Done
  unfolding required_fee
  enough p none = err not_fee_tx
  enough p (some fee) =
      fail_if (lt_int (pos (fee.paid p.denom)) (required_fee p.price fee.gas)) insufficient_fees

  abbrev pub chained : {E C : Type 0} → Result E C → Result (FeeError E) C
  chained (ok c) = ok c
  chained (err e) = err (sdk e)

  -- `MinGasPriceDecorator.AnteHandle`; `next` is the SDK's chain.
  unfoldable pub ante_handle :
      {E C : Type 0}
      → Option (Params Decimal)
      → Option Fee
      → Bool
      → Result E C
      → Result (FeeError E) C
  unfolding enough
  ante_handle stored fee simulate next =
      let p = get_params stored in
      let checked = enough p fee >> chained next in
      if simulate || dec.is_zero p.price then chained next else checked

  -- `newAnteHandler`: `checking` is `IsCheckTx` or `IsReCheckTx`, `unchanged` the context that came in.
  unfoldable pub new_ante_handler :
      {E C : Type 0}
      → Option (Params Decimal)
      → Bool
      → C
      → Tx
      → Option Fee
      → Bool
      → Result E C
      → Result (FeeError E) C
  unfolding is_lone_payload
  new_ante_handler stored checking unchanged tx fee simulate next =
      let skip = if checking then err direct_payload else ok unchanged in
      let handled = ante_handle stored fee simulate next in
      if is_lone_payload tx then skip else handled
