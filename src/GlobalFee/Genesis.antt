-- ===== src/GlobalFee/Genesis.antt =====
-- `GetParams` and `SetParams` of cosmos/x/globalfee/keeper/keeper.go on the bytes of the store, and the
-- genesis of cosmos/x/globalfee/module/module.go and types/params.go. The JSON encoder is an argument.
use nexus_node.Common.{
  false, inl, inr, ◌≡◌, refl, sym, ◌∙◌, Option, none, some, Result, Done, ok, err, ◌>>=◌, >>=-ok,
  ok_injective, Bool, Bool-cases, if◌then◌else◌, String,
}
use nexus_node.Common.Text.{Bytes}
use nexus_node.GlobalFee.{
  DecOps, Params, ParamsError, Fee, FeeError, default_params, validate_params, get_params, chained,
  ante_handle,
}

-- `json.Marshal` and `json.Unmarshal` of the parameters and of the genesis state around them.
pub record FeeJson (Decimal : Type 0) : Type 0 where
  pub marshal : Params Decimal → Option Bytes
  pub unmarshal : Bytes → Option (Params Decimal)
  pub marshal_genesis : Params Decimal → Option Bytes
  pub unmarshal_genesis : Bytes → Option (Params Decimal)

-- The item of the store.
pub data StoredParams : Type 0 where
  unreadable absent : StoredParams
  bytes : Bytes → StoredParams

pub data FeeModuleError : Type 0 where
  unreadable_store undecodable unencodable : FeeModuleError
  bad_genesis : ParamsError → FeeModuleError

or_error {ℓ} : {A : Type ℓ} → FeeModuleError → Option A → Result FeeModuleError A
or_error e none = err e
or_error e (some a) = ok a

or_error-ok {ℓ} :
    {A : Type ℓ} (e : FeeModuleError) (o : Option A) (a : A) → or_error e o ≡ ok a → o ≡ some a
unfolding or_error
or_error-ok e none a h = absurd (cc)
or_error-ok e (some b) a h = cc

abbrev pub checked : Result ParamsError Done → Result FeeModuleError Done
checked (err e) = err (bad_genesis e)
checked (ok u) = ok tt

module _ {Decimal : Type 0} (dec : DecOps Decimal) (chain_denom : String)
    (j : FeeJson Decimal) where
  -- What the store holds, decoded; an error is the panic of `GetParams`.
  unfoldable pub decode_stored : StoredParams → Result FeeModuleError (Option (Params Decimal))
  unfolding or_error
  decode_stored unreadable = err unreadable_store
  decode_stored absent = ok none
  decode_stored (bytes b) = or_error undecodable (j.unmarshal b) >>= λ p. ok (some p)

  -- `Keeper.GetParams`
  unfoldable pub load_params : StoredParams → Result FeeModuleError (Params Decimal)
  load_params s = decode_stored s >>= λ stored. ok (get_params dec chain_denom stored)

  -- `Keeper.SetParams`
  unfoldable pub set_params : Params Decimal → Result FeeModuleError StoredParams
  unfolding or_error
  set_params p = or_error unencodable (j.marshal p) >>= λ b. ok (bytes b)

  -- `AppModule.DefaultGenesis`, which drops an error of the encoder.
  pub default_genesis : Option Bytes
  default_genesis = j.marshal_genesis (default_params dec chain_denom)

  -- `AppModule.ValidateGenesis`
  pub validate_fee_genesis : Bytes → Result FeeModuleError Done
  unfolding or_error
  validate_fee_genesis b = or_error undecodable (j.unmarshal_genesis b) >>= λ p.
      checked (validate_params dec chain_denom p)

  -- `AppModule.InitGenesis`; an error is the panic.
  unfoldable pub init_fee_genesis : Bytes → Result FeeModuleError StoredParams
  unfolding or_error
  init_fee_genesis b = or_error undecodable (j.unmarshal_genesis b) >>= set_params

  -- `AppModule.ExportGenesis`; an error is the panic.
  unfoldable pub export_fee_genesis : StoredParams → Result FeeModuleError Bytes
  unfolding or_error
  export_fee_genesis s = load_params s >>= λ p. or_error unencodable (j.marshal_genesis p)

  -- `AnteHandle` on the bytes of the store, which a simulation does not read.
  pub check_fee :
      {E C : Type 0}
      → StoredParams
      → Option Fee
      → Bool
      → Result E C
      → Result FeeModuleError (Result (FeeError E) C)
  check_fee s fee simulate next =
      let checked_fee =
        load_params s >>= λ p. ok (ante_handle dec chain_denom (some p) fee false next) in
      if simulate then ok (chained dec chain_denom next) else checked_fee

-- The encoder's values are read back.
pub record FeeJsonLaws {Decimal : Type 0} (j : FeeJson Decimal) : Type 0 where
  pub params : (p : Params Decimal) (b : Bytes) → j.marshal p ≡ some b → j.unmarshal b ≡ some p
  pub genesis :
      (p : Params Decimal) (b : Bytes)
      → j.marshal_genesis p ≡ some b
      → j.unmarshal_genesis b ≡ some p

module _ {Decimal : Type 0} (dec : DecOps Decimal) (chain_denom : String) (j : FeeJson Decimal)
    (laws : FeeJsonLaws j) where
  set_params-load :
      (p : Params Decimal) (s : StoredParams)
      → set_params dec chain_denom j p ≡ ok s
      → load_params dec chain_denom j s ≡ ok p
  unfolding set_params load_params decode_stored or_error get_params
  set_params-load p s h =
      let (b, e, same) = >>=-ok (or_error unencodable (j.marshal p)) (λ b. ok (bytes b)) s h in
      let reads = laws.params p b (or_error-ok unencodable (j.marshal p) b e) in
      rw (sym (ok_injective refl same), reads) refl

  export-loads :
      (s : StoredParams) (file : Bytes)
      → export_fee_genesis dec chain_denom j s ≡ ok file
      → (p : Params Decimal) × (load_params dec chain_denom j s ≡ ok p)
        × (j.unmarshal_genesis file ≡ some p)
  unfolding export_fee_genesis
  export-loads s file h =
      let (p, loads, e) = >>=-ok (load_params dec chain_denom j s) _ file h in
      (p, loads, laws.genesis p file (or_error-ok unencodable (j.marshal_genesis p) file e))

  init-loads :
      (p : Params Decimal) (file : Bytes) (s : StoredParams)
      → j.unmarshal_genesis file ≡ some p
      → init_fee_genesis dec chain_denom j file ≡ ok s
      → load_params dec chain_denom j s ≡ ok p
  unfolding init_fee_genesis or_error
  init-loads p file s reads h =
      let step : set_params dec chain_denom j p ≡ ok s = sym (rw reads refl) ∙ h in
      set_params-load p s step

  -- By the laws of the JSON encoder, a chain that starts from the genesis that another one exports
  -- charges what that one does: whatever the parameters that were stored, or the default for none, the
  -- file is valid exactly when they are, and the fee check answers the same for every transaction.
  pub check_fee-init_fee_genesis :
      {E C : Type 0} (s s' : StoredParams) (file : Bytes) (fee : Option Fee) (simulate : Bool)
      (next : Result E C)
      → export_fee_genesis dec chain_denom j s ≡ ok file
      → init_fee_genesis dec chain_denom j file ≡ ok s'
      → ((p : Params Decimal) × (load_params dec chain_denom j s ≡ ok p)
          × (load_params dec chain_denom j s' ≡ ok p)
          × (validate_fee_genesis dec chain_denom j file
              ≡ checked (validate_params dec chain_denom p)))
        × (check_fee dec chain_denom j s' fee simulate next
            ≡ check_fee dec chain_denom j s fee simulate next)
  unfolding validate_fee_genesis check_fee or_error
  check_fee-init_fee_genesis s s' file fee simulate next exports starts =
      let (p, loads, reads) = export-loads s file exports in
      let again = init-loads p file s' reads starts in
      (
        (p, loads, again, rw reads refl),
        elim (Bool-cases simulate) [
          | inl simulated ↦ rw simulated refl
          | inr delivered ↦ rw (delivered, loads, again) refl
        ],
      )
