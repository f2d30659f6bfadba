-- ===== src/Genesis/Module.antt =====
-- cosmos/x/evm/types/genesis_compat.go and the genesis of cosmos/x/evm/module/module.go: genesis files in
-- JSON, older ones included. The JSON codecs are arguments.
use nexus_node.Common.{
  Option, none, some, Result, Done, ok, err, ◌>>=◌, Bool, true, false, ◌≡◌, refl, sym, ap, ◌∙◌, ◌⊎◌,
  inl, inr, str_eq, Bool-cases, Option-cases, if◌then◌else◌, arith,
}
use nexus_node.Common.Text.{Bytes}
use nexus_node.Evm.State.{BlockState}
use nexus_node.Genesis.{
  HashText, GenesisState, Store, GenesisError, default_hash, initial_state, init_genesis,
  export_genesis, validate_genesis,
}
use nexus_node.Genesis.Roundtrip.{HashLaws, export-init}

-- `UnmarshalJSON` of the protobuf codec gives what it has filled in and whether it succeeded;
-- `json.Unmarshal` then fills in the rest of the same value; `MarshalJSON`.
pub record GenesisJson (P : Type 0) : Type 0 where
  pub unmarshal : Bytes → GenesisState P × Bool
  pub unmarshal_std : Bytes → GenesisState P → Option (GenesisState P)
  pub marshal : GenesisState P → Option Bytes

-- `wrong` is the error of a genesis state that was decoded.
pub data ModuleError : Type 0 where
  undecodable unencodable : ModuleError
  wrong : GenesisError → ModuleError

checked : Result GenesisError Done → Result ModuleError Done
checked (err e) = err (wrong e)
checked (ok u) = ok tt

marshalled : Option Bytes → Result ModuleError Bytes
marshalled none = err unencodable
marshalled (some b) = ok b

marshalled-ok : (o : Option Bytes) (b : Bytes) → marshalled o ≡ ok b → o ≡ some b
unfolding marshalled
marshalled-ok none b h = absurd (cc)
marshalled-ok (some c) b h = cc

module _ {P : Type 0} where
  -- `NormalizeGenesisState`
  pub normalize_genesis_state : GenesisState P → GenesisState P
  normalize_genesis_state gs =
      let filled = record gs { genesis_execution_block_hash = default_hash } in
      if str_eq gs.genesis_execution_block_hash "" then filled else gs

  fallback : Option (GenesisState P) → Result ModuleError (GenesisState P)
  fallback none = err undecodable
  fallback (some gs) = ok (normalize_genesis_state gs)

  -- `GenesisStateFromJSON`
  pub genesis_state_from_json : GenesisJson P → Bytes → Result ModuleError (GenesisState P)
  unfolding fallback
  genesis_state_from_json j b =
      let (gs, fine) = j.unmarshal b in
      if fine then ok (normalize_genesis_state gs) else fallback (j.unmarshal_std b gs)

  -- `AppModule.ValidateGenesis`
  pub module_validate_genesis : GenesisJson P → (P → Bool) → Bytes → Result ModuleError Done
  unfolding checked
  module_validate_genesis j params_fit b = do
    gs ← genesis_state_from_json j b
    checked (validate_genesis params_fit gs)

  init_decoded :
      HashText → Result ModuleError (GenesisState P) → Store P → Result ModuleError Done × Store P
  unfolding checked
  init_decoded text (err e) s = (err e, s)
  init_decoded text (ok gs) s = let (r, s') = init_genesis text gs s in (checked r, s')

  -- `AppModule.InitGenesis`; an error is the panic.
  pub module_init_genesis :
      HashText → GenesisJson P → Bytes → Store P → Result ModuleError Done × Store P
  unfolding init_decoded
  module_init_genesis text j b s = init_decoded text (genesis_state_from_json j b) s

  exported : GenesisJson P → Result GenesisError (GenesisState P) → Result ModuleError Bytes
  unfolding marshalled
  exported j (err e) = err (wrong e)
  exported j (ok gs) = marshalled (j.marshal gs)

  -- `AppModule.ExportGenesis`; an error is the panic.
  unfoldable pub module_export_genesis :
      HashText → GenesisJson P → Store P → Result ModuleError Bytes
  unfolding exported marshalled
  module_export_genesis text j s = exported j (export_genesis text s)

  normalized_kept :
      (gs : GenesisState P)
      → str_eq gs.genesis_execution_block_hash "" ≡ false
      → normalize_genesis_state gs ≡ gs
  unfolding normalize_genesis_state
  normalized_kept gs h = rw h refl

  normalized_set :
      (gs : GenesisState P)
      → str_eq (normalize_genesis_state gs).genesis_execution_block_hash "" ≡ false
  unfolding normalize_genesis_state
  normalized_set gs = elim (Bool-cases (str_eq gs.genesis_execution_block_hash "")) [
    | inl unset ↦ rw unset refl
    | inr set ↦ rw set set
  ]

  decoded_kept :
      (j : GenesisJson P) (gs : GenesisState P) (file : Bytes)
      → str_eq gs.genesis_execution_block_hash "" ≡ false
      → j.unmarshal file ≡ (gs, true)
      → genesis_state_from_json j file ≡ ok gs
  unfolding genesis_state_from_json
  decoded_kept j gs file set reads = rw (reads, normalized_kept gs set) refl

  valid_hash :
      (params_fit : P → Bool) (gs : GenesisState P)
      → validate_genesis params_fit gs ≡ ok tt
      → str_eq gs.genesis_execution_block_hash "" ≡ false
  unfolding validate_genesis
  valid_hash params_fit gs h = ground arith

  -- A chain with parameters and a block state exports a file, by the laws of go-ethereum for the text of
  -- the block's hash and a codec that reads what it wrote; the file is valid when the parameters are, and
  -- a node that starts from it, whatever it had stored, has the parameters and the block state of the
  -- exporting one.
  pub module_export-init :
      (text : HashText) (j : GenesisJson P) (params_fit : P → Bool) (p : P) (b : BlockState)
      (old : Store P) (file : Bytes)
      → HashLaws text b.hash
      → ((gs : GenesisState P) (c : Bytes) → j.marshal gs ≡ some c → j.unmarshal c ≡ (gs, true))
      → params_fit p ≡ true
      → module_export_genesis text j (record { stored_params = some p; block_state = some b })
        ≡ ok file
      → (module_validate_genesis j params_fit file ≡ ok tt)
        × (module_init_genesis text j file old
            ≡ (ok tt, record { stored_params = some p; block_state = some b }))
  unfolding module_export_genesis exported module_validate_genesis checked module_init_genesis
      init_decoded
  module_export-init text j params_fit p b old file laws codec fit written =
      let (gs, exports, valid, starts) = export-init text params_fit p b old laws fit in
      let set = valid_hash params_fit gs valid in
      let encodes : j.marshal gs ≡ some file =
        marshalled-ok (j.marshal gs) file (sym (ap (exported j) exports) ∙ written) in
      let reads = decoded_kept j gs file set (codec gs file encodes) in
      (rw (reads, valid) refl, rw (reads, starts) refl)

  init_normalized :
      (text : HashText) (gs : GenesisState P) (s : Store P)
      → init_genesis text (normalize_genesis_state gs) s ≡ (
        ok tt,
        record {
          stored_params = some (normalize_genesis_state gs).params;
          block_state = some (initial_state text (normalize_genesis_state gs));
        },
      )
  unfolding init_genesis
  init_normalized text gs s = rw (normalized_set gs) refl

  -- Genesis files of older releases: `InitGenesis` of the module panics exactly when neither codec
  -- decodes the file, and then nothing is stored; every other file, one without the hash of the genesis
  -- block included, leaves parameters and a block state.
  pub module_init_genesis-cases :
      (text : HashText) (j : GenesisJson P) (b : Bytes) (s : Store P)
      → ((module_init_genesis text j b s ≡ (err undecodable, s))
          × ((j.unmarshal b).1 ≡ false)
          × (j.unmarshal_std b (j.unmarshal b).0 ≡ none))
        ⊎ ((p : P) × (state : BlockState) × (module_init_genesis text j b s
              ≡ (ok tt, record { stored_params = some p; block_state = some state })))
  unfolding module_init_genesis genesis_state_from_json fallback init_decoded checked
  module_init_genesis-cases text j b s = elim (Bool-cases (j.unmarshal b).1) [
    | inl fine ↦
        let gs = (j.unmarshal b).0 in
        inr (
          (normalize_genesis_state gs).params,
          initial_state text (normalize_genesis_state gs),
          rw (fine, init_normalized text gs s) refl,
        )
    | inr bad ↦ elim (Option-cases (j.unmarshal_std b (j.unmarshal b).0)) [
      | inl worse ↦ inl (rw (bad, worse) refl, bad, worse)
      | inr (gs, good) ↦ inr (
        (normalize_genesis_state gs).params,
        initial_state text (normalize_genesis_state gs),
        rw (bad, good, init_normalized text gs s) refl,
      )
    ]
  ]
