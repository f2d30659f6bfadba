-- ===== src/Genesis/Roundtrip.antt =====
-- A chain that is exported and started again.
use nexus_node.Common.{◌≡◌, some, ok, Bool, true, false, str_eq, arith, length}
use nexus_node.Common.Text.{codes, has_prefix}
use nexus_node.Engine.{Hash}
use nexus_node.Evm.State.{BlockState}
use nexus_node.Genesis.{
  HashText, GenesisState, Store, initial_state, init_genesis, export_state, export_genesis,
  is_hash_text, validate_genesis,
}

-- What go-ethereum promises of the text of a 32-byte hash: it is read back, and it is "0x" and 64
-- digits.
pub record HashLaws (text : HashText) (h : Hash) : Type 0 where
  pub read_back : text.hex_to_hash (text.hex h) ≡ h
  pub not_empty : str_eq (text.hex h) "" ≡ false
  pub size : length (codes (text.hex h)) ≡ 66
  pub prefix : has_prefix (codes (text.hex h)) (codes "0x") ≡ true

-- By go-ethereum's laws for the text of the block's hash, a chain with parameters and a block
-- state exports a genesis, which is valid when the parameters are, and a node that starts from it,
-- whatever it had stored, has the parameters and the block state of the exporting one.
pub export-init :
    {P : Type 0} (text : HashText) (params_fit : P → Bool) (p : P) (b : BlockState) (old : Store P)
    → HashLaws text b.hash
    → params_fit p ≡ true
    → let store : Store P = record { stored_params = some p; block_state = some b } in
      (gs : GenesisState P) × (export_genesis text store ≡ ok gs)
      × (validate_genesis params_fit gs ≡ ok tt)
      × (init_genesis text gs old ≡ (ok tt, store))
unfolding export_genesis export_state init_genesis initial_state validate_genesis is_hash_text
export-init text params_fit p b old laws fit =
    let e1 = laws.read_back in
    let e2 = laws.not_empty in
    let e3 = laws.size in
    let e4 = laws.prefix in (export_state text p (some b), ground arith, ground arith, ground arith)
