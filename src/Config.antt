-- ===== src/Config.antt =====
-- cosmos/lib/config.go and cosmos/app/chain.go: the node's configuration file, and the chain
-- specification that it holds. The environment, the file system and the YAML decoder are arguments.
pub mod Matrix
pub mod Keeper
pub mod Secret
use nexus_node.Common.{
  Option, none, some, Result, ok, err, ◌≡◌, refl, String, str_eq, Result-cases, inl, inr,
  if◌then◌else◌, arith,
}
use nexus_node.Common.Text.{Bytes}
use nexus_node.ChainSpec.{ChainSpec, SpecError, validate}

-- What the file system holds at a path.
pub data File : Type 0 where
  missing unreadable : File
  contents : Bytes → File

-- A Go `panic`, by the place that raises it.
pub data Panic : Type 0 where
  file_missing file_unreadable undecodable : Panic
  bad_spec : SpecError → Panic

-- `data, err` of `ReadConfigFile`; an empty path is an error, and a path without a readable file
-- panics.
pub data ConfigData : Type 0 where
  no_path : ConfigData
  read : Bytes → ConfigData

unfoldable pub read_file : File → Result Panic ConfigData
read_file missing = err file_missing
read_file unreadable = err file_unreadable
read_file (contents b) = ok (read b)

unfoldable pub read_config_file : String → (String → File) → Result Panic ConfigData
unfolding read_file
read_config_file path file = if str_eq path "" then ok no_path else read_file (file path)

-- `Forks` of chain.go has the three fields of `ChainSpec`; the decoder gives them or an error.
validated : ChainSpec → Result Panic ChainSpec
validated spec = elim (validate spec) [ ok _ ↦ ok spec | err e ↦ err (bad_spec e) ]

decoded : Option ChainSpec → Result Panic ChainSpec
decoded none = err undecodable
decoded (some spec) = validated spec

unset : ChainSpec
unset = record { prague_timestamp = none; osaka_timestamp = none; amsterdam_timestamp = none }

spec_of : (Bytes → Option ChainSpec) → Result Panic ConfigData → Result Panic ChainSpec
spec_of unmarshal (err p) = err p
spec_of unmarshal (ok no_path) = ok unset
spec_of unmarshal (ok (read b)) = decoded (unmarshal b)

unfoldable pub load_chain_spec :
    (Bytes → Option ChainSpec) → String → (String → File) → Result Panic ChainSpec
unfolding spec_of decoded validated unset
load_chain_spec unmarshal path file = spec_of unmarshal (read_config_file path file)

validated-validates :
    (c : ChainSpec) {spec : ChainSpec} → validated c ≡ ok spec → validate spec ≡ ok tt
unfolding validated
validated-validates c h = elim (Result-cases (validate c)) [
  | inl (a, e) ↦ ground (arith, e)
  | inr (x, e) ↦ ground (arith, e)
]

decoded-validates :
    (o : Option ChainSpec) {spec : ChainSpec} → decoded o ≡ ok spec → validate spec ≡ ok tt
unfolding decoded
decoded-validates none h = cc
decoded-validates (some c) h = validated-validates c h

unset-validates : validate unset ≡ ok tt
unfolding validate unset
unset-validates = refl

spec_of-validates :
    (unmarshal : Bytes → Option ChainSpec) (c : Result Panic ConfigData) {spec : ChainSpec}
    → spec_of unmarshal c ≡ ok spec
    → validate spec ≡ ok tt
unfolding spec_of
spec_of-validates unmarshal (err p) h = cc
spec_of-validates unmarshal (ok no_path) h = ground (arith, unset-validates)
spec_of-validates unmarshal (ok (read b)) h = decoded-validates (unmarshal b) h

-- Whatever the environment, the file and the decoder, a chain specification that `LoadChainSpec`
-- returns is one that `Validate` accepts.
pub load_chain_spec-validates :
    (unmarshal : Bytes → Option ChainSpec) (path : String) (file : String → File) {spec : ChainSpec}
    → load_chain_spec unmarshal path file ≡ ok spec
    → validate spec ≡ ok tt
unfolding load_chain_spec
load_chain_spec-validates unmarshal path file h =
    spec_of-validates unmarshal (read_config_file path file) h
