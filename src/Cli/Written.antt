-- ===== src/Cli/Written.antt =====
-- What the command line does to the disk before a command runs.
use nexus_node.Common.{
  true, false, List, [], ◌∷◌, Option, some, Result, ok, ◌≡◌, ◌≢◌, refl, if◌then◌else◌, Bool-cases,
  inl, inr, is_empty,
}
use nexus_node.Common.Text.{Bytes, codes, bytes_eq, bytes_eq_refl, bytes_eq_sound}
use nexus_node.Upgrades.Api.{Chain, done, failed}
use nexus_node.Testnet.Disk.{
  FilePath, Disk, path_eq, has_dir, is_above, lookup, dir, mkdir_all, create,
}
use nexus_node.Cli.{
  Command, genesis, is_embedded, home_of, genesis_target, write_genesis, for_chain, chosen,
  materialize_embedded_genesis,
}

is_above_refl : (p : FilePath) → is_above p p ≡ true
unfolding is_above
is_above_refl [] = refl
is_above_refl (a ∷ p) = rw (bytes_eq_refl a) (is_above_refl p)

-- The directory that was just made is there.
made : (p : FilePath) (ds : List FilePath) → has_dir p (p ∷ ds) ≡ true
unfolding has_dir
made p ds = rw (is_above_refl p) refl

module _ (fs : Bytes → Result Chain Bytes) (default : FilePath) (cmd : Command) (d : Disk) where
  -- What the disk holds once the genesis of the network is written.
  abbrev pub written : Bytes → FilePath → Option Bytes
  written text p =
      if path_eq (genesis_target (home_of default cmd.home)) p then some text else lookup p d.files

  write_genesis-Written :
      (chain text : Bytes)
      → genesis fs chain ≡ ok text
      → let after = write_genesis fs (home_of default cmd.home) chain d in
        (after.0 ≡ done tt) × ((p : FilePath) → lookup p after.1.files ≡ written text p)
  unfolding write_genesis mkdir_all create lookup
  write_genesis-Written chain text found =
      let target = genesis_target (home_of default cmd.home) in
      let there = made (dir target) d.directories in
      (rw found (rw there refl), λ p. rw found (rw there refl))

  -- Without a network the disk stays as it is. A network that is not embedded is an error of every
  -- command, and the disk stays as it is. Before the command `start`, an embedded network's genesis
  -- is written to `config/genesis.json` under the home directory, and every other file stays; before
  -- any other command nothing is written.
  pub materialize_embedded_genesis-cases :
      (chain : Bytes)
      → cmd.chain ≡ some chain
      → let after = materialize_embedded_genesis fs default cmd d in
        (is_empty chain ≡ true → after ≡ (done tt, d))
        × (is_empty chain ≡ false
            → is_embedded chain ≡ false
            → after ≡ (failed ("the chain is not supported" ∷ []), d))
        × (is_empty chain ≡ false
            → is_embedded chain ≡ true
            → cmd.name ≢ codes "start"
            → after ≡ (done tt, d))
        × ((text : Bytes)
            → is_empty chain ≡ false
            → is_embedded chain ≡ true
            → cmd.name ≡ codes "start"
            → genesis fs chain ≡ ok text
            → (after.0 ≡ done tt) × ((p : FilePath) → lookup p after.1.files ≡ written text p))
  unfolding materialize_embedded_genesis chosen for_chain
  materialize_embedded_genesis-cases chain given = rw given (
    λ empty. rw empty refl,
    λ named unknown. rw named (rw unknown refl),
    λ named known other. elim (Bool-cases (bytes_eq cmd.name (codes "start"))) [
      | inl e ↦ absurd (other (bytes_eq_sound cmd.name (codes "start") e))
      | inr e ↦ rw named (rw known (rw e refl))
    ],
    λ text named known start found. rw named (
        rw known
          (rw start (rw (bytes_eq_refl (codes "start")) (write_genesis-Written chain text found)))),
  )
