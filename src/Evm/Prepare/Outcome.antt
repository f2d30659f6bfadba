-- ===== src/Evm/Prepare/Outcome.antt =====
-- What PrepareProposal proposes, what it leaves as it was, and what it logs.
use mathlib.Core.Path.{subst}
use nexus_node.Common.{
  if◌then◌else◌, ℕ, ◌≡◌, ◌≢◌, inl, inr, refl, Bool, true, false, Option, none, some, List, [], ◌∷◌,
  Result, ◌==◌, Bool-cases, arith,
}
use nexus_node.Common.Text.{Bytes}
use nexus_node.Engine.{ExecutableData, EngineClient}
use nexus_node.Evm.State.{BlockState, KeeperError, Node}
use nexus_node.Evm.Retry.{GoContext}
use nexus_node.Evm.Keeps.{Keeps, keeps_rules}
use nexus_node.Evm.Keeper.{Keeper, SdkContext, Libraries}
use nexus_node.Evm.Prepare.{
  note_version, wrap_payload, poll, build, propose, prepare, prepare_proposal,
}

-- The logged changes lead from "never logged", which is 0, to the version without a gap, and each
-- is a change.
abbrev pub Chained : ℕ → List (ℕ × ℕ) → Type 0
Chained version [] = version ≡ 0
Chained version ((before, after) ∷ changes) =
    (after ≡ version) × (before ≢ after) × Chained before changes

abbrev pub LogChained : {World : Type 0} → Node World → Type 0
LogChained n = Chained n.last_logged_rpc_version n.rpc_version_changes

changes_at : ℕ → ℕ → List (ℕ × ℕ) → List (ℕ × ℕ)
changes_at before after changes = if before == after then changes else (before, after) ∷ changes

changes_at-Chained :
    (before after : ℕ) (changes : List (ℕ × ℕ))
    → Chained before changes
    → Chained after (changes_at before after changes)
unfolding changes_at
changes_at-Chained before after changes h = elim (Bool-cases (before == after)) [
  | inl same ↦ let q : before ≡ after = ground arith in rw same (subst (λ v. Chained v changes) q h)
  | inr new ↦ rw new (refl, ground arith, h)
]

note_version-LogChained :
    {World : Type 0} (v : ℕ) → Keeps LogChained (note_version {World = World} v)
unfolding note_version changes_at
note_version-LogChained v = record {
  at = λ n n' r h p.
      let q : record n {
        last_logged_rpc_version = v;
        rpc_version_changes = changes_at n.last_logged_rpc_version v n.rpc_version_changes;
      }
          ≡ n' =
        cc in
      subst LogChained q (changes_at-Chained n.last_logged_rpc_version v n.rpc_version_changes p);
}

note_version-state :
    {World : Type 0} (s : Option BlockState) (v : ℕ)
    → Keeps (λ n. n.block_state ≡ s) (note_version {World = World} v)
unfolding note_version
note_version-state s v = record { at = λ n n' r h p. ground arith }

module _ {World : Type 0} (k : Keeper) (x : Libraries) (client : EngineClient World)
    (c : SdkContext) where
  module _ {P : Node World → Type 0} (noted : (v : ℕ) → Keeps P (note_version v))
      (stable : (n : Node World) (w : World) → P n → P (record n { world = w })) where
    wrap_payload-Keeps : (o : Option ExecutableData) → Keeps P (wrap_payload k x client c o)
    unfolding wrap_payload
    wrap_payload-Keeps none = search keeps_rules
    wrap_payload-Keeps (some p) = search keeps_rules

    module _ (ctx : GoContext World) (fuel : ℕ) where
      poll-Keeps : (t id : ℕ) → Keeps P (poll k x client c ctx fuel t id)
      unfolding poll
      poll-Keeps t id = search (keeps_rules, wrap_payload-Keeps, stable)

      build-Keeps :
          (stored : Option BlockState) (height t : ℕ)
          → Keeps P (build k x client c ctx fuel stored height t)
      unfolding build
      build-Keeps stored height t = search (keeps_rules, poll-Keeps, stable)

      prepare-Keeps : (first : Bool) → Keeps P (prepare k x client c ctx fuel first)
      unfolding prepare propose
      prepare-Keeps true = search keeps_rules
      prepare-Keeps false = search (keeps_rules, noted, build-Keeps)

module _ {World : Type 0} (k : Keeper) (x : Libraries) (client : EngineClient World)
    (c : SdkContext) (ctx : GoContext World) (fuel : ℕ) where
  -- However PrepareProposal ends, the committed block state is as it was, and the log of Engine API
  -- versions stays a chain from "never logged" to the version logged last, in which every entry is a
  -- change.
  pub prepare_proposal-keeps :
      (req_height : ℕ) (n n' : Node World) {r : Result KeeperError (List Bytes)}
      → prepare_proposal k x client c ctx fuel req_height n ≡ some (r, n')
      → LogChained n
      → (n'.block_state ≡ n.block_state) × LogChained n'
  unfolding prepare_proposal
  prepare_proposal-keeps req_height n n' {r} h chained = (
    (prepare-Keeps k x client c (note_version-state n.block_state) (λ m w p. p) ctx fuel
          (req_height == 1)).at
        n n' r h refl,
    (prepare-Keeps k x client c note_version-LogChained (λ m w p. p) ctx fuel (req_height == 1)).at
        n n' r h chained,
  )
