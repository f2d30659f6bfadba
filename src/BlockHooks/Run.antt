-- ===== src/BlockHooks/Run.antt =====
-- What the end of a block does.
use nexus_node.Common.{◌≡◌, ◌≢◌, refl, ◌∙◌, List, [], ◌∷◌, arith, Bool, String, Result}
use nexus_node.Common.Text.{Bytes}
use nexus_node.Telemetry
use nexus_node.Telemetry.{update_validator_metrics}
use nexus_node.Upgrades.Api.{Out, App, Keepers, Names, Chain}
use nexus_node.BlockHooks.Parse.{BlockHook, Parsers}
use nexus_node.BlockHooks.{BlockHooks, perform_hook, after_hook, run_hooks, end_blocker}

module _ (parsers : Parsers) {W : Type 0} (names : Names) (k : Keepers W) where
  -- The state after all the hooks.
  abbrev pub all_hooks : List BlockHook → W → W
  all_hooks [] w = w
  all_hooks (hook ∷ hooks) w = all_hooks hooks (perform_hook parsers names k hook w).1

  -- None of the hooks panics in the state that those before it leave.
  abbrev pub NoPanic : List BlockHook → W → Type 0
  NoPanic [] w = Unit {0}
  NoPanic (hook ∷ hooks) w =
      ((e : Chain) → (perform_hook parsers names k hook w).0 ≢ Out.panicked e)
      × NoPanic hooks (perform_hook parsers names k hook w).1

  after_hook-calm :
      (o : Out Unit) (w : W) (rest : App W Unit)
      → ((e : Chain) → o ≢ Out.panicked e)
      → after_hook parsers names k o w rest ≡ rest w
  unfolding after_hook
  after_hook-calm (Out.done u) w rest calm = refl
  after_hook-calm (Out.failed e) w rest calm = refl
  after_hook-calm (Out.panicked e) w rest calm = absurd (calm e refl)

  run_hooks-all :
      (hooks : List BlockHook) (w : W)
      → NoPanic hooks w
      → run_hooks parsers names k hooks w ≡ (Out.done tt, all_hooks hooks w)
  unfolding run_hooks
  run_hooks-all [] w calm = refl
  run_hooks-all (hook ∷ hooks) w calm =
      after_hook-calm (perform_hook parsers names k hook w).0
        (perform_hook parsers names k hook w).1 (run_hooks parsers names k hooks) calm.0
      ∙ run_hooks-all hooks (perform_hook parsers names k hook w).1 calm.1

  -- When the modules' end of block succeeds and no hook panics, the block ends with the modules' response
  -- and every hook of its height is performed in order, those behind a failed hook included; the gauges
  -- are those of the validators in the state that the last hook leaves.
  pub end_blocker-all :
      {R : Type 0} (hooks : BlockHooks parsers) (visits : W → List Telemetry.Validator × Bool)
      (infos : W → Bytes → Result String Bool) (module_end : App W R) (response : R) (w : W)
      → (module_end w).0 ≡ Out.done response
      → NoPanic (hooks k.block_height) (module_end w).1
      → let after = all_hooks (hooks k.block_height) (module_end w).1 in
        end_blocker parsers names k hooks visits infos module_end w ≡ (
          Out.done response,
          after,
          update_validator_metrics (infos after) (visits after).0 (visits after).1,
        )
  unfolding end_blocker
  end_blocker-all hooks visits infos module_end response w ended calm =
      let e = run_hooks-all (hooks k.block_height) (module_end w).1 calm in ground (arith, e, ended)
