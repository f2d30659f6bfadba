-- ===== src/BlockHooks.antt =====
-- cosmos/app/block_hooks.go, and `EndBlocker` of cosmos/app/app.go: the actions that the configuration
-- file schedules for a height.
pub mod Parse
pub mod Run
pub mod Load
pub mod Typing
mod Tests
use nexus_node.Common.{
  ℕ, none, some, Result, ok, ◌>>=◌, String, str_eq, if◌then◌else◌, List, [], ◌∷◌, ◌++◌, ◌==◌, Bool,
}
use nexus_node.Common.Text.{Bytes}
use nexus_node.Telemetry
use nexus_node.Telemetry.{Gauge, update_validator_metrics}
use nexus_node.BlockHooks.Parse.{
  BadHook, Parsers, HookParams, unjail_params, add_validator_params, remove_validator_params,
  reconcile_params, RawHook, BlockHook, parse_hook,
}
use nexus_node.Upgrades.Api.{Out, App, Keepers, Names}
use nexus_node.Upgrades.Balance.{execute_unjailing}
use nexus_node.Upgrades.Add.{is_positive, execute_add_validator}
use nexus_node.Upgrades.Remove.{execute_remove_validator}
use nexus_node.Upgrades.Reconcile.{execute_reconcile_staking_pools}

module _ (parsers : Parsers) where
  -- `BlockHooks`: the hooks of a height, none where the map has no entry.
  abbrev pub BlockHooks : Type 0
  BlockHooks = ℕ → List BlockHook

  -- `hooks[block] = append(hooks[block], hook)`
  unfoldable pub append_hook : BlockHook → BlockHooks → BlockHooks
  append_hook hook hooks b = if b == hook.block then hooks b ++ (hook ∷ []) else hooks b

  -- The loop of `LoadHooks`.
  unfoldable pub load_hooks : BlockHooks → List RawHook → Result BadHook BlockHooks
  load_hooks hooks [] = ok hooks
  load_hooks hooks (raw ∷ raws) = do
    params ← parse_hook parsers raw.action raw.params
    load_hooks
        (append_hook (record { block = raw.block; action = raw.action; params = params }) hooks)
        raws

  module _ {W : Type 0} (names : Names) (k : Keepers W) where
    -- `ValAddressFromBech32`, and then the action.
    pub at_validator : String → (Bytes → App W Unit) → App W Unit
    at_validator validator act w = elim (parsers.val_address validator) [
      | none ↦ (Out.failed ("invalid validator address" ∷ []), w)
      | some addr ↦ act addr w
    ]

    abbrev mismatch : App W Unit
    mismatch w = (Out.failed ("invalid params" ∷ []), w)

    perform_unjail_hook : HookParams → App W Unit
    perform_unjail_hook (unjail_params validator target) =
        at_validator validator
          (λ addr. execute_unjailing names k addr (if is_positive target then target else none))
    perform_unjail_hook _ = mismatch

    perform_add_validator_hook : HookParams → App W Unit
    perform_add_validator_hook (add_validator_params validator opts) =
        at_validator validator (λ addr. execute_add_validator names k addr (some opts))
    perform_add_validator_hook _ = mismatch

    perform_remove_validator_hook : HookParams → App W Unit
    perform_remove_validator_hook (remove_validator_params validator opts) =
        at_validator validator (λ addr. execute_remove_validator names k addr (some opts))
    perform_remove_validator_hook _ = mismatch

    perform_reconcile_hook : HookParams → App W Unit
    perform_reconcile_hook reconcile_params w =
        (Out.done tt, execute_reconcile_staking_pools names k w)
    perform_reconcile_hook _ w = mismatch w

    unfoldable pub perform_hook : BlockHook → App W Unit
    unfolding at_validator perform_unjail_hook perform_add_validator_hook
        perform_remove_validator_hook perform_reconcile_hook
    perform_hook hook =
        if str_eq hook.action "unjail"
        then perform_unjail_hook hook.params
        else if str_eq hook.action "add_validator"
        then perform_add_validator_hook hook.params
        else if str_eq hook.action "remove_validator"
        then perform_remove_validator_hook hook.params
        else if str_eq hook.action "reconcile_staking_pools"
        then perform_reconcile_hook hook.params
        else (λ w. (Out.failed ("unrecognized hook action" ∷ []), w))

    -- An error is logged, a panic ends the block.
    after_hook : Out Unit → W → App W Unit → Out Unit × W
    after_hook (Out.panicked e) w rest = (Out.panicked e, w)
    after_hook (Out.done u) w rest = rest w
    after_hook (Out.failed e) w rest = rest w

    unfoldable pub run_hooks : List BlockHook → App W Unit
    unfolding after_hook
    run_hooks [] w = (Out.done tt, w)
    run_hooks (hook ∷ hooks) w = let p = perform_hook hook w in after_hook p.0 p.1 (run_hooks hooks)

    -- `EndBlocker`: the modules' end of block first, then the hooks of the height, then the gauges of the
    -- validators. `visits` is what the iteration over the validators visits and whether it ends with an
    -- error, `infos` is the slashing keeper's getter; the gauges that are set come last in the result.
    unfoldable pub end_blocker :
        {R : Type 0}
        → BlockHooks
        → (W → List Telemetry.Validator × Bool)
        → (W → Bytes → Result String Bool)
        → App W R
        → W
        → Out R × W × List Gauge
    end_blocker hooks visits infos module_end w =
        let p = module_end w in
        elim p.0 [
          | Out.failed e ↦ (Out.failed e, p.1, [])
          | Out.panicked e ↦ (Out.panicked e, p.1, [])
          | Out.done response ↦
              let q = run_hooks (hooks k.block_height) p.1 in
              let visited = visits q.1 in
              let gauges = update_validator_metrics (infos q.1) visited.0 visited.1 in
              elim q.0 [
                | Out.panicked e ↦ (Out.panicked e, q.1, [])
                | _ ↦ (Out.done response, q.1, gauges)
              ]
        ]
