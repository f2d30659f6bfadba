-- ===== src/BlockHooks/Typing.antt =====
-- Hooks that `LoadHooks` scheduled, and what `PerformHook` does with them.
use nexus_node.Common.{
  ℕ, ◌≡◌, refl, none, some, ok, List, [], ◌∷◌, ◌++◌, All, Bool-cases, inl, inr, ◌==◌, >>=-ok,
  String, if◌then◌else◌,
}
use mathlib.Core.Path.{subst}
use nexus_node.Upgrades.Api.{App, Keepers, Names}
use nexus_node.Upgrades.Balance.{execute_unjailing}
use nexus_node.Upgrades.Add.{is_positive, execute_add_validator}
use nexus_node.Upgrades.Remove.{execute_remove_validator}
use nexus_node.Upgrades.Reconcile.{execute_reconcile_staking_pools}
use nexus_node.Upgrades.Api.{Out}
use nexus_node.BlockHooks.Parse.{
  RawHook, BlockHook, HookParams, unjail_params, add_validator_params, remove_validator_params,
  reconcile_params, Parsers, parse_hook,
}
use nexus_node.BlockHooks.Parse.Typing.{HasType, parse_hook-HasType}
use nexus_node.BlockHooks.{
  BlockHooks, append_hook, load_hooks, at_validator, perform_unjail_hook,
  perform_add_validator_hook, perform_remove_validator_hook, perform_reconcile_hook, perform_hook,
}

abbrev IsTyped : BlockHook → Type 0
IsTyped hook = HasType hook.action hook.params

module _ (parsers : Parsers) where
  All-append :
      (hooks : List BlockHook) (hook : BlockHook)
      → All IsTyped hooks
      → IsTyped hook
      → All IsTyped (hooks ++ (hook ∷ []))
  All-append [] hook all one = (one, tt)
  All-append (h ∷ hooks) hook (here, all) one = (here, All-append hooks hook all one)

  append_hook-IsTyped :
      (hook : BlockHook) (hooks : BlockHooks parsers)
      → IsTyped hook
      → ((b : ℕ) → All IsTyped (hooks b))
      → (b : ℕ) → All IsTyped (append_hook parsers hook hooks b)
  unfolding append_hook
  append_hook-IsTyped hook hooks one all b = elim (Bool-cases (b == hook.block)) [
    | inl here ↦ rw here (All-append (hooks b) hook (all b) one)
    | inr other ↦ rw other (all b)
  ]

  load_hooks-IsTyped :
      (start hooks : BlockHooks parsers) (raws : List RawHook)
      → ((b : ℕ) → All IsTyped (start b))
      → load_hooks parsers start raws ≡ ok hooks
      → (b : ℕ) → All IsTyped (hooks b)
  unfolding load_hooks
  load_hooks-IsTyped start hooks [] all h b =
      let e : start ≡ hooks = cc in subst (λ f. All IsTyped (f b)) e (all b)
  load_hooks-IsTyped start hooks (raw ∷ raws) all h b =
      let (params, good, rest) = >>=-ok (parse_hook parsers raw.action raw.params) _ hooks h in
      let hook : BlockHook = record { block = raw.block; action = raw.action; params = params } in
      load_hooks-IsTyped (append_hook parsers hook start) hooks raws
        (append_hook-IsTyped hook start
          (parse_hook-HasType parsers raw.params params raw.action good) all)
        rest b

  module _ {W : Type 0} (names : Names) (k : Keepers W) where
    -- The action that parameters of each type stand for.
    abbrev pub action_of : HookParams → App W Unit
    action_of (unjail_params validator target) =
        at_validator parsers names k validator
          (λ addr. execute_unjailing names k addr (if is_positive target then target else none))
    action_of (add_validator_params validator opts) =
        at_validator parsers names k validator
          (λ addr. execute_add_validator names k addr (some opts))
    action_of (remove_validator_params validator opts) =
        at_validator parsers names k validator
          (λ addr. execute_remove_validator names k addr (some opts))
    action_of reconcile_params = λ w. (Out.done tt, execute_reconcile_staking_pools names k w)

    typed-performs :
        (block : ℕ) (action : String) (params : HookParams)
        → HasType action params
        → perform_hook parsers names k (record { block = block; action = action; params = params })
          ≡ action_of params
    unfolding perform_hook perform_unjail_hook perform_add_validator_hook
        perform_remove_validator_hook perform_reconcile_hook
    typed-performs block action (unjail_params validator target) t = rw t refl
    typed-performs block action (add_validator_params validator opts) t = rw t refl
    typed-performs block action (remove_validator_params validator opts) t = rw t refl
    typed-performs block action reconcile_params t = rw t refl

    All-perform :
        (hooks : List BlockHook)
        → All IsTyped hooks
        → All (λ hook. perform_hook parsers names k hook ≡ action_of hook.params) hooks
    All-perform [] all = tt
    All-perform (hook ∷ hooks) (here, all) =
        (typed-performs hook.block hook.action hook.params here, All-perform hooks all)

    -- Well-typed hooks do not go wrong: of a configuration that loads, every hook at every height is
    -- performed as the action that its parameters are for, so `PerformHook` never meets an action that it
    -- does not recognize, nor parameters of another type.
    pub loaded_hooks_perform :
        (raws : List RawHook) (hooks : BlockHooks parsers) (b : ℕ)
        → load_hooks parsers (λ b. []) raws ≡ ok hooks
        → All (λ hook. perform_hook parsers names k hook ≡ action_of hook.params) (hooks b)
    loaded_hooks_perform raws hooks b h =
        All-perform (hooks b) (load_hooks-IsTyped (λ b. []) hooks raws (λ b. tt) h b)
