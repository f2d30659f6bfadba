-- ===== src/BlockHooks/Load.antt =====
-- What the configuration file schedules.
use nexus_node.Common.{
  ℕ, ◌≡◌, sym, ◌∙◌, ap, ok, List, [], ◌∷◌, ◌++◌, ◌==◌, if◌then◌else◌, arith, Result-cases,
  Bool-cases, inl, inr,
}
use mathlib.Core.List.{append_assoc, append-nil}
use nexus_node.BlockHooks.Parse.{RawHook, BlockHook, HookParams, Parsers, parse_hook}
use nexus_node.BlockHooks.{BlockHooks, append_hook, load_hooks}

module _ (parsers : Parsers) where
  -- Each hook of the file, parsed.
  pub data Parsed : List RawHook → List BlockHook → Type 0 where
    nothing : Parsed [] []
    also :
        (raw : RawHook) (raws : List RawHook) (params : HookParams) (hooks : List BlockHook)
        → parse_hook parsers raw.action raw.params ≡ ok params
        → Parsed raws hooks
        → Parsed
            (raw ∷ raws)
            (record { block = raw.block; action = raw.action; params = params } ∷ hooks)

  -- The hooks of a height, in their order.
  abbrev pub scheduled : ℕ → List BlockHook → List BlockHook
  scheduled b [] = []
  scheduled b (hook ∷ hooks) =
      if b == hook.block then hook ∷ scheduled b hooks else scheduled b hooks

  append-scheduled :
      (hook : BlockHook) (hooks : BlockHooks parsers) (rest : List BlockHook) (b : ℕ)
      → append_hook parsers hook hooks b ++ scheduled b rest ≡ hooks b ++ scheduled b (hook ∷ rest)
  unfolding append_hook
  append-scheduled hook hooks rest b = elim (Bool-cases (b == hook.block)) [
    | inl here ↦ rw (here) (append_assoc (hooks b) (hook ∷ []) (scheduled b rest))
    | inr other ↦ rw other
  ]

  start_at :
      (start hooks : BlockHooks parsers) (b : ℕ)
      → load_hooks parsers start [] ≡ ok hooks
      → hooks b ≡ start b
  unfolding load_hooks
  start_at start hooks b h = let e : start ≡ hooks = cc in sym (ap (λ f. f b) e)

  load_hooks-from :
      (start hooks : BlockHooks parsers) (raws : List RawHook)
      → load_hooks parsers start raws ≡ ok hooks
      → (parsed : List BlockHook) × Parsed raws parsed
        × ((b : ℕ) → hooks b ≡ start b ++ scheduled b parsed)
  unfolding load_hooks
  load_hooks-from start hooks [] h =
      ([], Parsed.nothing, (λ b. start_at start hooks b h ∙ sym (append-nil (start b))))
  load_hooks-from start hooks (raw ∷ raws) h =
      elim (Result-cases (parse_hook parsers raw.action raw.params)) [
        | inr (e, bad) ↦ absurd (ground arith)
        | inl (params, good) ↦
            let hook : BlockHook = record {
              block = raw.block;
              action = raw.action;
              params = params;
            } in
            let (parsed, each, at) =
              load_hooks-from (append_hook parsers hook start) hooks raws (ground arith) in
            (
              hook ∷ parsed,
              Parsed.also raw raws params parsed good each,
              (λ b. at b ∙ append-scheduled hook start parsed b),
            )
      ]

  -- A configuration that loads schedules at every height exactly the hooks that the file has for it, each
  -- parsed, in the order of the file.
  pub load_hooks-order :
      (hooks : BlockHooks parsers) (raws : List RawHook)
      → load_hooks parsers (λ b. []) raws ≡ ok hooks
      → (parsed : List BlockHook) × Parsed raws parsed × ((b : ℕ) → hooks b ≡ scheduled b parsed)
  load_hooks-order hooks raws h = load_hooks-from (λ b. []) hooks raws h
