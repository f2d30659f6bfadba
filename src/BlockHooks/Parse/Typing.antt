-- ===== src/BlockHooks/Parse/Typing.antt =====
-- The parameters that the parsers give an action are of that action's type.
use nexus_node.Common.{
  ◌≡◌, refl, none, ok, >>=-ok, ok_injective, String, str_eq, eq_iff, Bool-cases, inl, inr, arith,
  false,
}
use mathlib.Core.Path.{subst}
use nexus_node.BlockHooks.Parse.{
  Parsers, Value, HookParams, unjail_params, add_validator_params, remove_validator_params,
  reconcile_params, expect_map, require_text, require_field, find_field, optional, parse_positive,
  parse_int, parse_pub_key, parse_bool_value, parse_recipient, parse_unjail_hook,
  parse_add_validator_hook, parse_remove_validator_hook, parse_hook,
}

-- The action that parameters of each type are for.
abbrev pub HasType : String → HookParams → Type 0
HasType action (unjail_params validator target) = action ≡ "unjail"
HasType action (add_validator_params validator opts) = action ≡ "add_validator"
HasType action (remove_validator_params validator opts) = action ≡ "remove_validator"
HasType action reconcile_params = action ≡ "reconcile_staking_pools"

module _ (parsers : Parsers) (value : Value) (params : HookParams) where
  unjail-HasType : parse_unjail_hook parsers value ≡ ok params → HasType "unjail" params
  unfolding parse_unjail_hook
  unjail-HasType h =
      let (fields, a, h1) = >>=-ok (expect_map value) _ params h in
      let (validator, b, h2) = >>=-ok (require_text fields "validator") _ params h1 in
      let (target, c, h3) =
        >>=-ok (optional parsers (parse_positive parsers) none (find_field "target_tokens" fields))
          _ params h2 in
      subst (HasType "unjail") (ok_injective refl h3) refl

  add_validator-HasType :
      parse_add_validator_hook parsers value ≡ ok params → HasType "add_validator" params
  unfolding parse_add_validator_hook
  add_validator-HasType h =
      let (fields, a, h1) = >>=-ok (expect_map value) _ params h in
      let (validator, b, h2) = >>=-ok (require_text fields "validator") _ params h1 in
      let (raw_key, c, h3) = >>=-ok (require_field fields "pub_key") _ params h2 in
      let (raw_min, d, h4) = >>=-ok (require_field fields "min_self_delegation") _ params h3 in
      let (key, e, h5) = >>=-ok (parse_pub_key parsers raw_key) _ params h4 in
      let (min, f, h6) = >>=-ok (parse_int parsers raw_min) _ params h5 in
      let (raw_tokens, g, h7) = >>=-ok (require_field fields "initial_tokens") _ params h6 in
      let (tokens, i, h8) = >>=-ok (parse_positive parsers raw_tokens) _ params h7 in
      subst (HasType "add_validator") (ok_injective refl h8) refl

  remove_validator-HasType :
      parse_remove_validator_hook parsers value ≡ ok params → HasType "remove_validator" params
  unfolding parse_remove_validator_hook
  remove_validator-HasType h =
      let (fields, a, h1) = >>=-ok (expect_map value) _ params h in
      let (validator, b, h2) = >>=-ok (require_text fields "validator") _ params h1 in
      let (burn, c, h3) =
        >>=-ok (optional parsers (parse_bool_value parsers) false (find_field "burn_tokens" fields))
          _ params h2 in
      let (recipient, d, h4) =
        >>=-ok
          (optional parsers (parse_recipient parsers) none (find_field "token_recipient" fields)) _
          params h3 in
      subst (HasType "remove_validator") (ok_injective refl h4) refl

  -- What is parsed for an action has its type.
  pub parse_hook-HasType :
      (action : String) → parse_hook parsers action value ≡ ok params → HasType action params
  unfolding parse_hook
  parse_hook-HasType action h = elim (Bool-cases (str_eq action "unjail")) [
    | inl one ↦ rw ((eq_iff action "unjail").0 one) (unjail-HasType (ground (arith, one)))
    | inr not_one ↦ elim (Bool-cases (str_eq action "add_validator")) [
      | inl two ↦ rw ((eq_iff action "add_validator").0 two) (add_validator-HasType (ground arith))
      | inr not_two ↦ elim (Bool-cases (str_eq action "remove_validator")) [
        | inl three ↦
            rw ((eq_iff action "remove_validator").0 three)
              (remove_validator-HasType (ground arith))
        | inr not_three ↦ elim (Bool-cases (str_eq action "reconcile_staking_pools")) [
          | inl four ↦
              let same : reconcile_params ≡ params = ground arith in
              subst (HasType action) same ((eq_iff action "reconcile_staking_pools").0 four)
          | inr none_of ↦ absurd (ground arith)
        ]
      ]
    ]
  ]
