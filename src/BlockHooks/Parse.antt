-- ===== src/BlockHooks/Parse.antt =====
-- cosmos/app/block_hooks.go: the hooks of the configuration file, and the parsers of their parameters.
pub mod Typing
use nexus_node.Common.{
  ℕ, Option, none, some, Result, ok, err, ◌>>=◌, ◌>>◌, fail_if, Bool, true, false, not, String,
  str_eq, if◌then◌else◌, ◌==◌, length,
}
use nexus_node.Common.Text.{Bytes}
use nexus_node.Upgrades.Add.{AddValidatorOptions, is_positive}
use nexus_node.Upgrades.Remove.{RemoveValidatorOptions}

-- A decoded YAML value, as far as the parsers below look at it.
mutual
  pub data Value : Type 0 where
    text : String → Value
    bool : Bool → Value
    mapping : Fields → Value
    unknown : Value

  pub data Fields : Type 0 where
    no_fields : Fields
    field : String → Value → Fields → Fields

find_field : String → Fields → Option Value
find_field key no_fields = none
find_field key (field name value rest) = if str_eq name key then some value else find_field key rest

-- A panic of the parsers, by what it complains of.
pub data BadHook : Type 0 where
  not_a_map missing_field not_a_string not_an_int not_positive not_a_bool bad_address : BadHook
  bad_base64 bad_key_size bad_key_type : BadHook
  unexpected_action : BadHook

-- `strconv.ParseInt` of an int64, where a negative one is `none`; `strconv.ParseBool`, base64, bech32
-- and `strings.ToLower`.
pub record Parsers : Type 0 where
  pub parse_int64 : String → Option (Option ℕ)
  pub parse_bool : String → Option Bool
  pub decode_base64 : String → Option Bytes
  pub acc_address : String → Option Bytes
  pub val_address : String → Option Bytes
  pub lower : String → String
  -- `ed25519.KeyType` and `ed25519.PubKeySize`
  pub key_type : String
  pub key_size : ℕ

pub data HookParams : Type 0 where
  unjail_params : String → Option ℕ → HookParams
  add_validator_params : String → AddValidatorOptions → HookParams
  remove_validator_params : String → RemoveValidatorOptions → HookParams
  reconcile_params : HookParams

-- `BlockHook` before and after `LoadHooks`.
pub record RawHook : Type 0 where
  pub block : ℕ
  pub action : String
  pub params : Value

pub record BlockHook : Type 0 where
  pub block : ℕ
  pub action : String
  pub params : HookParams

expect_map : Value → Result BadHook Fields
expect_map (mapping fields) = ok fields
expect_map _ = err not_a_map

require_string : Value → Result BadHook String
require_string (text s) = ok s
require_string _ = err not_a_string

require_field : Fields → String → Result BadHook Value
require_field fields key = elim (find_field key fields) [ none ↦ err missing_field | some v ↦ ok v ]

require_text : Fields → String → Result BadHook String
require_text fields key = require_field fields key >>= require_string

module _ (parsers : Parsers) where
  parse_int : Value → Result BadHook (Option ℕ)
  parse_int value = do
    s ← require_string value
    elim (parsers.parse_int64 s) [ none ↦ err not_an_int | some n ↦ ok n ]

  parse_positive : Value → Result BadHook (Option ℕ)
  parse_positive value = do n ← parse_int value; fail_if (not (is_positive n)) not_positive; ok n

  parse_bool_value : Value → Result BadHook Bool
  parse_bool_value (bool b) = ok b
  parse_bool_value (text s) = elim (parsers.parse_bool s) [ none ↦ err not_a_bool | some b ↦ ok b ]
  parse_bool_value _ = err not_a_bool

  -- The key types that are accepted, in lower case; an empty one is ed25519.
  is_ed25519 : String → Bool
  is_ed25519 type =
      if str_eq type ""
      then true
      else if str_eq type (parsers.lower parsers.key_type)
      then true
      else str_eq type "tendermint/pubkeyed25519"

  parse_pub_key : Value → Result BadHook Bytes
  unfolding is_ed25519
  parse_pub_key value = do
    fields ← expect_map value
    key_type ← require_text fields "type"
    raw ← require_text fields "value"
    key ← elim (parsers.decode_base64 raw) [ none ↦ err bad_base64 | some key ↦ ok key ]
    fail_if (not (is_ed25519 (parsers.lower key_type))) bad_key_type
    fail_if (not (length key == parsers.key_size)) bad_key_size
    ok key

  optional : {A : Type 0} → (Value → Result BadHook A) → A → Option Value → Result BadHook A
  optional parse default none = ok default
  optional parse default (some value) = parse value

  parse_unjail_hook : Value → Result BadHook HookParams
  parse_unjail_hook value = do
    fields ← expect_map value
    validator ← require_text fields "validator"
    target ← optional parse_positive none (find_field "target_tokens" fields)
    ok (unjail_params validator target)

  parse_add_validator_hook : Value → Result BadHook HookParams
  parse_add_validator_hook value = do
    fields ← expect_map value
    validator ← require_text fields "validator"
    raw_key ← require_field fields "pub_key"
    raw_min ← require_field fields "min_self_delegation"
    key ← parse_pub_key raw_key
    min ← parse_int raw_min
    raw_tokens ← require_field fields "initial_tokens"
    tokens ← parse_positive raw_tokens
    ok (
        add_validator_params validator (record {
          pub_key = some key;
          description = "";
          initial_tokens = tokens;
          min_self_delegation = min;
        }))

  parse_recipient : Value → Result BadHook (Option Bytes)
  parse_recipient value = do
    s ← require_string value
    elim (parsers.acc_address s) [ none ↦ err bad_address | some addr ↦ ok (some addr) ]

  parse_remove_validator_hook : Value → Result BadHook HookParams
  parse_remove_validator_hook value = do
    fields ← expect_map value
    validator ← require_text fields "validator"
    burn ← optional parse_bool_value false (find_field "burn_tokens" fields)
    recipient ← optional parse_recipient none (find_field "token_recipient" fields)
    ok (
        remove_validator_params validator
          (record { burn_tokens = burn; token_recipient = recipient }))

  unfoldable pub parse_hook : String → Value → Result BadHook HookParams
  unfolding parse_unjail_hook parse_add_validator_hook parse_remove_validator_hook expect_map
      require_text optional parse_positive find_field require_field parse_pub_key parse_int
      parse_bool_value parse_recipient require_string is_ed25519
  parse_hook action value =
      if str_eq action "unjail"
      then parse_unjail_hook value
      else if str_eq action "add_validator"
      then parse_add_validator_hook value
      else if str_eq action "remove_validator"
      then parse_remove_validator_hook value
      else if str_eq action "reconcile_staking_pools"
      then ok reconcile_params
      else err unexpected_action
