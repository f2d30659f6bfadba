-- ===== src/Evm/State.antt =====
-- What the handlers of x/evm change: the committed block state, the engine with its clock and its
-- context (the world), and what the process remembers to log a change of the Engine API version.
use nexus_node.Common.{ℕ, ◌*◌, Option, none, some, Result, ok, err, List, Bool, true, false}
use nexus_node.Common.Text.{Bytes}
use nexus_node.Engine.{Hash, Status}

-- `BlockState` of cosmos/x/evm/types/types.go
pub record BlockState : Type 0 where
  pub hash : Hash
  pub height : ℕ
  pub timestamp : ℕ

-- The errors that the handlers return. `expired` is `ctx.Err()`; `negative_height` is a panic of
-- `toUint64`, which ends a handler as an error does.
pub data KeeperError : Type 0 where
  not_finalizing empty_payload no_block_state : KeeperError
  invalid_authority invalid_payload withdrawals_unsupported fields_missing : KeeperError
  witness_unsupported bad_parent_hash bad_number stale_timestamp wrong_timestamp : KeeperError
  negative_height no_payload_id still_unknown tx_too_large encoding_failed : KeeperError
  bad_status : Status → KeeperError
  expired : Bytes → KeeperError

-- `types.MaxTxSize`
abbrev pub max_tx_size : ℕ
max_tx_size = 20 * 1024 * 1024

-- `GetBlockState` fails when the item was never set.
pub record Node (World : Type 0) : Type 0 where
  pub block_state : Option BlockState
  pub last_logged_rpc_version : ℕ
  pub rpc_version_changes : List (ℕ × ℕ)
  pub world : World

-- A handler: it may run without end (`none`), fail or succeed, and changes the node on the way.
abbrev pub Handler : Type 0 → Type 0 → Type 0
Handler World A = Node World → Option (Result KeeperError A × Node World)

module _ {World : Type 0} where
  infixl 5 ◌>>=◌ ◌>>◌
  abbrev pub ◌>>=◌ : {A B : Type 0} → Handler World A → (A → Handler World B) → Handler World B
  ◌>>=◌ m f n = elim (m n) [
    | none ↦ none
    | some (r, n') ↦ elim r [ ok a ↦ f a n' | err e ↦ some (err e, n') ]
  ]

  abbrev pub ◌>>◌ : {B : Type 0} → Handler World Unit → Handler World B → Handler World B
  m >> k = m >>= λ _. k

  abbrev pub pure : {A : Type 0} → A → Handler World A
  pure a n = some (ok a, n)

  abbrev pub lift : {A : Type 0} → Result KeeperError A → Handler World A
  lift r n = some (r, n)

  abbrev pub fail_if : Bool → KeeperError → Handler World Unit
  fail_if true e = lift (err e)
  fail_if false e = pure tt

  abbrev pub get_block_state : Handler World BlockState
  get_block_state n = elim n.block_state [
    | none ↦ some (err no_block_state, n)
    | some s ↦ some (ok s, n)
  ]

  abbrev pub set_block_state : BlockState → Handler World Unit
  set_block_state s n = some (ok tt, record n { block_state = some s })

  -- A computation on the world alone.
  abbrev pub on_world :
      {A : Type 0} → (World → Option (Result KeeperError A × World)) → Handler World A
  on_world m n = elim (m n.world) [ none ↦ none | some (r, w) ↦ some (r, record n { world = w }) ]
