-- ===== src/Evm/MsgServer/Replicas.antt =====
-- What a delivered payload does to the committed block state, as a function, and what replicas with
-- engines of their own therefore agree on.
use nexus_node.Common.{
  ℕ, ◌≡◌, ◌↔◌, refl, sym, ◌∙◌, ap, not, ◌&&◌, Option, none, some, List, [], ◌∷◌, Result, Done, ok,
  err, Result-cases, Option-cases, Bool-cases, inl, inr, false, true, is_empty, if◌then◌else◌,
  arith,
}
use nexus_node.Engine.{ExecutableData, EngineClient}
use nexus_node.Evm.State.{BlockState, KeeperError, Node}
use nexus_node.Evm.Retry.{GoContext}
use nexus_node.Evm.Keeper.{
  Keeper, finalize, process_proposal, SdkContext, MsgExecutionPayload, Libraries,
}
use nexus_node.Evm.Payload.{validate_payload, check_position}
use nexus_node.Evm.MsgServer.{is_finalize, execution_payload, proposal_payload}
use nexus_node.Evm.MsgServer.Commit.{head_of, execution_payload-err, execution_payload-ok}
use nexus_node.Evm.MsgServer.Agreement.{
  FromEngine, submit_payload-FromEngine, decoded_nonempty, validate_payload-mode,
  accepted-FromEngine, commit-accepted,
}

-- A result that depends neither on a status of the engine nor on the end of the context.
abbrev pub IsSettled : Result KeeperError Done → Type 0
IsSettled (ok u) = Unit
IsSettled (err e) = ¬ FromEngine e

advanced : BlockState → Result KeeperError ExecutableData → Option BlockState
advanced s (ok p) = some (head_of p)
advanced s (err e) = some s

-- The abstract view of a delivery: without engine, clock, context or fuel.
pub next_state :
    Keeper → Libraries → SdkContext → MsgExecutionPayload → Option BlockState → Option BlockState
unfolding advanced
next_state k x c msg none = none
next_state k x c msg (some s) =
    if is_finalize c.exec_mode && not (is_empty msg.execution_payload)
    then advanced s (validate_payload k x c msg s)
    else some s

module _ {World : Type 0} (k : Keeper) (x : Libraries) (client : EngineClient World)
    (c : SdkContext) (ctx : GoContext World) where
  submitted :
      (fuel : ℕ) (msg : MsgExecutionPayload) (n n' : Node World) (s : BlockState)
      (p : ExecutableData) (e : KeeperError)
      → n.block_state ≡ some s
      → validate_payload k x c msg s ≡ ok p
      → is_finalize c.exec_mode ≡ true
      → is_empty msg.execution_payload ≡ false
      → execution_payload k x client c ctx fuel msg n ≡ some (err e, n')
      → FromEngine e
  unfolding execution_payload
  submitted fuel msg n n' s p e at good mode full run =
      submit_payload-FromEngine k x client c ctx fuel p n n' e (ground arith)

  committed :
      (fuel : ℕ) (msg : MsgExecutionPayload) (n n' : Node World)
      → execution_payload k x client c ctx fuel msg n ≡ some (ok tt, n')
      → n'.block_state ≡ next_state k x c msg n.block_state
  unfolding execution_payload next_state
  committed fuel msg n n' run =
      let (s, p, w, at, good, sent, chosen, after) =
        execution_payload-ok k x client c ctx fuel msg n n' run in
      ground (arith, at, good, after, run)

  refused :
      (fuel : ℕ) (msg : MsgExecutionPayload) (n n' : Node World) (e : KeeperError)
      → execution_payload k x client c ctx fuel msg n ≡ some (err e, n')
      → ¬ FromEngine e
      → next_state k x c msg n.block_state ≡ n.block_state
  unfolding next_state
  refused fuel msg n n' e run settled = elim (Option-cases n.block_state) [
    | inl unset ↦ ground (arith, unset)
    | inr (s, at) ↦ elim (Result-cases (validate_payload k x c msg s)) [
      | inr (bad, why) ↦ ground (arith, at, why)
      | inl (p, good) ↦ elim (Bool-cases (is_finalize c.exec_mode)) [
        | inr other ↦ ground (arith, at, other)
        | inl mode ↦ elim (Bool-cases (is_empty msg.execution_payload)) [
          | inl empty ↦ ground (arith, at, empty)
          | inr full ↦ absurd (settled (submitted fuel msg n n' s p e at good mode full run))
        ]
      ]
    ]
  ]

  -- Whatever the engine, the Go context and the fuel, a run of `ExecutionPayload` whose result is
  -- not due to the engine or to the end of the context moves the committed block state as the
  -- function `next_state` of the block's context and message alone says.
  pub execution_payload-refines :
      (fuel : ℕ) (msg : MsgExecutionPayload) (n n' : Node World) (r : Result KeeperError Done)
      → execution_payload k x client c ctx fuel msg n ≡ some (r, n')
      → IsSettled r
      → n'.block_state ≡ next_state k x c msg n.block_state
  execution_payload-refines fuel msg n n' (ok tt) run settled = committed fuel msg n n' run
  execution_payload-refines fuel msg n n' (err e) run settled =
      execution_payload-err k x client c ctx fuel msg n n' run
      ∙ sym (refused fuel msg n n' e run settled)

  -- When the decoder refuses empty JSON, a delivery in finalize mode whose result is not due to the
  -- engine or to the end of the context succeeds exactly when ProcessProposal accepts the same
  -- message at the same state and block context.
  pub accepted-iff-commits :
      (fuel : ℕ) (msg : MsgExecutionPayload) (n n' : Node World) (r : Result KeeperError Done)
      → x.unmarshal_payload [] ≡ none
      → c.exec_mode ≡ finalize
      → execution_payload k x client c ctx fuel msg n ≡ some (r, n')
      → IsSettled r
      → (proposal_payload k x (record c { exec_mode = process_proposal }) msg n ≡ some (ok tt, n))
        ↔ (r ≡ ok tt)
  accepted-iff-commits fuel msg n n' (ok tt) json mode run settled =
      ((λ h. refl), (λ e. commit-accepted k x client c ctx fuel msg n n' run))
  accepted-iff-commits fuel msg n n' (err e) json mode run settled = (
    (λ h. absurd (settled (accepted-FromEngine k x client c ctx fuel msg n n' e json mode h run))),
    (λ q. absurd (cc)),
  )

-- What consensus gives every node of one block.
pub record Delivery : Type 0 where
  pub context : SdkContext
  pub message : MsgExecutionPayload

module _ {World : Type 0} (k : Keeper) (x : Libraries) (client : EngineClient World) where
  -- The node goes through the blocks in order, and no result is due to its engine or to its context.
  abbrev pub Settles : List Delivery → Node World → Node World → Type 0
  Settles [] n n' = n' ≡ n
  Settles (d ∷ blocks) n n' =
      (m : Node World) × (ctx : GoContext World) × (fuel : ℕ) × (r : Result KeeperError Done)
      × (execution_payload k x client d.context ctx fuel d.message n ≡ some (r, m))
      × IsSettled r
      × Settles blocks m n'

next_state-clock :
    (k l : Keeper) (x : Libraries) (d : Delivery) (s : Option BlockState)
    → k.clock ≡ l.clock
    → next_state k x d.context d.message s ≡ next_state l x d.context d.message s
unfolding next_state validate_payload check_position
next_state-clock k l x d none e = refl
next_state-clock k l x d (some s) e = rw e refl

-- Two nodes with the same clock configuration that start from the same committed block state and go
-- through the same blocks end with the same block state, whatever their engines, their Go contexts,
-- their fuel, their fork schedules and their fee recipients, and whichever of the blocks they refuse,
-- as long as no result is due to an engine or to the end of a context.
pub replicas_agree :
    {World Other : Type 0} (k l : Keeper) (x : Libraries) (client : EngineClient World)
    (other : EngineClient Other) (blocks : List Delivery) (n n' : Node World) (o o' : Node Other)
    → k.clock ≡ l.clock
    → n.block_state ≡ o.block_state
    → Settles k x client blocks n n'
    → Settles l x other blocks o o'
    → n'.block_state ≡ o'.block_state
replicas_agree k l x client other [] n n' o o' same start run run' = rw (run, run') start
replicas_agree k l x client other (d ∷ blocks) n n' o o' same start
      (m, ctx, fuel, r, step, settled, rest) (m', ctx', fuel', r', step', settled', rest') =
    let here =
      execution_payload-refines k x client d.context ctx fuel d.message n m r step settled in
    let there =
      execution_payload-refines l x other d.context ctx' fuel' d.message o m' r' step' settled' in
    let next : m.block_state ≡ m'.block_state =
      here
      ∙ ap (next_state k x d.context d.message) start
      ∙ next_state-clock k l x d o.block_state same
      ∙ sym there in
    replicas_agree k l x client other blocks m n' m' o' same next rest rest'

-- A message that validates moves the state to the head of its payload, in finalize mode.
pub next_state-ok :
    (k : Keeper) (x : Libraries) (c : SdkContext) (msg : MsgExecutionPayload) (s : BlockState)
    (p : ExecutableData)
    → x.unmarshal_payload [] ≡ none
    → validate_payload k x c msg s ≡ ok p
    → next_state k x (record c { exec_mode = finalize }) msg (some s) ≡ some (head_of p)
unfolding next_state is_finalize advanced
next_state-ok k x c msg s p json good =
    let full = decoded_nonempty k x c msg s p json good in
    ground (arith, full, good, validate_payload-mode k x c finalize msg s)
