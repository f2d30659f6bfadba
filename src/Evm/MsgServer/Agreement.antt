-- ===== src/Evm/MsgServer/Agreement.antt =====
-- What ProcessProposal accepts and what finalizing a block accepts.
use nexus_node.Common.{
  ℕ, ◌≡◌, refl, some, none, [], Result, Done, ok, err, Result-cases, Option-cases, false, ◌∷◌, inl,
  inr, is_empty, arith,
}
use mathlib.Core.Path.{subst}
use nexus_node.Common.Text.{Bytes}
use nexus_node.Engine.{
  Hash, Status, valid, syncing, ForkChoiceResponse, ExecutableData, EngineClient,
}
use nexus_node.Evm.State.{BlockState, KeeperError, bad_status, expired, Node}
use nexus_node.Evm.Retry.{GoContext, failed, retry}
use nexus_node.Evm.Retry.Errors.{retry-err}
use nexus_node.Evm.Keeper.{
  Keeper, ExecMode, finalize, process_proposal, SdkContext, MsgExecutionPayload, Libraries,
}
use nexus_node.Evm.Payload.{validate_payload, check_position}
use nexus_node.Evm.Inversion.{on_world-err}
use nexus_node.Evm.Payload.Laws.{validate_payload_iff}
use nexus_node.Evm.MsgServer.{
  SendError, judge_payload, judge_forkchoice, execution_payload, proposal_payload, send_payload,
  send_attempt, forkchoice_attempt, submit_payload, finalize_payload,
}
use nexus_node.Evm.MsgServer.Commit.{execution_payload-ok}

-- The errors that come from the engine or from the end of the context, not from validation.
abbrev pub FromEngine : KeeperError → Type 0
FromEngine (bad_status s) = Unit
FromEngine (expired m) = Unit
FromEngine _ = ⊥

from_status : (s : Status) (e : KeeperError) → failed (bad_status s) ≡ failed e → FromEngine e
from_status s e h = let q : bad_status s ≡ e = cc in subst FromEngine q tt

judge_payload-FromEngine :
    (r : Result SendError Status) (e : KeeperError) → judge_payload r ≡ failed e → FromEngine e
unfolding judge_payload
judge_payload-FromEngine (err x) e h = absurd (cc)
judge_payload-FromEngine (ok valid) e h = absurd (cc)
judge_payload-FromEngine (ok syncing) e h = absurd (cc)
judge_payload-FromEngine (ok s) e h = from_status s e h

judge_forkchoice-FromEngine :
    (r : Result Bytes ForkChoiceResponse) (e : KeeperError)
    → judge_forkchoice r ≡ failed e
    → FromEngine e
unfolding judge_forkchoice
judge_forkchoice-FromEngine (err m) e h = absurd (cc)
judge_forkchoice-FromEngine (ok r) e h = from_status r.payload_status e (ground arith)

pub validate_payload-mode :
    (k : Keeper) (x : Libraries) (c : SdkContext) (m : ExecMode) (msg : MsgExecutionPayload)
    (s : BlockState)
    → validate_payload k x (record c { exec_mode = m }) msg s ≡ validate_payload k x c msg s
unfolding validate_payload check_position
validate_payload-mode k x c m msg s = refl

empty_undecoded :
    (x : Libraries) (p : ExecutableData) (b : Bytes)
    → x.unmarshal_payload [] ≡ none
    → x.unmarshal_payload b ≡ some p
    → is_empty b ≡ false
empty_undecoded x p [] json got = absurd (cc)
empty_undecoded x p (y ∷ b) json got = refl

pub decoded_nonempty :
    (k : Keeper) (x : Libraries) (c : SdkContext) (msg : MsgExecutionPayload) (s : BlockState)
    (p : ExecutableData)
    → x.unmarshal_payload [] ≡ none
    → validate_payload k x c msg s ≡ ok p
    → is_empty msg.execution_payload ≡ false
decoded_nonempty k x c msg s p json good =
    empty_undecoded x p msg.execution_payload json ((validate_payload_iff k x c msg s p).0 good).1

module _ {World : Type 0} (k : Keeper) (x : Libraries) (client : EngineClient World)
    (c : SdkContext) (ctx : GoContext World) where
  send_attempt-FromEngine :
      (p : ExecutableData) (u : Done) (w : World) (e : KeeperError)
      → (send_attempt k x client c p u w).0 ≡ failed e
      → FromEngine e
  unfolding send_attempt
  send_attempt-FromEngine p u w e h = judge_payload-FromEngine (send_payload k x client c p w).0 e h

  forkchoice_attempt-FromEngine :
      (head : Hash) (u : Done) (w : World) (e : KeeperError)
      → (forkchoice_attempt k x client c head u w).0 ≡ failed e
      → FromEngine e
  unfolding forkchoice_attempt
  forkchoice_attempt-FromEngine head u w e h = judge_forkchoice-FromEngine _ e h

  finalize_payload-FromEngine :
      (fuel : ℕ) (p : ExecutableData) (n n' : Node World) (e : KeeperError)
      → finalize_payload k x client c ctx fuel p n ≡ some (err e, n')
      → FromEngine e
  unfolding finalize_payload
  finalize_payload-FromEngine fuel p n n' e h =
      retry-err ctx expired (forkchoice_attempt k x client c p.block_hash) FromEngine (λ m. tt)
        (forkchoice_attempt-FromEngine p.block_hash) fuel tt n.world e n'.world (ground arith)

  pub submit_payload-FromEngine :
      (fuel : ℕ) (p : ExecutableData) (n n' : Node World) (e : KeeperError)
      → submit_payload k x client c ctx fuel p n ≡ some (err e, n')
      → FromEngine e
  unfolding submit_payload
  submit_payload-FromEngine fuel p n n' e h =
      elim (on_world-err (retry ctx expired (send_attempt k x client c p) fuel tt)
        (λ u. finalize_payload k x client c ctx fuel p) n n' e h) [
          | inl (w, sent) ↦
              retry-err ctx expired (send_attempt k x client c p) FromEngine (λ m. tt)
                (send_attempt-FromEngine p) fuel tt n.world e w sent
          | inr (u, w, sent, rest) ↦
              finalize_payload-FromEngine fuel p (record n { world = w }) n' e rest
        ]

  -- What ProcessProposal accepts, finalizing the block at the same state and block context does not
  -- refuse: a run that fails fails by a status of the engine or by the end of the context. (The
  -- decoder refuses empty JSON, which ProcessProposal does not test for.)
  pub accepted-FromEngine :
      (fuel : ℕ) (msg : MsgExecutionPayload) (n n' : Node World) (e : KeeperError)
      → x.unmarshal_payload [] ≡ none
      → c.exec_mode ≡ finalize
      → proposal_payload k x (record c { exec_mode = process_proposal }) msg n ≡ some (ok tt, n)
      → execution_payload k x client c ctx fuel msg n ≡ some (err e, n')
      → FromEngine e
  unfolding proposal_payload execution_payload
  accepted-FromEngine fuel msg n n' e json mode h run = elim (Option-cases n.block_state) [
    | inl unset ↦ absurd (ground arith)
    | inr (s, at) ↦ elim (Result-cases (validate_payload k x c msg s)) [
      | inr (y, bad) ↦ absurd (ground (arith, validate_payload-mode k x c process_proposal msg s))
      | inl (p, good) ↦
          submit_payload-FromEngine fuel p n n' e
            (ground (arith, decoded_nonempty k x c msg s p json good))
    ]
  ]

  -- What finalizing a block commits, ProcessProposal accepts at the same state and block context.
  pub commit-accepted :
      (fuel : ℕ) (msg : MsgExecutionPayload) (n n' : Node World)
      → execution_payload k x client c ctx fuel msg n ≡ some (ok tt, n')
      → proposal_payload k x (record c { exec_mode = process_proposal }) msg n ≡ some (ok tt, n)
  unfolding proposal_payload
  commit-accepted fuel msg n n' h =
      let (state, p, w, before, accepts, sent, chosen, after) =
        execution_payload-ok k x client c ctx fuel msg n n' h in
      ground (arith, before, accepts, validate_payload-mode k x c process_proposal msg state)
