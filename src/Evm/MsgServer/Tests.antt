-- ===== src/Evm/MsgServer/Tests.antt =====
-- Runs of the message server on a small engine.
use nexus_node.Common.{
  Result, Done, ◌↔◌, ℕ, suc, ◌≤◌, ◌≡◌, refl, none, some, [], ◌∷◌, ok, err, arith,
}
use nexus_node.Engine.{ExecutableData, EngineClient, valid, invalid}
use nexus_node.ChainSpec.{is_prague_active, is_amsterdam_active}
use nexus_node.Evm.State.{BlockState, KeeperError, Node, bad_status}
use nexus_node.Evm.Timestamp.{calculate_timestamp}
use nexus_node.Evm.Retry.{retry, done}
use nexus_node.Evm.Retry.Runs.{Runs}
use nexus_node.Evm.Keeper.{SdkContext, Libraries, process_proposal, to_uint64}
use nexus_node.Evm.Payload.{validate_payload, check_fields, check_position}
use nexus_node.Evm.MsgServer.{
  execution_payload, proposal_payload, submit_payload, finalize_payload, send_attempt, send_payload,
  forkchoice_attempt, versioned_hashes, new_payload,
}
use nexus_node.Evm.Samples.{
  parent, child, keeper, context, libraries, message, engine, background, before, chosen,
}
use nexus_node.Evm.MsgServer.Commit.{head_of, execution_payload-err, Delivers, Delivers-grows}
use nexus_node.Evm.MsgServer.Live.{execution_payload-commits}
use nexus_node.Evm.MsgServer.Replicas.{
  next_state, accepted-iff-commits, execution_payload-refines, Delivery, Settles, replicas_agree,
}
use nexus_node.Evm.MsgServer.Blobs.{Unsendable, Unsendable-hangs}

-- The block state after the child.
abbrev committed : Node ℕ
committed = record before { block_state = some (head_of child); world = 2 }

-- An engine that finds every payload invalid.
abbrev refusing : EngineClient ℕ
refusing = record engine { new_payload_v4 = λ p hashes root w. (ok invalid, suc w) }

abbrev refused : Node ℕ
refused = record before { world = 1 }

-- No blob is in a transaction that does not decode.
abbrev garbled : ExecutableData
garbled = record child { transactions = (0 ∷ []) ∷ [] }

abbrev strict : Libraries
strict = record libraries { blob_hashes = λ tx. none; unmarshal_payload = λ b. some garbled }

child_valid : validate_payload keeper libraries context message parent ≡ ok child
unfolding validate_payload check_fields check_position calculate_timestamp to_uint64
child_valid = refl

child_commits :
    execution_payload keeper libraries engine context background 1 message before
    ≡ some (ok tt, committed)
unfolding execution_payload submit_payload finalize_payload send_attempt send_payload
    forkchoice_attempt retry validate_payload check_fields check_position calculate_timestamp
    to_uint64 versioned_hashes new_payload is_prague_active is_amsterdam_active
child_commits = refl

child_refused :
    execution_payload keeper libraries refusing context background 1 message before
    ≡ some (err (bad_status invalid), refused)
unfolding execution_payload submit_payload finalize_payload send_attempt send_payload
    forkchoice_attempt retry validate_payload check_fields check_position calculate_timestamp
    to_uint64 versioned_hashes new_payload is_prague_active is_amsterdam_active
child_refused = refl

garbled_valid : validate_payload keeper strict context message parent ≡ ok garbled
unfolding validate_payload check_fields check_position calculate_timestamp to_uint64
garbled_valid = refl

garbled_undecodable : versioned_hashes strict.blob_hashes garbled.transactions ≡ none
unfolding versioned_hashes
garbled_undecodable = refl

sent_child : send_attempt keeper libraries engine context child tt 0 ≡ (done, tt, 1)
unfolding send_attempt send_payload versioned_hashes new_payload is_prague_active
    is_amsterdam_active
sent_child = refl

chosen_child : forkchoice_attempt keeper libraries engine context 9 tt 1 ≡ (done, tt, 2)
unfolding forkchoice_attempt
chosen_child = refl

execution_payload-err_example : refused.block_state ≡ before.block_state
execution_payload-err_example =
    execution_payload-err keeper libraries refusing context background 1 message before refused
      child_refused

execution_payload-commits_example :
    (fuel : ℕ) × (execution_payload keeper libraries engine context background fuel message before
      ≡ some (ok tt, committed))
execution_payload-commits_example =
    execution_payload-commits keeper libraries engine context background message before parent child
      1 2 refl refl refl child_valid (Runs.finishes tt sent_child refl)
      (Runs.finishes tt chosen_child refl)

Delivers-grows_example :
    (last : BlockState) × (committed.block_state ≡ some last)
    × (last.height ≡ 6)
    × (101 ≤ last.timestamp)
Delivers-grows_example =
    Delivers-grows libraries engine before parent refl (omega arith)
      (Delivers.commit keeper context background 1 message (Delivers.start refl) child_commits refl)

abbrev accepting : SdkContext
accepting = record context { exec_mode = process_proposal }

abbrev succeeded : Result KeeperError Done
succeeded = ok tt

accepted-iff-commits_example :
    (proposal_payload {World = ℕ} keeper libraries accepting message before ≡ some (ok tt, before))
    ↔ (succeeded ≡ ok tt)
accepted-iff-commits_example =
    accepted-iff-commits keeper libraries engine context background 1 message before committed
      (ok tt) refl refl child_commits tt

execution_payload-refines_example :
    committed.block_state ≡ next_state keeper libraries context message before.block_state
execution_payload-refines_example =
    execution_payload-refines keeper libraries engine context background 1 message before committed
      (ok tt) child_commits tt

abbrev delivered : Delivery
delivered = record { context = context; message = message }

child-Settles : Settles keeper libraries engine (delivered ∷ []) before committed
child-Settles = (committed, background, 1, ok tt, child_commits, tt, refl)

-- An engine that answers as the other does, in a world that counts by two.
abbrev twice : EngineClient ℕ
twice = record engine {
  new_payload_v4 = λ p hashes root w. (ok valid, suc (suc w));
  forkchoice_updated_v3 = λ update attributes w. (ok chosen, suc (suc w));
}

abbrev committed_twice : Node ℕ
committed_twice = record before { block_state = some (head_of child); world = 4 }

child_commits_twice :
    execution_payload keeper libraries twice context background 2 message before
    ≡ some (ok tt, committed_twice)
unfolding execution_payload submit_payload finalize_payload send_attempt send_payload
    forkchoice_attempt retry validate_payload check_fields check_position calculate_timestamp
    to_uint64 versioned_hashes new_payload is_prague_active is_amsterdam_active
child_commits_twice = refl

replicas_agree_example : committed.block_state ≡ committed_twice.block_state
replicas_agree_example =
    replicas_agree keeper keeper libraries engine twice (delivered ∷ []) before committed before
      committed_twice refl refl child-Settles
      (committed_twice, background, 2, ok tt, child_commits_twice, tt, refl)

Unsendable-hangs_example :
    (proposal_payload {World = ℕ} keeper strict context message before ≡ some (ok tt, before))
    × ((fuel : ℕ)
        → execution_payload keeper strict engine context background fuel message before ≡ none)
Unsendable-hangs_example =
    Unsendable-hangs keeper strict engine context background message before parent garbled refl refl
      refl garbled_valid (Unsendable.undecodable garbled_undecodable) (λ w. refl)
