-- ===== src/Evm/Prepare/Tests.antt =====
-- Runs of PrepareProposal on a small engine.
use nexus_node.Common.{ℕ, suc, ◌≡◌, ◌⊎◌, refl, true, none, some, List, [], ◌∷◌, ok, err}
use nexus_node.Common.Text.{Bytes, codes, contains, to_lower, has_prefix}
use nexus_node.ChainSpec.{get_payload_engine_rpc_version, is_prague_active, is_osaka_active}
use nexus_node.Engine.{EngineClient, RpcClient, ForkChoiceResponse, auth_client, valid, syncing}
use nexus_node.Evm.State.{Node, expired, still_unknown}
use nexus_node.Evm.Timestamp.{calculate_timestamp}
use nexus_node.Evm.Retry.{retry}
use nexus_node.Evm.Keeper.{to_uint64}
use nexus_node.Evm.Prepare.{
  note_version, is_payload_unknown, get_payload, build_execution_payload, build_attempt,
  poll_attempt, poll, build, propose, prepare, prepare_proposal, wrap_payload,
}
use nexus_node.Evm.Prepare.Proposal.{Proposes, prepare_proposal-ok}
use nexus_node.Evm.Prepare.Outcome.{LogChained, prepare_proposal-keeps}
use nexus_node.Evm.Prepare.Polling.{polling-gives_up}
use nexus_node.Evm.Prepare.Routing.{get_payload_of, unknown-recognised}
use nexus_node.Evm.Samples.{keeper, context, libraries, engine, background, before}

abbrev proposed : Node ℕ
proposed = record before {
  last_logged_rpc_version = 4;
  rpc_version_changes = (0, 4) ∷ [];
  world = 2;
}

child_prepared :
    prepare_proposal keeper libraries engine context background 1 6 before
    ≡ some (ok ((b'T' ∷ []) ∷ []), proposed)
unfolding prepare_proposal prepare propose build poll build_attempt build_execution_payload
    poll_attempt get_payload wrap_payload note_version retry calculate_timestamp to_uint64
    get_payload_engine_rpc_version is_prague_active is_osaka_active
child_prepared = refl

abbrev wrapped_child : List Bytes
wrapped_child = (b'T' ∷ []) ∷ []

abbrev requested : ℕ
requested = 6

prepare_proposal-ok_example :
    ((requested ≡ 1) × (wrapped_child ≡ []))
    ⊎ Proposes keeper libraries engine context background 1 before ((b'T' ∷ []) ∷ [])
prepare_proposal-ok_example =
    prepare_proposal-ok keeper libraries engine context background 1 6 before proposed
      ((b'T' ∷ []) ∷ []) child_prepared

prepare_proposal-keeps_test : (proposed.block_state ≡ before.block_state) × LogChained proposed
prepare_proposal-keeps_test =
    prepare_proposal-keeps keeper libraries engine context background 1 6 before proposed
      child_prepared refl

-- An engine that forgets every payload.
abbrev forgetful : EngineClient ℕ
forgetful = record engine { get_payload_v4 = λ id w. (err (codes "Unknown payload"), w) }

forgotten :
    (w : ℕ)
    → get_payload keeper libraries forgetful context 101 3 w ≡ (err (codes "Unknown payload"), w)
unfolding get_payload is_prague_active is_osaka_active
forgotten w = refl

unknown_text : is_payload_unknown libraries (codes "Unknown payload") ≡ true
unfolding is_payload_unknown contains to_lower has_prefix
unknown_text = refl

polling-gives_up_example :
    (v : ℕ) × (retry background expired
        (poll_attempt keeper libraries forgetful context 101 3)
        500
        (0, none)
        0
      ≡ some (err still_unknown, v))
    × (retry background expired
          (poll_attempt keeper libraries forgetful context 101 3)
          499
          (0, none)
          0
        ≡ none)
polling-gives_up_example =
    polling-gives_up keeper libraries forgetful context background 101 3 0
      (λ w. (codes "Unknown payload", w, forgotten w, unknown_text)) (λ w. refl)

-- A connection to an engine that does not know the payload.
abbrev connection : RpcClient ℕ
connection = record {
  call_new_payload = λ method p hashes root requests w. (ok valid, w);
  call_forkchoice = λ method update attributes w.
      (ok (record { payload_status = syncing; payload_id = none }), w);
  call_get_payload = λ method id w.
      (err (record { message = codes "-38001: Unknown payload"; response = codes "nil" }), suc w);
}

abbrev show : ForkChoiceResponse → Bytes
show r = []

unknown-recognised_test :
    (text : Bytes) × (get_payload_of (auth_client connection show) 4 3 0 ≡ (err text, 1))
    × (is_payload_unknown libraries text ≡ true)
unknown-recognised_test =
    unknown-recognised libraries connection show 4 3 0 1 (codes "-38001: ") [] (codes "nil") refl
