-- ===== src/Evm/Prepare/Proposal.antt =====
-- The transaction that PrepareProposal proposes, traced back to the engine's answers.
use nexus_node.Common.{
  ℕ, ◌≤◌, ◌≡◌, ◌⊎◌, inl, inr, refl, Bool, true, false, Option, none, some, List, [], ◌∷◌, length,
  ok, Done, ◌==◌, Option-cases, ==_iff, arith,
}
use nexus_node.Common.Text.{Bytes}
use mathlib.Core.Path.{subst}
use nexus_node.Engine.{ExecutableData, EngineClient, ForkChoiceResponse, valid}
use nexus_node.Evm.State.{
  BlockState, expired, max_tx_size, Node, ◌>>=◌, ◌>>◌, get_block_state, on_world,
}
use nexus_node.Evm.Timestamp.{calculate_timestamp}
use nexus_node.Evm.Retry.{GoContext, retry}
use nexus_node.Evm.Retry.Runs.{retry-iff-Runs}
use nexus_node.Evm.Prepare.Obtains.{Obtains, build_call, poll_call, build-Obtains, poll-Obtains}
use nexus_node.Evm.Inversion.{on_world-ok, lift-ok, get_block_state-ok}
use nexus_node.Evm.Keeper.{Keeper, SdkContext, MsgExecutionPayload, Libraries, to_uint64}
use nexus_node.Evm.Prepare.{
  note_version, wrap_payload, encoded, poll, build, propose, prepare, prepare_proposal,
  poll_attempt, build_attempt, delay,
}

module _ {World : Type 0} (k : Keeper) (x : Libraries) (client : EngineClient World)
    (c : SdkContext) (ctx : GoContext World) (fuel : ℕ) where
  -- The message of the evm module around a payload's JSON.
  abbrev pub message_of : Bytes → MsgExecutionPayload
  message_of json = record { authority = x.module_address; execution_payload = json }

  -- The committed state is read. At the time that it calls for, the engine answers a forkchoice update
  -- whose three heads are the committed block, with that time, the committed hash as randomness, the
  -- keeper's fee recipient, no withdrawals and the application hash as the beacon root: it is VALID, and
  -- has an id. Then 100 ms pass, and in the world after them the engine is asked for the payload of this
  -- id, in the version for the time, until it gives one. The transactions are one, no longer than
  -- `MaxTxSize`: the encoded message around the payload's JSON.
  pub data Proposes (n : Node World) (txs : List Bytes) : Type 0 where
    proposes :
        (state : BlockState) (height id : ℕ) (a : ForkChoiceResponse) (p : ExecutableData)
        (json tx : Bytes) (w1 w2 w3 : World)
        → n.block_state ≡ some state
        → to_uint64 c.height ≡ ok height
        → Obtains ctx (build_call k client c state height) a w1 n.world
        → a.payload_status ≡ valid
        → a.payload_id ≡ some id
        → ctx.wait 100 w1 ≡ (none, w2)
        → Obtains ctx
            (poll_call k client c
              (calculate_timestamp k.clock c.block_unix height state.timestamp)
              id)
            p
            w3
            w2
        → x.marshal_payload p ≡ some json
        → x.encode_tx (message_of json) ≡ some tx
        → length tx ≤ max_tx_size
        → txs ≡ tx ∷ []
        → Proposes n txs

  waited-on :
      (w v : World) (u : Done)
      → delay k x client c ctx fuel w ≡ some (ok u, v)
      → ctx.wait 100 w ≡ (none, v)
  unfolding delay
  waited-on w v u h = elim (Option-cases (ctx.wait 100 w).0) [
    | inl passed ↦ ground (arith, passed)
    | inr (m, over) ↦ absurd (ground (arith, over))
  ]

  wrap_payload-ok :
      (o : Option ExecutableData) (n n' : Node World) (txs : List Bytes)
      → wrap_payload k x client c o n ≡ some (ok txs, n')
      → (p : ExecutableData) × (json : Bytes) × (tx : Bytes) × (o ≡ some p)
        × (x.marshal_payload p ≡ some json)
        × (x.encode_tx (message_of json) ≡ some tx)
        × (length tx ≤ max_tx_size)
        × (txs ≡ tx ∷ [])
  unfolding wrap_payload encoded
  wrap_payload-ok none n n' txs h = absurd (cc)
  wrap_payload-ok (some p) n n' txs h = elim (Option-cases (x.marshal_payload p)) [
    | inl unmarshalled ↦ absurd (ground arith)
    | inr (json, j) ↦ elim (Option-cases (x.encode_tx (message_of json))) [
      | inl unencoded ↦ absurd (ground arith)
      | inr (tx, t) ↦ (p, json, tx, refl, j, t, ground arith, ground arith)
    ]
  ]

  build-ok :
      (state : BlockState) (height : ℕ) (n n' : Node World) (txs : List Bytes)
      → n.block_state ≡ some state
      → to_uint64 c.height ≡ ok height
      → (m : Node World) → m.world ≡ n.world
      → build k x client c ctx fuel
          (some state)
          height
          (calculate_timestamp k.clock c.block_unix height state.timestamp)
          m
        ≡ some (ok txs, n')
      → Proposes n txs
  unfolding build poll
  build-ok state height n n' txs s e m same h =
      let t = calculate_timestamp k.clock c.block_unix height state.timestamp in
      let (id, w1, built, h1) =
        on_world-ok (retry ctx expired (build_attempt k x client c (some state) height) fuel 0)
          (λ id. on_world (delay k x client c ctx fuel) >> poll k x client c ctx fuel t id) m n' txs
          h in
      let (u, w2, waited, h2) =
        on_world-ok (delay k x client c ctx fuel) (λ u. poll k x client c ctx fuel t id)
          (record m { world = w1 }) n' txs h1 in
      let (captured, w3, polled, h3) =
        on_world-ok (retry ctx expired (poll_attempt k x client c t id) fuel (0, none))
          (λ captured. wrap_payload k x client c captured.1) (record m { world = w2 }) n' txs h2 in
      let (p, json, tx, got, j, enc, small, one) =
        wrap_payload-ok captured.1 (record m { world = w3 }) n' txs h3 in
      let (a, asked, good, given) = build-Obtains k x client c ctx state height id (
        (retry-iff-Runs ctx expired (build_attempt k x client c (some state) height) 0 m.world
            (ok id) w1).0
          (fuel, built)) in
      let found = poll-Obtains k x client c ctx t id p captured.0 (
        (retry-iff-Runs ctx expired (poll_attempt k x client c t id) (0, none) w2
            (ok (captured.0, some p)) w3).0
          (fuel, ground (arith, polled, got))) in
      Proposes.proposes state height id a p json tx w1 w2 w3 s e
        (subst (Obtains ctx (build_call k client c state height) a w1) same asked) good given
        (waited-on w1 w2 u waited) found j enc small one

  prepare-ok :
      (first : Bool) (n n' : Node World) (txs : List Bytes)
      → prepare k x client c ctx fuel first n ≡ some (ok txs, n')
      → ((first ≡ true) × (txs ≡ [])) ⊎ Proposes n txs
  unfolding prepare propose note_version
  prepare-ok true n n' txs h = inl (refl, ground arith)
  prepare-ok false n n' txs h =
      let (height, e, h1) =
        lift-ok (to_uint64 c.height)
          (λ height. get_block_state >>= propose k x client c ctx fuel height) n n' txs h in
      let (state, s, h2) = get_block_state-ok (propose k x client c ctx fuel height) n n' txs h1 in
      inr (build-ok state height n n' txs s e _ refl h2)

  -- A proposal that PrepareProposal returns is empty, and then the request was for height 1, or it is
  -- one transaction no longer than `MaxTxSize`: the encoded message of the evm module around a payload
  -- that the engine gave. The engine was first asked to build it: it answered VALID, with an id, to a
  -- forkchoice update whose heads are the committed block and whose attributes have the timestamp for
  -- the committed state, the committed hash, the keeper's fee recipient, no withdrawals and the
  -- application hash. Then the build delay of 100 ms passed, and the payload is the answer to getPayload
  -- for this id, in the version for this timestamp. Both calls are made anew only after an error of
  -- the engine, 10 ms later, while the context is not over.
  pub prepare_proposal-ok :
      (req_height : ℕ) (n n' : Node World) (txs : List Bytes)
      → prepare_proposal k x client c ctx fuel req_height n ≡ some (ok txs, n')
      → ((req_height ≡ 1) × (txs ≡ [])) ⊎ Proposes n txs
  unfolding prepare_proposal
  prepare_proposal-ok req_height n n' txs h = elim (prepare-ok (req_height == 1) n n' txs h) [
    | inl (first, empty) ↦ inl ((==_iff req_height 1).0 first, empty)
    | inr proposal ↦ inr proposal
  ]
