-- ===== src/Proposal/Roundtrip.antt =====
-- What the proposer builds against what a validator accepts.
use nexus_node.Common.{
  ℕ, ◌+◌, ◌≤◌, ◌<◌, ◌≡◌, ◌≢◌, ◌↔◌, refl, ◌∙◌, ap, inl, inr, true, false, some, List, [], ◌∷◌, ◌++◌,
  All, Result, Done, ok, err, length, is_empty, leb, Bool-cases, Result-cases, arith,
}
use nexus_node.Common.Text.{Bytes}
use nexus_node.Evm.State.{max_tx_size}
use nexus_node.Evm.Keeper.{MsgExecutionPayload}
use nexus_node.Proposal.{
  TxCodec, Vote, too_large, is_cosmos, collect, prepare_proposal_handler, scan, has_quorum,
  check_block, process_proposal_handler, judge,
}
use nexus_node.Proposal.Scan.{IsCosmosTx, IsPayloadTx, IsBlock, scan-iff-IsBlock}

is_empty-append : (cosmos : List Bytes) (last : Bytes) → is_empty (cosmos ++ (last ∷ [])) ≡ false
is_empty-append [] last = refl
is_empty-append (raw ∷ cosmos) last = refl

IsBlock-not_empty :
    {codec : TxCodec} {max : ℕ} {txs : List Bytes} {msg : MsgExecutionPayload}
    → IsBlock codec max txs msg
    → is_empty txs ≡ false
IsBlock-not_empty (IsBlock.block cosmos last e all bound carries) =
    ap is_empty e ∙ is_empty-append cosmos last

module _ {E : Type 0} (codec : TxCodec) (max_cosmos_txs : ℕ)
    (handler : MsgExecutionPayload → Result E Done) (votes : List Vote) where
  check_block-ok :
      (txs : List Bytes) (msg : MsgExecutionPayload)
      → is_empty txs ≡ false
      → has_quorum votes ≡ true
      → scan {E = E} codec max_cosmos_txs 0 txs ≡ ok msg
      → handler msg ≡ ok tt
      → check_block codec max_cosmos_txs (some handler) votes txs ≡ ok tt
  unfolding check_block
  check_block-ok txs msg full quorum scanned accepted = ground arith

  check_block-inv :
      (txs : List Bytes)
      → check_block codec max_cosmos_txs (some handler) votes txs ≡ ok tt
      → (has_quorum votes ≡ true)
        × ((msg : MsgExecutionPayload) × (scan {E = E} codec max_cosmos_txs 0 txs ≡ ok msg)
            × (handler msg ≡ ok tt))
  unfolding check_block
  check_block-inv txs h = elim (Result-cases (scan {E = E} codec max_cosmos_txs 0 txs)) [
    | inr (e, bad) ↦ absurd (ground arith)
    | inl (msg, good) ↦ elim (Result-cases (handler msg)) [
      | inr (e, bad) ↦ absurd (ground arith)
      | inl (u, fine) ↦ (ground arith, (msg, good, ground arith))
    ]
  ]

  accepted_initial :
      (height : ℕ) (txs : List Bytes)
      → height ≡ 1
      → process_proposal_handler codec max_cosmos_txs (some handler) height votes txs ≡ ok tt
      → txs ≡ []
  unfolding process_proposal_handler
  accepted_initial height [] first h = refl
  accepted_initial height (raw ∷ txs) first h = absurd (ground arith)

  initial_accepted :
      (height : ℕ) (txs : List Bytes)
      → height ≡ 1
      → txs ≡ []
      → process_proposal_handler codec max_cosmos_txs (some handler) height votes txs ≡ ok tt
  unfolding process_proposal_handler
  initial_accepted height [] first e = ground arith
  initial_accepted height (raw ∷ txs) first e = absurd (cc)

  accepted_later :
      (height : ℕ) (txs : List Bytes)
      → height ≢ 1
      → process_proposal_handler codec max_cosmos_txs (some handler) height votes txs ≡ ok tt
      → (has_quorum votes ≡ true)
        × ((msg : MsgExecutionPayload) × IsBlock codec max_cosmos_txs txs msg
            × (handler msg ≡ ok tt))
  unfolding process_proposal_handler
  accepted_later height txs later h =
      let (quorum, (msg, scanned, fine)) = check_block-inv txs (ground arith) in
      (quorum, (msg, (scan-iff-IsBlock codec {E = E} max_cosmos_txs msg txs).0 scanned, fine))

  later_accepted :
      (height : ℕ) (txs : List Bytes)
      → height ≢ 1
      → (has_quorum votes ≡ true)
        × ((msg : MsgExecutionPayload) × IsBlock codec max_cosmos_txs txs msg
            × (handler msg ≡ ok tt))
      → process_proposal_handler codec max_cosmos_txs (some handler) height votes txs ≡ ok tt
  unfolding process_proposal_handler
  later_accepted height txs later (quorum, (msg, shape, fine)) =
      let done =
        check_block-ok txs msg (IsBlock-not_empty shape) quorum
          ((scan-iff-IsBlock codec {E = E} max_cosmos_txs msg txs).1 shape) fine in
      ground arith

  -- After height 1 a proposal is accepted exactly when the last commit has a quorum, the block has
  -- the permitted shape, and the handler accepts the execution payload in it. At height 1 it is
  -- accepted exactly when it is empty.
  pub process_proposal_iff :
      (height : ℕ) (txs : List Bytes)
      → ((height ≡ 1)
          → (process_proposal_handler codec max_cosmos_txs (some handler) height votes txs ≡ ok tt)
            ↔ (txs ≡ []))
        × ((height ≢ 1)
            → (process_proposal_handler codec max_cosmos_txs (some handler) height votes txs
                ≡ ok tt)
              ↔ ((has_quorum votes ≡ true)
                  × ((msg : MsgExecutionPayload) × IsBlock codec max_cosmos_txs txs msg
                      × (handler msg ≡ ok tt))))
  process_proposal_iff height txs = (
    (λ first.
        ((λ h. accepted_initial height txs first h), (λ e. initial_accepted height txs first e))),
    (λ later. ((λ h. accepted_later height txs later h), (λ b. later_accepted height txs later b))),
  )

  collect-keeps :
      (taken : ℕ) (txs : List Bytes)
      → taken ≤ max_cosmos_txs
      → All (λ raw. length raw ≤ max_tx_size) txs
      → All (IsCosmosTx codec) (collect codec max_cosmos_txs taken txs)
        × (taken + length (collect codec max_cosmos_txs taken txs) ≤ max_cosmos_txs)
  unfolding collect
  collect-keeps taken [] room small = (tt, omega arith)
  collect-keeps taken (raw ∷ txs) room small = elim (Bool-cases (leb max_cosmos_txs taken)) [
    | inl full ↦ rw full (tt, omega arith)
    | inr free ↦ elim (Bool-cases (is_cosmos codec raw)) [
      | inl mine ↦
          let (all, bound) = collect-keeps (taken + 1) txs (ground arith) small.1 in
          rw (free, mine) (((small.0, mine), all), omega arith)
      | inr skip ↦
          let (all, bound) = collect-keeps taken txs room small.1 in rw (free, skip) (all, bound)
    ]
  ]

  -- The block of PrepareProposal has the permitted shape.
  pub prepared-IsBlock :
      (height : ℕ) (mempool block : List Bytes) (tx : Bytes) (msg : MsgExecutionPayload)
      → height ≢ 1
      → All (λ raw. length raw ≤ max_tx_size) mempool
      → IsPayloadTx codec msg tx
      → prepare_proposal_handler {E = E} codec max_cosmos_txs height mempool (ok (tx ∷ []))
        ≡ ok block
      → IsBlock codec max_cosmos_txs block msg
  unfolding prepare_proposal_handler
  prepared-IsBlock height mempool txs tx msg later small carries built =
      let (all, bound) = collect-keeps 0 mempool (omega arith) small in
      let shape : txs ≡ collect codec max_cosmos_txs 0 mempool ++ (tx ∷ []) = ground arith in
      IsBlock.block (collect codec max_cosmos_txs 0 mempool) tx shape all (omega arith) carries

  -- What an honest proposer builds is accepted: when no transaction of the mempool is longer than
  -- `MaxTxSize`, the evm keeper prepared one transaction with a payload, the last commit has a quorum
  -- and the handler accepts the payload, a validator accepts the block of PrepareProposal.
  pub prepared-accepted :
      (height : ℕ) (mempool block : List Bytes) (tx : Bytes) (msg : MsgExecutionPayload)
      → height ≢ 1
      → All (λ raw. length raw ≤ max_tx_size) mempool
      → IsPayloadTx codec msg tx
      → prepare_proposal_handler {E = E} codec max_cosmos_txs height mempool (ok (tx ∷ []))
        ≡ ok block
      → has_quorum votes ≡ true
      → handler msg ≡ ok tt
      → process_proposal_handler codec max_cosmos_txs (some handler) height votes block ≡ ok tt
  prepared-accepted height mempool txs tx msg later small carries built quorum fine =
      let shape = prepared-IsBlock height mempool txs tx msg later small carries built in
      ((process_proposal_iff height txs).1 later).1 (quorum, (msg, shape, fine))

  -- PrepareProposal puts no bound on the length of a user's transaction, and ProcessProposal does: when
  -- the mempool starts with a permitted transaction longer than `MaxTxSize`, a node rejects the block
  -- that it prepared itself, whatever the evm keeper adds.
  pub oversized-rejected :
      (height : ℕ) (raw : Bytes) (mempool evm_txs block : List Bytes)
      → height ≢ 1
      → 0 < max_cosmos_txs
      → is_cosmos codec raw ≡ true
      → max_tx_size < length raw
      → prepare_proposal_handler {E = E} codec max_cosmos_txs height (raw ∷ mempool) (ok evm_txs)
        ≡ ok block
      → has_quorum votes ≡ true
      → process_proposal_handler codec max_cosmos_txs (some handler) height votes block
        ≡ err too_large
  unfolding prepare_proposal_handler collect process_proposal_handler check_block scan judge
  oversized-rejected height raw mempool evm_txs txs later room mine long built quorum =
      let shape : txs ≡ raw ∷ (collect codec max_cosmos_txs 1 mempool ++ evm_txs) = ground arith in
      ground arith
