-- ===== src/Proposal/Scan.antt =====
-- The shape of a block that the loop of ProcessProposal lets through.
use nexus_node.Common.{
  ℕ, ◌+◌, ◌≤◌, ◌≡◌, ◌↔◌, refl, ◌∙◌, ap, inl, inr, true, false, some, List, [], ◌∷◌, ◌++◌, All,
  Result, ok, err, length, Result-cases, arith,
}
use nexus_node.Common.Text.{Bytes}
use nexus_node.Evm.State.{max_tx_size}
use nexus_node.Evm.Keeper.{MsgExecutionPayload}
use nexus_node.Proposal.{
  TxCodec, ParsedTx, Rejection, parse_tx, is_cosmos, scan, judge, no_transactions,
}

module _ (codec : TxCodec) where
  -- A transaction of a user that may stand in a block.
  abbrev pub IsCosmosTx : Bytes → Type 0
  IsCosmosTx raw = (length raw ≤ max_tx_size) × (is_cosmos codec raw ≡ true)

  -- The transaction that carries an execution payload.
  abbrev pub IsPayloadTx : MsgExecutionPayload → Bytes → Type 0
  IsPayloadTx msg raw =
      (length raw ≤ max_tx_size)
      × ((p : ParsedTx) × (parse_tx codec raw ≡ ok p) × (p.payload ≡ some msg))

  -- At most so many transactions of users, and then one with the execution payload.
  pub data IsBlock (max_cosmos_txs : ℕ) (txs : List Bytes) (msg : MsgExecutionPayload)
      : Type 0 where
    block :
        (cosmos : List Bytes) (last : Bytes)
        → txs ≡ cosmos ++ (last ∷ [])
        → All IsCosmosTx cosmos
        → length cosmos ≤ max_cosmos_txs
        → IsPayloadTx msg last
        → IsBlock max_cosmos_txs txs msg

  module _ {E : Type 0} (max_cosmos_txs : ℕ) (msg : MsgExecutionPayload) (count : ℕ) (raw : Bytes)
      (rest : Result (Rejection E) MsgExecutionPayload) where
    judge-last_sound : judge codec max_cosmos_txs count raw true rest ≡ ok msg → IsPayloadTx msg raw
    unfolding judge
    judge-last_sound h = elim (Result-cases (parse_tx codec raw)) [
      | inr (e, bad) ↦ absurd (ground arith)
      | inl (p, good) ↦ (ground arith, (p, good, ground arith))
    ]

    judge-last_complete :
        IsPayloadTx msg raw → judge codec max_cosmos_txs count raw true rest ≡ ok msg
    unfolding judge
    judge-last_complete (small, (p, good, carries)) = ground arith

    judge-first_sound :
        judge codec max_cosmos_txs count raw false rest ≡ ok msg
        → IsCosmosTx raw × (count + 1 ≤ max_cosmos_txs) × (rest ≡ ok msg)
    unfolding judge is_cosmos
    judge-first_sound h = elim (Result-cases (parse_tx codec raw)) [
      | inr (e, bad) ↦ absurd (ground arith)
      | inl (p, good) ↦ ((ground arith, ground arith), ground arith, ground arith)
    ]

    judge-first_complete :
        IsCosmosTx raw
        → count + 1 ≤ max_cosmos_txs
        → judge codec max_cosmos_txs count raw false rest ≡ rest
    unfolding judge is_cosmos
    judge-first_complete (small, mine) fits = elim (Result-cases (parse_tx codec raw)) [
      | inr (e, bad) ↦ absurd (ground arith)
      | inl (p, good) ↦ ground arith
    ]

  module _ {E : Type 0} (max_cosmos_txs : ℕ) (msg : MsgExecutionPayload) where
    scan_sound :
        (count : ℕ) (txs : List Bytes)
        → count ≤ max_cosmos_txs
        → scan {E = E} codec max_cosmos_txs count txs ≡ ok msg
        → (cosmos : List Bytes) × (last : Bytes) × (txs ≡ cosmos ++ (last ∷ []))
          × All IsCosmosTx cosmos
          × (count + length cosmos ≤ max_cosmos_txs)
          × IsPayloadTx msg last
    unfolding scan
    scan_sound count [] fits h = absurd (cc)
    scan_sound count (raw ∷ []) fits h = (
      [],
      raw,
      refl,
      tt,
      omega arith,
      judge-last_sound max_cosmos_txs msg count raw (err no_transactions) h,
    )
    scan_sound count (raw ∷ next ∷ txs) fits h =
        let (mine, room, more) =
          judge-first_sound max_cosmos_txs msg count raw
            (scan codec max_cosmos_txs (count + 1) (next ∷ txs)) h in
        let (cosmos, last, e, all, bound, carries) =
          scan_sound (count + 1) (next ∷ txs) room more in
        (raw ∷ cosmos, last, ap (λ t. raw ∷ t) e, (mine, all), omega arith, carries)

    scan_complete :
        (count : ℕ) (cosmos : List Bytes) (last : Bytes)
        → All IsCosmosTx cosmos
        → count + length cosmos ≤ max_cosmos_txs
        → IsPayloadTx msg last
        → scan {E = E} codec max_cosmos_txs count (cosmos ++ (last ∷ [])) ≡ ok msg
    unfolding scan
    scan_complete count [] last all bound carries =
        judge-last_complete max_cosmos_txs msg count last (err no_transactions) carries
    scan_complete count (raw ∷ []) last all bound carries =
        judge-first_complete max_cosmos_txs msg count raw
          (scan codec max_cosmos_txs (count + 1) (last ∷ [])) all.0 (omega arith)
        ∙ scan_complete (count + 1) [] last tt (omega arith) carries
    scan_complete count (raw ∷ next ∷ cosmos) last all bound carries =
        judge-first_complete max_cosmos_txs msg count raw
          (scan codec max_cosmos_txs (count + 1) ((next ∷ cosmos) ++ (last ∷ []))) all.0
          (omega arith)
        ∙ scan_complete (count + 1) (next ∷ cosmos) last all.1 (omega arith) carries

    -- The loop of ProcessProposal ends with a message exactly when the block is at most the permitted
    -- number of users' transactions, each permitted and none longer than `MaxTxSize`, followed by one
    -- transaction with that execution payload.
    pub scan-iff-IsBlock :
        (txs : List Bytes)
        → (scan {E = E} codec max_cosmos_txs 0 txs ≡ ok msg) ↔ IsBlock max_cosmos_txs txs msg
    scan-iff-IsBlock txs = (
      (λ h.
          let (cosmos, last, e, all, bound, carries) = scan_sound 0 txs (omega arith) h in
          IsBlock.block cosmos last e all (omega arith) carries),
      (λ b. IsBlock-scan txs b),
    )
      where
        IsBlock-scan :
            (ts : List Bytes)
            → IsBlock max_cosmos_txs ts msg
            → scan {E = E} codec max_cosmos_txs 0 ts ≡ ok msg
        IsBlock-scan ts (IsBlock.block cosmos last e all bound carries) =
            ap (scan codec max_cosmos_txs 0) e
            ∙ scan_complete 0 cosmos last all (omega arith) carries
