-- ===== src/Proposal.antt =====
-- cosmos/app/proposal.go: which transactions a block may hold, what the proposer puts into one, and
-- when a validator accepts one. The transaction codec, the engine's part of a proposal and the
-- message router are arguments.
pub mod Scan
pub mod Quorum
pub mod Roundtrip
mod Tests
use nexus_node.Common.{
  ℕ, suc, ◌+◌, ◌*◌, ◌/◌, Bool, true, false, not, Option, none, some, List, [], ◌∷◌, ◌++◌, Result,
  Done, ok, err, ◌>>=◌, ◌>>◌, fail_if, length, is_empty, is_some, String, str_eq, ◌==◌, leb, ltb,
  if◌then◌else◌,
}
use nexus_node.Common.Text.{Bytes, bytes_eq}
use nexus_node.Common.Words.{add64, mul64, slt64, sdiv64}
use nexus_node.Evm.State.{max_tx_size}
use nexus_node.Evm.Keeper.{MsgExecutionPayload}

-- `app.go`: `maxCosmosTxsPerBlock`
abbrev pub max_cosmos_txs_per_block : ℕ
max_cosmos_txs_per_block = 1

-- The messages by their Go type; `other` is any type that is not in `allowedMsgTypes`.
pub data Msg : Type 0 where
  execution_payload : MsgExecutionPayload → Msg
  submit_proposal vote vote_weighted deposit send software_upgrade cancel_upgrade : Msg
  other : String → Msg

-- What `validateTx` reads of a `signing.Tx`: `none` for signatures that do not decode, and the
-- number of signatures otherwise; whether fee and fee granter are not nil.
pub record StandardTx : Type 0 where
  pub signatures : Option ℕ
  pub memo : String
  pub has_fee : Bool
  pub fee_payer : Bytes
  pub has_fee_granter : Bool

-- `standard` is `none` for a transaction that is no `signing.Tx`.
pub record Tx : Type 0 where
  pub msgs : List Msg
  pub standard : Option StandardTx

pub data TxError : Type 0 where
  undecodable not_one_message not_permitted not_standard bad_signatures : TxError
  has_signatures has_memo has_fee wrong_fee_payer has_granter : TxError

-- `allowedMsgTypes`, and the execution payload.
allowed : Msg → Bool
allowed (other t) = false
allowed _ = true

unfoldable pub validate_msg_allowed : Tx → Result TxError Done
unfolding allowed
validate_msg_allowed tx = elim tx.msgs [
  | [] ↦ err not_one_message
  | m ∷ rest ↦ elim rest [
    | [] ↦ fail_if (not (allowed m)) not_permitted
    | m' ∷ rest' ↦ err not_one_message
  ]
]

-- The checks on an execution payload's transaction: nothing of a user's transaction is set.
check_standard : Bytes → Option StandardTx → Result TxError Done
check_standard module_account none = err not_standard
check_standard module_account (some t) = elim t.signatures [
  | none ↦ err bad_signatures
  | some count ↦ do
    fail_if (not (count == 0)) has_signatures
    fail_if (not (str_eq t.memo "")) has_memo
    fail_if t.has_fee has_fee
    fail_if (not (bytes_eq t.fee_payer module_account)) wrong_fee_payer
    fail_if t.has_fee_granter has_granter
]

unfoldable pub validate_tx : Bytes → Tx → Result TxError Done
unfolding check_standard
validate_tx module_account tx = elim tx.msgs [
  | [] ↦ err not_one_message
  | m ∷ rest ↦
      if is_empty rest then check_standard module_account tx.standard else err not_one_message
]

-- `tx.GetMsgs()[0].(*types.MsgExecutionPayload)`
unfoldable pub payload_of : Tx → Option MsgExecutionPayload
payload_of tx = elim tx.msgs [
  | [] ↦ none
  | m ∷ rest ↦ elim m [ execution_payload p ↦ some p | _ ↦ none ]
]

-- `tx` and `isEVM` of a `parsedTx`: the payload is there exactly when `isEVM` is set.
pub record ParsedTx : Type 0 where
  pub tx : Tx
  pub payload : Option MsgExecutionPayload

-- The codec of transactions, and the account of the evm module.
pub record TxCodec : Type 0 where
  pub decode : Bytes → Option Tx
  pub module_account : Bytes

classify : TxCodec → Tx → Result TxError ParsedTx
classify codec tx = do
  validate_msg_allowed tx
  if is_some (payload_of tx) then validate_tx codec.module_account tx else ok tt
  ok (record { tx = tx; payload = payload_of tx })

unfoldable pub parse_tx : TxCodec → Bytes → Result TxError ParsedTx
unfolding classify
parse_tx codec raw = elim (codec.decode raw) [
  | none ↦ err undecodable
  | some tx ↦ classify codec tx
]

-- `err != nil || parsed.isEVM` skips a transaction of the mempool.
unfoldable pub is_cosmos : TxCodec → Bytes → Bool
is_cosmos codec raw = elim (parse_tx codec raw) [ err e ↦ false | ok p ↦ not (is_some p.payload) ]

-- The loop of PrepareProposal over the mempool's transactions; `taken` is `len(cosmosTxs)`.
unfoldable pub collect : TxCodec → ℕ → ℕ → List Bytes → List Bytes
collect codec max_cosmos_txs taken [] = []
collect codec max_cosmos_txs taken (raw ∷ txs) =
    let keep = raw ∷ collect codec max_cosmos_txs (taken + 1) txs in
    let skip = collect codec max_cosmos_txs taken txs in
    if leb max_cosmos_txs taken then [] else if is_cosmos codec raw then keep else skip

-- `makePrepareProposalHandler`: the permitted transactions of the mempool first, then those of the
-- evm keeper, whose `PrepareProposal` is the argument `evm`.
unfoldable pub prepare_proposal_handler :
    {E : Type 0} → TxCodec → ℕ → ℕ → List Bytes → Result E (List Bytes) → Result E (List Bytes)
prepare_proposal_handler codec max_cosmos_txs height txs evm =
    let cosmos = collect codec max_cosmos_txs 0 txs in
    if height == 1 then ok [] else (evm >>= λ evm_txs. ok (cosmos ++ evm_txs))

-- A vote of the last commit: the validator's power as an int64, and whether the flag is "commit".
pub record Vote : Type 0 where
  pub power : ℕ
  pub committed : Bool

unfoldable pub total_power : ℕ → List Vote → ℕ
total_power acc [] = acc
total_power acc (v ∷ votes) = total_power (add64 acc v.power) votes

unfoldable pub voted_power : ℕ → List Vote → ℕ
voted_power acc [] = acc
voted_power acc (v ∷ votes) = voted_power (if v.committed then add64 acc v.power else acc) votes

-- `votedPower <= totalPower*2/3` rejects.
unfoldable pub has_quorum : List Vote → Bool
has_quorum votes = slt64 (sdiv64 (mul64 (total_power 0 votes) 2) 3) (voted_power 0 votes)

pub data Rejection (E : Type 0) : Type 0 where
  initial_block_not_empty no_transactions no_quorum too_large payload_not_last : Rejection E
  last_not_payload too_many_cosmos_txs no_handler : Rejection E
  malformed : TxError → Rejection E
  refused : E → Rejection E

-- The branches of the loop of ProcessProposal for one parsed transaction, where `rest` is what
-- comes of the transactions behind it.
place :
    {E : Type 0}
    → ℕ
    → ℕ
    → Bool
    → Option MsgExecutionPayload
    → Result (Rejection E) MsgExecutionPayload
    → Result (Rejection E) MsgExecutionPayload
place max_cosmos_txs count false (some msg) rest = err payload_not_last
place max_cosmos_txs count true (some msg) rest = ok msg
place max_cosmos_txs count true none rest = err last_not_payload
place max_cosmos_txs count false none rest =
    if ltb max_cosmos_txs (count + 1) then err too_many_cosmos_txs else rest

-- One round of the loop.
judge :
    {E : Type 0}
    → TxCodec
    → ℕ
    → ℕ
    → Bytes
    → Bool
    → Result (Rejection E) MsgExecutionPayload
    → Result (Rejection E) MsgExecutionPayload
unfolding place
judge codec max_cosmos_txs count raw is_last rest =
    if ltb max_tx_size (length raw) then err too_large else elim (parse_tx codec raw) [
      | err e ↦ err (malformed e)
      | ok p ↦ place max_cosmos_txs count is_last p.payload rest
    ]

-- The loop; `count` is `cosmosTxCount`. Only a block that is empty from the start, which is rejected
-- before, gets to the first clause.
unfoldable pub scan :
    {E : Type 0} → TxCodec → ℕ → ℕ → List Bytes → Result (Rejection E) MsgExecutionPayload
unfolding judge
scan codec max_cosmos_txs count [] = err no_transactions
scan codec max_cosmos_txs count (raw ∷ txs) =
    judge codec max_cosmos_txs count raw (is_empty txs) (scan codec max_cosmos_txs (count + 1) txs)

-- `router.Handler(evmMsg)` and its call.
handled :
    {E : Type 0}
    → Option (MsgExecutionPayload → Result E Done)
    → MsgExecutionPayload
    → Result (Rejection E) Done
handled none msg = err no_handler
handled (some handler) msg = elim (handler msg) [ ok u ↦ ok tt | err e ↦ err (refused e) ]

check_block :
    {E : Type 0}
    → TxCodec
    → ℕ
    → Option (MsgExecutionPayload → Result E Done)
    → List Vote
    → List Bytes
    → Result (Rejection E) Done
unfolding handled
check_block codec max_cosmos_txs handler votes txs = do
  fail_if (is_empty txs) no_transactions
  fail_if (not (has_quorum votes)) no_quorum
  msg ← scan codec max_cosmos_txs 0 txs
  handled handler msg

-- `makeProcessProposalHandler`: the result is the reason of a rejection, or acceptance.
unfoldable pub process_proposal_handler :
    {E : Type 0}
    → TxCodec
    → ℕ
    → Option (MsgExecutionPayload → Result E Done)
    → ℕ
    → List Vote
    → List Bytes
    → Result (Rejection E) Done
unfolding check_block
process_proposal_handler codec max_cosmos_txs handler height votes txs =
    if height == 1
    then fail_if (not (is_empty txs)) initial_block_not_empty
    else check_block codec max_cosmos_txs handler votes txs
