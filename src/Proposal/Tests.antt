-- ===== src/Proposal/Tests.antt =====
-- Blocks of a small codec: a transaction that starts with 'T' is the payload's, one that starts with
-- 'S' a transfer.
use nexus_node.Common.{
  ℕ, ◌*◌, ◌^◌, ◌<◌, ◌≡◌, ◌≢◌, ◌↔◌, refl, true, false, Option, none, some, List, [], ◌∷◌, Result,
  Done, ok, ◌==◌, arith, if◌then◌else◌,
}
use nexus_node.Common.Text.{Bytes, bytes_eq}
use nexus_node.Evm.Keeper.{MsgExecutionPayload}
use nexus_node.Proposal.{
  TxCodec, Tx, Msg, StandardTx, Vote, parse_tx, is_cosmos, collect, has_quorum, total_power,
  voted_power, prepare_proposal_handler, process_proposal_handler, validate_msg_allowed,
  validate_tx, payload_of,
}
use nexus_node.Proposal.Scan.{IsBlock}
use nexus_node.Proposal.Quorum.{power_sum, committed_sum, has_quorum_iff}
use nexus_node.Proposal.Roundtrip.{process_proposal_iff}

abbrev payload : MsgExecutionPayload
payload = record { authority = "evm"; execution_payload = b'J' ∷ [] }

abbrev bare : StandardTx
bare = record {
  signatures = some 0;
  memo = "";
  has_fee = false;
  fee_payer = 1 ∷ [];
  has_fee_granter = false;
}

abbrev decode : Bytes → Option Tx
decode [] = none
decode (c ∷ rest) = some (record {
  msgs = (if c == b'T' then Msg.execution_payload payload else Msg.send) ∷ [];
  standard = some bare;
})

abbrev codec : TxCodec
codec = record { decode = decode; module_account = 1 ∷ [] }

abbrev transfer : Bytes
transfer = b'S' ∷ []

abbrev last : Bytes
last = b'T' ∷ []

abbrev votes : List Vote
votes = record { power = 7; committed = true } ∷ record { power = 3; committed = false } ∷ []

abbrev accept : MsgExecutionPayload → Result Done Done
accept msg = ok tt

quorum : has_quorum votes ≡ true
unfolding has_quorum total_power voted_power
quorum = refl

built :
    prepare_proposal_handler {E = Done} codec 1 2 (transfer ∷ transfer ∷ []) (ok (last ∷ []))
    ≡ ok (transfer ∷ last ∷ [])
unfolding prepare_proposal_handler collect is_cosmos parse_tx validate_msg_allowed validate_tx
    payload_of bytes_eq
built = refl

votes_small : 2 * power_sum votes < 2 ^ 63
unfolding power_sum
votes_small = omega arith

has_quorum_iff_test : (has_quorum votes ≡ true) ↔ (2 * power_sum votes < 3 * committed_sum votes)
has_quorum_iff_test = has_quorum_iff votes votes_small

abbrev two : ℕ
two = 2

process_proposal_iff_example :
    ((two ≡ 1)
      → (process_proposal_handler codec 1 (some accept) 2 votes (transfer ∷ last ∷ []) ≡ ok tt)
        ↔ (transfer ∷ last ∷ [] ≡ []))
    × ((two ≢ 1)
        → (process_proposal_handler codec 1 (some accept) 2 votes (transfer ∷ last ∷ []) ≡ ok tt)
          ↔ ((has_quorum votes ≡ true)
              × ((msg : MsgExecutionPayload) × IsBlock codec 1 (transfer ∷ last ∷ []) msg
                  × (accept msg ≡ ok tt))))
process_proposal_iff_example = process_proposal_iff codec 1 accept votes 2 (transfer ∷ last ∷ [])
