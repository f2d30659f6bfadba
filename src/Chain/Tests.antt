-- ===== src/Chain/Tests.antt =====
-- A round on a small chain whose codecs undo one another.
use nexus_node.Common.{
  ℕ, ◌+◌, ◌%◌, ◌≡◌, refl, sym, true, false, Option, none, some, List, [], ◌∷◌, Result, Done, ok,
  err, str_eq, if◌then◌else◌, arith,
}
use nexus_node.Common.Text.{Bytes, codes}
use nexus_node.Engine.{ExecutableData}
use nexus_node.Evm.State.{KeeperError, no_block_state, Node}
use nexus_node.Evm.Keeper.{MsgExecutionPayload, Libraries, process_proposal as processing}
use nexus_node.Evm.MsgServer.{proposal_payload}
use nexus_node.Evm.Samples.{child, context, background, before}
use mathlib.Core.Path.{subst}
use nexus_node.Common.Words.{u64_mod}
use nexus_node.Evm.Payload.Laws.{IsComplete}
use nexus_node.Evm.Prepare.Routing.{get_payload_of}
use nexus_node.Evm.Prepare.Samples.{early_keeper, asked, builder_engine, answer_lem}
use nexus_node.Proposal.{TxCodec, Tx, Msg, StandardTx, Vote}
use nexus_node.Chain.Round.{BuilderLaws}

-- A complete payload without transactions is its numbers; no other is written.
written :
    List Bytes → Option (List Bytes) → Option ℕ → Option ℕ → Option Bytes → List ℕ → Option Bytes
written [] (some []) (some gas) (some excess) none numbers = some (gas ∷ excess ∷ numbers)
written _ _ _ _ _ _ = none

marshal : ExecutableData → Option Bytes
unfolding written
marshal p =
    written p.transactions p.withdrawals p.blob_gas_used p.excess_blob_gas p.execution_witness
      (p.parent_hash ∷ p.number ∷ p.timestamp ∷ p.block_hash ∷ [])

unmarshal : Bytes → Option ExecutableData
unmarshal (gas ∷ excess ∷ parent_hash ∷ number ∷ timestamp ∷ hash ∷ []) = some (record {
  parent_hash = parent_hash;
  number = number;
  timestamp = timestamp;
  block_hash = hash;
  transactions = [];
  withdrawals = some [];
  blob_gas_used = some gas;
  excess_blob_gas = some excess;
  execution_witness = none;
})
unmarshal _ = none

encode : MsgExecutionPayload → Option Bytes
encode msg = if str_eq msg.authority "evm" then some (b'T' ∷ msg.execution_payload) else none

abbrev bare : StandardTx
bare = record {
  signatures = some 0;
  memo = "";
  has_fee = false;
  fee_payer = 1 ∷ [];
  has_fee_granter = false;
}

abbrev tx_of : Bytes → Tx
tx_of json = record {
  msgs = Msg.execution_payload (record { authority = "evm"; execution_payload = json }) ∷ [];
  standard = some bare;
}

decode : Bytes → Option Tx
decode [] = none
decode (c ∷ json) = some (tx_of json)

abbrev libraries : Libraries
libraries = record {
  unmarshal_payload = unmarshal;
  marshal_payload = marshal;
  encode_tx = encode;
  blob_hashes = λ tx. some [];
  module_address = "evm";
  unknown_payload = codes "Unknown payload";
}

abbrev codec : TxCodec
codec = record { decode = decode; module_account = 1 ∷ [] }

verdict : Option (Result KeeperError Done × Node ℕ) → Result KeeperError Done
verdict none = err no_block_state
verdict (some (r, n)) = r

handler : MsgExecutionPayload → Result KeeperError Done
unfolding verdict
handler msg =
    verdict (
      proposal_payload early_keeper libraries (record context { exec_mode = processing }) msg
        before)

child-IsComplete : IsComplete child
child-IsComplete = record {
  no_withdrawals = refl;
  blob_gas = tt;
  excess_gas = tt;
  no_witness = refl;
}

given_child :
    (version id : ℕ) (p : ExecutableData) (w w' : ℕ)
    → get_payload_of builder_engine version id w ≡ (ok p, w')
    → p ≡ child
given_child version id p w w' e = ground (arith, e)

-- Every hash has the number 5; a build is on the parent and for the time 101.
laws_of_builder : BuilderLaws builder_engine background
laws_of_builder = record {
  number_of = λ h. 5;
  Building = λ id head asked w. (head ≡ 7) × (asked.timestamp ≡ 101);
  starts =
      λ update asked a id w w' e good given. answer_lem update asked id (ground (arith, e, given));
  waits = λ id head asked n w h. h;
  sleeps = λ id head asked n w h. h;
  polls = λ version id head asked w h. h;
  builds = λ version id head asked p w w' h e.
      let same : p ≡ child = given_child version id p w w' e in
      subst
        (λ q.
          (q.parent_hash ≡ head)
          × (q.number ≡ (5 + 1) % u64_mod)
          × (q.timestamp ≡ asked.timestamp)
          × (asked.withdrawals ≡ [] → IsComplete q))
        (sym same) (sym h.0, refl, sym h.1, λ none_asked. child-IsComplete);
}

abbrev votes : List Vote
votes = record { power = 7; committed = true } ∷ record { power = 3; committed = false } ∷ []

abbrev json : Bytes
json = 0 ∷ 0 ∷ 7 ∷ 6 ∷ 101 ∷ 9 ∷ []
