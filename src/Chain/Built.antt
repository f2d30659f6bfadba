-- ===== src/Chain/Built.antt =====
-- What the codecs and an honest engine promise, and the payload that follows: it is carried by a
-- transaction that is permitted, and it validates.
use nexus_node.Common.{
  ℕ, ◌+◌, ◌%◌, ◌<◌, ◌≤◌, ◌≡◌, refl, true, false, none, some, [], ◌∷◌, ok, length, eq_iff, arith,
}
use nexus_node.Common.Text.{Bytes, bytes_eq}
use nexus_node.Common.Words.{u64_mod}
use nexus_node.Engine.{ExecutableData}
use nexus_node.Evm.State.{BlockState, max_tx_size}
use nexus_node.Evm.Timestamp.{calculate_timestamp}
use nexus_node.Evm.Timestamp.Laws.{InWindow, calculate_timestamp-gt-previous}
use nexus_node.Evm.Keeper.{Keeper, SdkContext, MsgExecutionPayload, Libraries, to_uint64}
use nexus_node.Evm.Payload.{validate_payload}
use nexus_node.Evm.Payload.Laws.{IsComplete, Extends, validate_payload_iff}
use nexus_node.Proposal.{
  TxCodec, Tx, Msg, StandardTx, parse_tx, payload_of, validate_tx, validate_msg_allowed,
}
use nexus_node.Proposal.Scan.{IsPayloadTx}

-- Nothing of a user's transaction is set.
pub record IsBare (module_account : Bytes) (t : StandardTx) : Type 0 where
  pub unsigned : t.signatures ≡ some 0
  pub no_memo : t.memo ≡ ""
  pub no_fee : t.has_fee ≡ false
  pub payer : bytes_eq t.fee_payer module_account ≡ true
  pub no_granter : t.has_fee_granter ≡ false

-- The libraries' codecs undo one another: a transaction decodes to the one message that was encoded
-- in it with nothing else set, a payload's JSON decodes to the payload, and empty JSON to none.
pub record CodecLaws (x : Libraries) (codec : TxCodec) : Type 0 where
  pub decoding :
      (msg : MsgExecutionPayload) (raw : Bytes)
      → x.encode_tx msg ≡ some raw
      → (tx : Tx) × (t : StandardTx) × (codec.decode raw ≡ some tx)
        × (tx.msgs ≡ Msg.execution_payload msg ∷ [])
        × (tx.standard ≡ some t)
        × IsBare codec.module_account t
  pub json :
      (p : ExecutableData) (b : Bytes)
      → x.marshal_payload p ≡ some b
      → x.unmarshal_payload b ≡ some p
  pub no_json : x.unmarshal_payload [] ≡ none

-- What the Engine API asks of a payload built for the attributes at the head `s`.
pub record IsBuiltOn (s : BlockState) (timestamp : ℕ) (p : ExecutableData) : Type 0 where
  pub complete : IsComplete p
  pub parent : p.parent_hash ≡ s.hash
  pub next : p.number ≡ (s.height + 1) % u64_mod
  pub at_time : p.timestamp ≡ timestamp

-- The message of the evm module around a payload's JSON.
abbrev pub message_of : Libraries → Bytes → MsgExecutionPayload
message_of x json = record { authority = x.module_address; execution_payload = json }

bare-parses :
    (codec : TxCodec) (msg : MsgExecutionPayload) (raw : Bytes) (tx : Tx) (t : StandardTx)
    → codec.decode raw ≡ some tx
    → tx.msgs ≡ Msg.execution_payload msg ∷ []
    → tx.standard ≡ some t
    → IsBare codec.module_account t
    → parse_tx codec raw ≡ ok (record { tx = tx; payload = some msg })
unfolding parse_tx validate_tx validate_msg_allowed payload_of
bare-parses codec msg raw tx t decodes one plain bare =
    let memo = (eq_iff t.memo "").1 bare.no_memo in
    ground
      (arith, decodes, one, plain, bare.unsigned, memo, bare.no_fee, bare.payer, bare.no_granter)

module _ (x : Libraries) (codec : TxCodec) (laws : CodecLaws x codec) where
  pub encoded-IsPayloadTx :
      (msg : MsgExecutionPayload) (raw : Bytes)
      → x.encode_tx msg ≡ some raw
      → length raw ≤ max_tx_size
      → IsPayloadTx codec msg raw
  encoded-IsPayloadTx msg raw e small =
      let (tx, t, decodes, one, plain, bare) = laws.decoding msg raw e in
      (
        small,
        (
          record { tx = tx; payload = some msg },
          bare-parses codec msg raw tx t decodes one plain bare,
          refl,
        ),
      )

  module _ (k : Keeper) (c : SdkContext) (s : BlockState) where
    pub built-Extends :
        (p : ExecutableData) (h : ℕ)
        → to_uint64 c.height ≡ ok h
        → ¬ InWindow k.clock.use_block_timestamp c.height
        → s.timestamp + 1 < u64_mod
        → IsBuiltOn s (calculate_timestamp k.clock c.block_unix h s.timestamp) p
        → Extends k c s p
    unfolding to_uint64
    built-Extends p h e outside fits built =
        let same : h ≡ c.height = ground arith in
        let grows =
          calculate_timestamp-gt-previous k.clock c.block_unix c.height s.timestamp outside fits in
        let t : p.timestamp ≡ calculate_timestamp k.clock c.block_unix c.height s.timestamp =
          ground (arith, built.at_time, same) in
        record {
          parent = built.parent;
          next = built.next;
          later = omega (arith, grows, t);
          nonnegative = ground arith;
          at_time = t;
        }

    pub built-validates :
        (p : ExecutableData) (json : Bytes)
        → x.marshal_payload p ≡ some json
        → IsComplete p
        → Extends k c s p
        → validate_payload k x c (message_of x json) s ≡ ok p
    built-validates p json j complete extends =
        (validate_payload_iff k x c (message_of x json) s p).1
          (refl, laws.json p json j, complete, extends)
