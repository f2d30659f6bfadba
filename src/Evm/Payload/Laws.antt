-- ===== src/Evm/Payload/Laws.antt =====
-- `validatePayload` against what a payload has to satisfy, written out.
use nexus_node.Common.{
  ◌+◌, ◌%◌, ◌^◌, ◌<◌, ◌≡◌, ◌≢◌, ◌≤◌, ◌↔◌, Option, none, some, [], ok, arith, eq_iff,
}
use nexus_node.Common.Words.{u64_mod}
use nexus_node.Engine.{ExecutableData}
use nexus_node.Evm.State.{BlockState}
use nexus_node.Evm.Timestamp.{UseBlockTimestamp, calculate_timestamp}
use nexus_node.Evm.Timestamp.Laws.{InWindow, calculate_timestamp-InWindow}
use nexus_node.Evm.Keeper.{Keeper, SdkContext, MsgExecutionPayload, Libraries, to_uint64}
use nexus_node.Evm.Payload.{validate_payload, check_fields, check_position}

abbrev IsPresent {ℓ} : {A : Type ℓ} → Option A → Type 0
IsPresent none = ⊥
IsPresent (some _) = Unit

-- The payload is complete and holds nothing that the chain does not support.
pub record IsComplete (p : ExecutableData) : Type 0 where
  pub no_withdrawals : p.withdrawals ≡ some []
  pub blob_gas : IsPresent p.blob_gas_used
  pub excess_gas : IsPresent p.excess_blob_gas
  pub no_witness : p.execution_witness ≡ none

-- The payload is the child of the committed block at the time that the block's context gives.
pub record Extends (k : Keeper) (c : SdkContext) (state : BlockState) (p : ExecutableData)
    : Type 0 where
  pub parent : p.parent_hash ≡ state.hash
  pub next : p.number ≡ (state.height + 1) % u64_mod
  pub later : state.timestamp < p.timestamp
  pub nonnegative : c.height < 2 ^ 63
  pub at_time : p.timestamp ≡ calculate_timestamp k.clock c.block_unix c.height state.timestamp

check_fields_sound : (p : ExecutableData) → check_fields p ≡ ok tt → IsComplete p
unfolding check_fields
check_fields_sound p h = ground arith

check_position_sound :
    (k : Keeper) (c : SdkContext) (state : BlockState) (p : ExecutableData)
    → check_position k c state p ≡ ok tt
    → Extends k c state p
unfolding check_position to_uint64
check_position_sound k c state p h = ground arith

check_fields_complete : (p : ExecutableData) → IsComplete p → check_fields p ≡ ok tt
unfolding check_fields
check_fields_complete p h = ground arith

check_position_complete :
    (k : Keeper) (c : SdkContext) (state : BlockState) (p : ExecutableData)
    → Extends k c state p
    → check_position k c state p ≡ ok tt
unfolding check_position to_uint64
check_position_complete k c state p h = ground arith

-- `validatePayload` returns a payload exactly when the message is the evm module's, the payload is
-- what its JSON decodes to, it is complete, and it extends the committed block: its parent is the
-- committed hash, its number the next one, and its timestamp later than the committed one and equal
-- to the one that `CalculateTimestamp` gives.
pub validate_payload_iff :
    (k : Keeper) (x : Libraries) (c : SdkContext) (msg : MsgExecutionPayload) (state : BlockState)
    (p : ExecutableData)
    → (validate_payload k x c msg state ≡ ok p) ↔ (
        (msg.authority ≡ x.module_address)
        × (x.unmarshal_payload msg.execution_payload ≡ some p)
        × IsComplete p
        × Extends k c state p)
unfolding validate_payload
validate_payload_iff k x c msg state p = (
  (λ h. ground (
    arith,
    eq_iff msg.authority x.module_address,
    check_fields_sound p,
    check_position_sound k c state p,
  )),
  (λ h. ground (
    arith,
    eq_iff msg.authority x.module_address,
    check_fields_complete p,
    check_position_complete k c state p,
  )),
)

-- At a height in the window that uses block heights, when the height plus the offset modulo 2 ^ 64
-- is not later than the committed timestamp, `validatePayload` returns a payload for no message.
pub stale_window_refused :
    (k : Keeper) (x : Libraries) (c : SdkContext) (msg : MsgExecutionPayload) (state : BlockState)
    (p : ExecutableData) (cfg : UseBlockTimestamp)
    → k.clock.use_block_timestamp ≡ some cfg
    → InWindow (some cfg) c.height
    → (c.height + cfg.offset) % u64_mod ≤ state.timestamp
    → validate_payload k x c msg state ≢ ok p
stale_window_refused k x c msg state p cfg set inside stale h =
    let next = ((validate_payload_iff k x c msg state p).0 h).3 in
    let t =
      calculate_timestamp-InWindow k.clock cfg c.block_unix c.height state.timestamp set inside in
    omega (arith, next.later, next.at_time, t)
