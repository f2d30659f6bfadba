-- ===== src/Chain/Round.antt =====
-- The block of a proposer with an honest engine, followed through the validators to its commit.
use nexus_node.Common.{ℕ, ◌+◌, ◌%◌, ◌≡◌, some, [], Result, Done, ok}
use nexus_node.Common.Words.{u64_mod}
use nexus_node.Engine.{
  Hash, valid, ForkchoiceState, PayloadAttributes, ForkChoiceResponse, ExecutableData, EngineClient,
}
use nexus_node.Evm.Payload.Laws.{IsComplete}
use nexus_node.Evm.Prepare.Routing.{get_payload_of}
use nexus_node.Evm.Prepare.Obtains.{Obtains}
use nexus_node.Evm.State.{BlockState, KeeperError, Node}
use nexus_node.Evm.Timestamp.{calculate_timestamp}
use nexus_node.Evm.Retry.{GoContext}
use nexus_node.Evm.Keeper.{
  Keeper, prepare_proposal as preparing, process_proposal as processing, SdkContext,
  MsgExecutionPayload, Libraries,
}
use nexus_node.Evm.MsgServer.{proposal_payload}
use nexus_node.Evm.Prepare.{prepare_proposal}
use nexus_node.Proposal.{TxCodec}
use nexus_node.Chain.Built.{CodecLaws}

-- The validator's handler of an execution payload is the message server of its own keeper, run on
-- its node.
abbrev pub Routes :
    {World : Type 0}
    → Keeper
    → Libraries
    → SdkContext
    → Node World
    → (MsgExecutionPayload → Result KeeperError Done)
    → Type 0
Routes k x c v handler =
    (msg : MsgExecutionPayload) (r : Result KeeperError Done)
    → proposal_payload k x (record c { exec_mode = processing }) msg v ≡ some (r, v)
    → handler msg ≡ r

-- What the Engine API specifies of an engine that builds payloads. A VALID answer to a forkchoice update
-- with attributes, if it has an id, starts a build on the head with these attributes, which stays under
-- the id while time passes and getPayload is called. A payload that getPayload gives for the id is a
-- child of the head in number and hash, has the timestamp of the attributes, and is complete when no
-- withdrawals are asked for.
pub record BuilderLaws {World : Type 0} (client : EngineClient World) (ctx : GoContext World)
    : Type 1 where
  pub number_of : Hash → ℕ
  pub Building : ℕ → Hash → PayloadAttributes → World → Type 0
  pub starts :
      (update : ForkchoiceState) (asked : PayloadAttributes) (a : ForkChoiceResponse) (id : ℕ)
      (w w' : World)
      → client.forkchoice_updated_v3 update (some asked) w ≡ (ok a, w')
      → a.payload_status ≡ valid
      → a.payload_id ≡ some id
      → Building id update.head_block_hash asked w'
  pub waits :
      (id : ℕ) (head : Hash) (asked : PayloadAttributes) (n : ℕ) (w : World)
      → Building id head asked w
      → Building id head asked (ctx.wait n w).1
  pub sleeps :
      (id : ℕ) (head : Hash) (asked : PayloadAttributes) (n : ℕ) (w : World)
      → Building id head asked w
      → Building id head asked (ctx.sleep n w)
  pub polls :
      (version id : ℕ) (head : Hash) (asked : PayloadAttributes) (w : World)
      → Building id head asked w
      → Building id head asked (get_payload_of client version id w).1
  pub builds :
      (version id : ℕ) (head : Hash) (asked : PayloadAttributes) (p : ExecutableData) (w w' : World)
      → Building id head asked w
      → get_payload_of client version id w ≡ (ok p, w')
      → (p.parent_hash ≡ head)
        × (p.number ≡ (number_of head + 1) % u64_mod)
        × (p.timestamp ≡ asked.timestamp)
        × (asked.withdrawals ≡ [] → IsComplete p)

module _ {World : Type 0} (k : Keeper) (x : Libraries) (codec : TxCodec) (laws : CodecLaws x codec)
    (client : EngineClient World) (c : SdkContext) (ctx : GoContext World) (fuel : ℕ)
    (builder : BuilderLaws client ctx) (s : BlockState) where
  -- The attributes of the update on the state `s`.
  abbrev asked_for : ℕ → PayloadAttributes
  asked_for height = record {
    timestamp = calculate_timestamp k.clock c.block_unix height s.timestamp;
    random = s.hash;
    suggested_fee_recipient = k.suggested_fee_recipient;
    withdrawals = [];
    beacon_root = c.app_hash;
  }
