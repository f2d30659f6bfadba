-- ===== src/Engine.antt =====
-- cosmos/lib/engine.go: the client of the execution engine. `rpc.Client` is an argument: a call takes
-- the world to a new one and gives a decoded reply or a failure. Of the engine's types the fields
-- that the program reads are kept. A hash is the number that its 32 bytes spell.
use nexus_node.Common.{ℕ, Option, none, some, Result, ok, err, List, [], ◌++◌, String}
use nexus_node.Common.Text.{Bytes, codes}

abbrev pub Hash : Type 0
Hash = ℕ

-- `PayloadStatusV1.Status`
pub data Status : Type 0 where
  valid invalid syncing accepted : Status
  other : String → Status

pub record ForkchoiceState : Type 0 where
  pub head_block_hash : Hash
  pub safe_block_hash : Hash
  pub finalized_block_hash : Hash

pub record PayloadAttributes : Type 0 where
  pub timestamp : ℕ
  pub random : Hash
  pub suggested_fee_recipient : ℕ
  pub withdrawals : List Bytes
  pub beacon_root : Hash

pub record ForkChoiceResponse : Type 0 where
  pub payload_status : Status
  pub payload_id : Option ℕ

-- A nil slice or pointer is `none`.
pub record ExecutableData : Type 0 where
  pub parent_hash : Hash
  pub number : ℕ
  pub timestamp : ℕ
  pub block_hash : Hash
  pub transactions : List Bytes
  pub withdrawals : Option (List Bytes)
  pub blob_gas_used : Option ℕ
  pub excess_blob_gas : Option ℕ
  pub execution_witness : Option Bytes

-- `EngineClient`. The message of an error is its text. Every caller passes nil `requests` to
-- `NewPayloadV4` and `NewPayloadV5`, so that argument is left out.
pub record EngineClient (World : Type 0) : Type 0 where
  pub new_payload_v3 :
      ExecutableData → List Hash → Option Hash → World → Result Bytes Status × World
  pub new_payload_v4 :
      ExecutableData → List Hash → Option Hash → World → Result Bytes Status × World
  pub new_payload_v5 :
      ExecutableData → List Hash → Option Hash → World → Result Bytes Status × World
  pub forkchoice_updated_v3 :
      ForkchoiceState → Option PayloadAttributes → World → Result Bytes ForkChoiceResponse × World
  pub get_payload_v3 : ℕ → World → Result Bytes ExecutableData × World
  pub get_payload_v4 : ℕ → World → Result Bytes ExecutableData × World
  pub get_payload_v5 : ℕ → World → Result Bytes ExecutableData × World

-- A failed call: the text of the error, and the response variable as `%v` prints it.
pub record RpcFailure : Type 0 where
  pub message : Bytes
  pub response : Bytes

-- `rpc.Client.CallContext`, for each type of response that the program decodes.
pub record RpcClient (World : Type 0) : Type 0 where
  pub call_new_payload :
      String
      → ExecutableData
      → List Hash
      → Option Hash
      → Option (List Bytes)
      → World
      → Result RpcFailure Status × World
  pub call_forkchoice :
      String
      → ForkchoiceState
      → Option PayloadAttributes
      → World
      → Result RpcFailure ForkChoiceResponse × World
  pub call_get_payload : String → ℕ → World → Result RpcFailure ExecutableData × World

-- `fmt.Errorf("<context>: %w, response: %v", err, response)`
unfoldable pub wrap : Bytes → RpcFailure → Bytes
wrap context f = context ++ (f.message ++ (codes ", response: " ++ f.response))

wrapped : {A : Type 0} → Bytes → Result RpcFailure A → Result Bytes A
unfolding wrap
wrapped context (ok a) = ok a
wrapped context (err f) = err (wrap context f)

-- The engine never answers a forkchoice update with ACCEPTED: such an answer is an error.
checked_forkchoice :
    Result RpcFailure ForkChoiceResponse
    → (ForkChoiceResponse → Bytes)
    → Result Bytes ForkChoiceResponse
unfolding wrap
checked_forkchoice (err f) show = err (wrap (codes "forkchoice updated v3: ") f)
checked_forkchoice (ok r) show = elim r.payload_status [
  | accepted ↦ err (codes "unexpected status accepted: " ++ show r)
  | _ ↦ ok r
]

module _ {World : Type 0} (rpc : RpcClient World) (show : ForkChoiceResponse → Bytes) where
  new_payload_call :
      String
      → Bytes
      → Option (List Bytes)
      → ExecutableData
      → List Hash
      → Option Hash
      → World
      → Result Bytes Status × World
  unfolding wrapped
  new_payload_call method context requests params hashes root w =
      let (r, w') = rpc.call_new_payload method params hashes root requests w in
      (wrapped context r, w')

  forkchoice_call :
      ForkchoiceState → Option PayloadAttributes → World → Result Bytes ForkChoiceResponse × World
  unfolding checked_forkchoice
  forkchoice_call update attributes w =
      let (r, w') = rpc.call_forkchoice "engine_forkchoiceUpdatedV3" update attributes w in
      (checked_forkchoice r show, w')

  get_payload_call : String → Bytes → ℕ → World → Result Bytes ExecutableData × World
  unfolding wrapped
  get_payload_call method context id w =
      let (r, w') = rpc.call_get_payload method id w in (wrapped context r, w')

  -- `engineClient`: V4 and V5 send an empty list of requests, V3 sends none.
  unfoldable pub auth_client : EngineClient World
  unfolding new_payload_call forkchoice_call get_payload_call
  auth_client = record {
    new_payload_v3 = new_payload_call "engine_newPayloadV3" (codes "new payload v3: ") none;
    new_payload_v4 = new_payload_call "engine_newPayloadV4" (codes "new payload v4: ") (some []);
    new_payload_v5 = new_payload_call "engine_newPayloadV5" (codes "new payload v5: ") (some []);
    forkchoice_updated_v3 = forkchoice_call;
    get_payload_v3 = get_payload_call "engine_getPayloadV3" (codes "get payload v3: ");
    get_payload_v4 = get_payload_call "engine_getPayloadV4" (codes "get payload v4: ");
    get_payload_v5 = get_payload_call "engine_getPayloadV5" (codes "get payload v5: ");
  }

stub_message : Bytes
stub_message = codes "EVM not enabled (set EVM_ENABLED=true to enable)"

-- `stubEngineClient`: no call reaches an engine.
unfoldable pub stub_client : {World : Type 0} → EngineClient World
unfolding stub_message
stub_client = record {
  new_payload_v3 = λ params hashes root w. (ok syncing, w);
  new_payload_v4 = λ params hashes root w. (ok syncing, w);
  new_payload_v5 = λ params hashes root w. (ok syncing, w);
  forkchoice_updated_v3 =
      λ update attributes w. (ok (record { payload_status = syncing; payload_id = none }), w);
  get_payload_v3 = λ id w. (err stub_message, w);
  get_payload_v4 = λ id w. (err stub_message, w);
  get_payload_v5 = λ id w. (err stub_message, w);
}
