-- ===== src/Evm/Prepare/Routing.antt =====
-- The Engine API methods that the handlers call, against the version matrix of the chain
-- specification; and the text by which an unknown payload is recognised.
use nexus_node.Common.{
  ℕ, ◌≡◌, ap, ◌∙◌, true, some, Option, List, ◌++◌, Result, err, ◌==◌, if◌then◌else◌, arith, String,
}
use nexus_node.Common.Text.{Bytes, codes, to_lower, contains, contains-append}
use mathlib.Core.List.{map-append, append_assoc}
use nexus_node.ChainSpec.{get_payload_engine_rpc_version, new_payload_engine_rpc_version}
use nexus_node.Engine.{
  Hash, Status, ForkChoiceResponse, ExecutableData, EngineClient, RpcFailure, RpcClient,
  auth_client, wrap,
}
use nexus_node.Evm.Keeper.{Keeper, SdkContext, Libraries}
use nexus_node.Evm.MsgServer.{new_payload, sent}
use nexus_node.Evm.Prepare.{get_payload, is_payload_unknown}

module _ {World : Type 0} (client : EngineClient World) where
  -- `engine_getPayloadVx`
  abbrev pub get_payload_of : ℕ → ℕ → World → Result Bytes ExecutableData × World
  get_payload_of version =
      if version == 5
      then client.get_payload_v5
      else if version == 4
      then client.get_payload_v4
      else client.get_payload_v3

  -- `engine_newPayloadVx`
  abbrev pub new_payload_of :
      ℕ → ExecutableData → List Hash → Option Hash → World → Result Bytes Status × World
  new_payload_of version =
      if version == 5
      then client.new_payload_v5
      else if version == 4
      then client.new_payload_v4
      else client.new_payload_v3

module _ {World : Type 0} (k : Keeper) (x : Libraries) (client : EngineClient World)
    (c : SdkContext) where
  -- PrepareProposal polls with the getPayload version, and the message server sends with the
  -- newPayload version, that the chain specification gives for the timestamp of the payload.
  pub versions-followed :
      (timestamp id : ℕ) (p : ExecutableData) (hashes : List Hash) (w : World)
      → (get_payload k x client c timestamp id w
          ≡ get_payload_of client (get_payload_engine_rpc_version k.chain_spec timestamp) id w)
        × (new_payload k x client c p hashes w
            ≡ sent (
                new_payload_of client
                  (new_payload_engine_rpc_version k.chain_spec p.timestamp)
                  p
                  hashes
                  (some c.app_hash)
                  w))
  unfolding get_payload new_payload get_payload_engine_rpc_version new_payload_engine_rpc_version
  versions-followed timestamp id p hashes w = (ground arith, ground arith)

-- The method that a version of getPayload calls.
abbrev pub get_payload_method : ℕ → String
get_payload_method version =
    if version == 5
    then "engine_getPayloadV5"
    else if version == 4
    then "engine_getPayloadV4"
    else "engine_getPayloadV3"

-- The context that the client puts before the error.
get_payload_context : ℕ → Bytes
get_payload_context version =
    if version == 5
    then codes "get payload v5: "
    else if version == 4
    then codes "get payload v4: "
    else codes "get payload v3: "

to_lower-append : (a b : Bytes) → to_lower (a ++ b) ≡ to_lower a ++ to_lower b
unfolding to_lower
to_lower-append a b = map-append _ _ _

-- A message with the engine's text in it is recognised behind the context that the client adds.
wrap-unknown :
    (x : Libraries) (context a b response : Bytes)
    → is_payload_unknown x
        (wrap context (record { message = a ++ (x.unknown_payload ++ b); response = response }))
      ≡ true
unfolding is_payload_unknown wrap
wrap-unknown x context a b response =
    let u = x.unknown_payload in
    let rest = b ++ (codes ", response: " ++ response) in
    let e : context ++ ((a ++ (u ++ b)) ++ (codes ", response: " ++ response))
        ≡ (context ++ a) ++ (u ++ rest) =
      simp append_assoc in
    let lowered : to_lower ((context ++ a) ++ (u ++ rest))
        ≡ to_lower (context ++ a) ++ (to_lower u ++ to_lower rest) =
      to_lower-append (context ++ a) (u ++ rest)
      ∙ ap (λ t. to_lower (context ++ a) ++ t) (to_lower-append u rest) in
    ap (λ t. contains (to_lower t) (to_lower u)) e
    ∙ ap (λ t. contains t (to_lower u)) lowered
    ∙ contains-append (to_lower (context ++ a)) (to_lower u) (to_lower rest)

-- Whichever version is called, an RPC failure whose message contains the text of the engine's
-- "unknown payload" error reaches PrepareProposal as an error that `isPayloadUnknown` recognises,
-- through the context and the response that the client wraps round it, in any case of letters.
pub unknown-recognised :
    {World : Type 0} (x : Libraries) (rpc : RpcClient World) (show : ForkChoiceResponse → Bytes)
    (version id : ℕ) (w w' : World) (a b response : Bytes)
    → rpc.call_get_payload (get_payload_method version) id w
      ≡ (err (record { message = a ++ (x.unknown_payload ++ b); response = response }), w')
    → (message : Bytes) × (get_payload_of (auth_client rpc show) version id w ≡ (err message, w'))
      × (is_payload_unknown x message ≡ true)
unfolding auth_client get_payload_context
unknown-recognised x rpc show version id w w' a b response h =
    let f : RpcFailure = record { message = a ++ (x.unknown_payload ++ b); response = response } in
    (
      wrap (get_payload_context version) f,
      ground (arith, h),
      wrap-unknown x (get_payload_context version) a b response,
    )
