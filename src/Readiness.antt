-- ===== src/Readiness.antt =====
-- cosmos/app/rpc_readiness.go and cosmos/x/evm/keeper/readiness.go: what GET /readyz answers. The
-- node's status, the engine, the HTTP client and the JSON decoder are arguments.
pub mod Lag
pub mod Heights
mod Tests
use nexus_node.Common.{
  ℕ, ◌+◌, ◌-◌, Option, none, some, Result, Done, ok, err, fail_if, ◌>>=◌, ◌>>◌, Bool, true, false,
  not, ◌||◌, String, str_eq, ltb, if◌then◌else◌, ◌==◌,
}
use nexus_node.Common.Text.{Bytes}
use nexus_node.Common.Words.{sub64, neg64, slt64}
use nexus_node.Engine.{Status, valid, EngineClient, ForkchoiceState, ForkChoiceResponse}
use nexus_node.Evm.State.{BlockState}

-- `readinessErrorKind`; `internal` is an error that is no `readinessProbeError`.
pub data ProbeError : Type 0 where
  committed_state query_context cosmos reth head_lag : ProbeError
  trusted_peer_config trusted_peer_request trusted_peer_response internal : ProbeError

pub data HttpStatus : Type 0 where
  status_ok service_unavailable internal_server_error : HttpStatus

-- `url` is trimmed when it is loaded; `headers` is what trimming leaves of the configured text.
pub record ProbeConfig : Type 0 where
  pub url : String
  pub headers : String
  pub head_lag_max_blocks : ℕ

-- The fields of a decoded status: an `error`, and `sync_info` with its height as an int64, `none` where
-- it is missing and `err` where it does not parse.
pub record CometStatus (E : Type 0) : Type 0 where
  pub rpc_error : Bool
  pub latest_block_height : Option (Result E (Option ℕ))

-- A reply of the peer.
pub record Reply : Type 0 where
  pub status_code : ℕ
  pub body : Bytes

pub record Peer : Type 0 where
  -- `json.Unmarshal` of the configured headers, and the status that a body decodes to.
  pub headers_decode : String → Bool
  pub decode : Bytes → Option (CometStatus Done)
  -- The request, `none` where building or sending it or reading the body fails.
  pub fetch : String → String → Option Reply

-- `parseCometStatusJSON`, and then the height as the int64 that it has to be.
unfoldable pub parse_comet_status : Option (CometStatus Done) → Result ProbeError (Option ℕ)
parse_comet_status none = err trusted_peer_response
parse_comet_status (some s) = do
  fail_if s.rpc_error trusted_peer_response
  elim s.latest_block_height [
    | none ↦ err trusted_peer_response
    | some h ↦ elim h [ err e ↦ err trusted_peer_response | ok height ↦ ok height ]
  ]

-- The distance of two heights: the int64 conversion of the local one, and the difference as a uint64.
unfoldable pub height_distance : ℕ → ℕ → ℕ
height_distance local_height peer_height =
    if slt64 peer_height local_height
    then sub64 local_height peer_height
    else sub64 peer_height local_height

check_height : ℕ → ℕ → Option ℕ → Result ProbeError Done
unfolding height_distance
check_height local_height max_lag none = err trusted_peer_response
check_height local_height max_lag (some peer_height) = do
  fail_if (neg64 peer_height) trusted_peer_response
  fail_if (ltb max_lag (height_distance local_height peer_height)) head_lag

check_reply : (Bytes → Option (CometStatus Done)) → ℕ → ℕ → Option Reply → Result ProbeError Done
unfolding check_height
check_reply decode local_height max_lag none = err trusted_peer_request
check_reply decode local_height max_lag (some reply) = do
  fail_if (not (reply.status_code == 200)) trusted_peer_response
  peer_height ← parse_comet_status (decode reply.body)
  check_height local_height max_lag peer_height

ask_peer : Peer → ℕ → ProbeConfig → Result ProbeError Done
unfolding check_reply
ask_peer peer local_height cfg = do
  fail_if (not (str_eq cfg.headers "" || peer.headers_decode cfg.headers)) trusted_peer_config
  check_reply peer.decode local_height cfg.head_lag_max_blocks (peer.fetch cfg.url cfg.headers)

unfoldable pub check_trusted_peer_lag : Peer → ℕ → ProbeConfig → Result ProbeError Done
unfolding ask_peer
check_trusted_peer_lag peer local_height cfg =
    if str_eq cfg.url "" then ok tt else ask_peer peer local_height cfg

-- `checkLocalCometNotCatchingUp`: `none` where no client is configured; the status is `CatchingUp`.
unfoldable pub check_local_comet : Option (Result Bytes Bool) → Result ProbeError Done
check_local_comet none = err cosmos
check_local_comet (some (err e)) = err cosmos
check_local_comet (some (ok catching_up)) = fail_if catching_up cosmos

judge_head : Result Bytes ForkChoiceResponse → Result ProbeError Done
judge_head (err e) = err reth
judge_head (ok resp) = elim resp.payload_status [ valid ↦ ok tt | _ ↦ err reth ]

abbrev pub head_state : BlockState → ForkchoiceState
head_state committed = record {
  head_block_hash = committed.hash;
  safe_block_hash = committed.hash;
  finalized_block_hash = committed.hash;
}

-- `ProbeCommittedExecutionHead`
unfoldable pub probe_committed_execution_head :
    {World : Type 0} → EngineClient World → BlockState → World → Result ProbeError Done
unfolding judge_head
probe_committed_execution_head client committed w =
    judge_head (client.forkchoice_updated_v3 (head_state committed) none w).0

module _ {World : Type 0} (client : EngineClient World) (peer : Peer) (cfg : ProbeConfig) where
  -- `readinessChecksPhases`: the engine is asked in the state `w` of the world.
  unfoldable pub readiness_checks_phases :
      Option (Result Bytes Bool) → BlockState → World → Result ProbeError Done
  readiness_checks_phases comet committed w = do
    check_local_comet comet
    probe_committed_execution_head client committed w
    check_trusted_peer_lag peer committed.height cfg

  -- `runReadinessChecks`: `stored` is `none` where no query context can be made, and the error of
  -- `GetBlockState` says whether it is `ErrNotFound`.
  unfoldable pub run_readiness_checks :
      Option (Result Bool BlockState) → Option (Result Bytes Bool) → World → Result ProbeError Done
  run_readiness_checks none comet w = err query_context
  run_readiness_checks (some (err not_found)) comet w =
      err (if not_found then committed_state else internal)
  run_readiness_checks (some (ok committed)) comet w = readiness_checks_phases comet committed w

-- `writeReadinessResult` and `readinessFailureHTTPStatus`
unfoldable pub readiness_http_status : Result ProbeError Done → HttpStatus
readiness_http_status (ok u) = status_ok
readiness_http_status (err internal) = internal_server_error
readiness_http_status (err _) = service_unavailable
