-- ===== src/Readiness/Tests.antt =====
-- A node one block behind its peer.
use nexus_node.Common.{ℕ, ◌<◌, ◌≡◌, ◌↔◌, none, some, [], Done, ok, true, false, arith}
use nexus_node.Common.Text.{Bytes}
use nexus_node.Engine.{EngineClient, stub_client, ForkChoiceResponse, valid}
use nexus_node.Evm.State.{BlockState}
use nexus_node.Readiness.{
  ProbeConfig, Peer, CometStatus, status_ok, run_readiness_checks, readiness_http_status,
  parse_comet_status,
}
use nexus_node.Readiness.Lag.{IsNear, KnowsHead, readiness_iff}

abbrev head : BlockState
head = record { hash = 7; height = 5; timestamp = 100 }

abbrev answer : ForkChoiceResponse
answer = record { payload_status = valid; payload_id = none }

abbrev engine : EngineClient Done
engine = record stub_client { forkchoice_updated_v3 = λ update attributes w. (ok answer, w) }

abbrev peer_status : CometStatus Done
peer_status = record { rpc_error = false; latest_block_height = some (ok (some 6)) }

abbrev peer : Peer
peer = record {
  headers_decode = λ s. true;
  decode = λ b. some peer_status;
  fetch = λ url headers. some (record { status_code = 200; body = [] });
}

abbrev probe : ProbeConfig
probe = record { url = "http://peer/status"; headers = ""; head_lag_max_blocks = 2 }

peer-IsWord :
    (b : Bytes) (h : ℕ)
    → parse_comet_status (peer.decode b) ≡ ok (some h)
    → h < 18446744073709551616
unfolding parse_comet_status
peer-IsWord b h e = ground arith

readiness_iff_example :
    (readiness_http_status
        (run_readiness_checks engine peer probe (some (ok head)) (some (ok false)) tt)
      ≡ status_ok)
    ↔ ((false ≡ false) × KnowsHead engine peer probe head tt × IsNear peer probe 5)
readiness_iff_example = readiness_iff engine peer probe head false tt peer-IsWord (omega arith)
