-- ===== src/Readiness/Lag.antt =====
-- When the node is ready.
use nexus_node.Common.{
  ℕ, ◌+◌, ◌^◌, ◌≤◌, ◌<◌, ◌≡◌, ◌↔◌, ◌⊎◌, inl, inr, none, some, ok, Bool, true, false, ◌||◌, str_eq,
  arith, Bool-cases, Result-cases, Option-cases,
}
use nexus_node.Common.Text.{Bytes}
use nexus_node.Engine.{EngineClient, ForkChoiceResponse, valid}
use nexus_node.Evm.State.{BlockState}
use nexus_node.Readiness.{
  ProbeConfig, Peer, Reply, status_ok, parse_comet_status, height_distance, check_height,
  check_reply, ask_peer, check_trusted_peer_lag, check_local_comet, judge_head, head_state,
  probe_committed_execution_head, readiness_checks_phases, run_readiness_checks,
  readiness_http_status,
}

-- The peer answered with a height.
pub record Reports (peer : Peer) (cfg : ProbeConfig) (height : ℕ) : Type 0 where
  pub headers_fit : (str_eq cfg.headers "" || peer.headers_decode cfg.headers) ≡ true
  pub reply : Reply
  pub fetched : peer.fetch cfg.url cfg.headers ≡ some reply
  pub fine : reply.status_code ≡ 200
  pub parsed : parse_comet_status (peer.decode reply.body) ≡ ok (some height)

-- No peer is configured, or it reports a height close by.
abbrev pub IsNear : Peer → ProbeConfig → ℕ → Type 0
IsNear peer cfg height =
    (str_eq cfg.url "" ≡ true)
    ⊎ ((str_eq cfg.url "" ≡ false)
        × ((peer_height : ℕ) × Reports peer cfg peer_height
            × (peer_height < 2 ^ 63)
            × (height ≤ peer_height + cfg.head_lag_max_blocks)
            × (peer_height ≤ height + cfg.head_lag_max_blocks)))

check_height_iff :
    (height max_lag peer_height : ℕ)
    → height < 2 ^ 63
    → peer_height < 2 ^ 64
    → (check_height height max_lag (some peer_height) ≡ ok tt) ↔ (
        (peer_height < 2 ^ 63)
        × (height ≤ peer_height + max_lag)
        × (peer_height ≤ height + max_lag))
unfolding check_height height_distance
check_height_iff height max_lag peer_height small word = ground arith

-- The heights of a peer are int64.
abbrev pub IsWord : Peer → Type 0
IsWord peer = (b : Bytes) (h : ℕ) → parse_comet_status (peer.decode b) ≡ ok (some h) → h < 2 ^ 64

module _ (peer : Peer) (cfg : ProbeConfig) (height : ℕ) (words : IsWord peer)
    (small : height < 2 ^ 63) where
  ask_peer_sound :
      str_eq cfg.url "" ≡ false → ask_peer peer height cfg ≡ ok tt → IsNear peer cfg height
  unfolding ask_peer check_reply
  ask_peer_sound set h = elim (Option-cases (peer.fetch cfg.url cfg.headers)) [
    | inl nothing ↦ absurd (ground arith)
    | inr (reply, fetched) ↦ elim (Result-cases (parse_comet_status (peer.decode reply.body))) [
      | inr (e, bad) ↦ absurd (ground arith)
      | inl (o, good) ↦ elim (Option-cases o) [
        | inl missing ↦ absurd (ground arith)
        | inr (peer_height, given) ↦
            let parsed : parse_comet_status (peer.decode reply.body) ≡ ok (some peer_height) =
              ground arith in
            let (a, b, c) =
              (check_height_iff height cfg.head_lag_max_blocks peer_height small
                  (words reply.body peer_height parsed)).0
                (ground arith) in
            inr (
              set,
              (
                peer_height,
                record {
                  headers_fit = ground arith;
                  reply = reply;
                  fetched = fetched;
                  fine = ground arith;
                  parsed = parsed;
                },
                a,
                b,
                c,
              ),
            )
      ]
    ]
  ]

  ask_peer_complete :
      (peer_height : ℕ)
      → Reports peer cfg peer_height
      → (peer_height < 2 ^ 63)
        × (height ≤ peer_height + cfg.head_lag_max_blocks)
        × (peer_height ≤ height + cfg.head_lag_max_blocks)
      → ask_peer peer height cfg ≡ ok tt
  unfolding ask_peer check_reply
  ask_peer_complete peer_height r near =
      let e =
        (check_height_iff height cfg.head_lag_max_blocks peer_height small
            (words r.reply.body peer_height r.parsed)).1
          near in
      let e1 = r.headers_fit in
      let e2 = r.fetched in let e3 = r.fine in let e4 = r.parsed in ground arith

  lag_iff : (check_trusted_peer_lag peer height cfg ≡ ok tt) ↔ IsNear peer cfg height
  unfolding check_trusted_peer_lag
  lag_iff = elim (Bool-cases (str_eq cfg.url "")) [
    | inl unset ↦ ((λ h. inl unset), (λ near. ground arith))
    | inr set ↦ (
      (λ h. ask_peer_sound set (ground arith)),
      (λ near. elim near [
        | inl unset ↦ ground arith
        | inr (s, (peer_height, r, a, b, c)) ↦
            let e = ask_peer_complete peer_height r (a, b, c) in ground arith
      ]),
    )
  ]

module _ {World : Type 0} (client : EngineClient World) (peer : Peer) (cfg : ProbeConfig) where
  -- The engine's answer to the committed head.
  abbrev pub KnowsHead : BlockState → World → Type 0
  KnowsHead committed w =
      (r : ForkChoiceResponse) × ((client.forkchoice_updated_v3 (head_state committed) none w).0
        ≡ ok r)
      × (r.payload_status ≡ valid)

  probe_iff :
      (committed : BlockState) (w : World)
      → (probe_committed_execution_head client committed w ≡ ok tt) ↔ KnowsHead committed w
  unfolding probe_committed_execution_head judge_head
  probe_iff committed w =
      elim (Result-cases (client.forkchoice_updated_v3 (head_state committed) none w).0) [
        | inr (e, bad) ↦ ((λ h. absurd (ground arith)), (λ (r, e, v). absurd (ground arith)))
        | inl (r, good) ↦ ((λ h. (r, good, ground arith)), (λ (r', e, v). ground arith))
      ]

  -- While the committed height is below 2 ^ 63, the heights of the peer are int64, and the block
  -- state and the node's own status can be read, GET /readyz answers 200 exactly when the node's
  -- own sync is done, the engine answers VALID to the committed head, and either no peer is
  -- configured or the peer reports a height at most the configured number of blocks above or
  -- below.
  pub readiness_iff :
      (committed : BlockState) (catching_up : Bool) (w : World)
      → IsWord peer
      → committed.height < 2 ^ 63
      → (readiness_http_status
            (run_readiness_checks client peer cfg (some (ok committed)) (some (ok catching_up)) w)
          ≡ status_ok)
        ↔ ((catching_up ≡ false) × KnowsHead committed w × IsNear peer cfg committed.height)
  unfolding readiness_http_status run_readiness_checks readiness_checks_phases check_local_comet
  readiness_iff committed catching_up w words small = (
    (λ h. (
      ground arith,
      (probe_iff committed w).0 (ground arith),
      (lag_iff peer cfg committed.height words small).0 (ground arith),
    )),
    (λ (synced, knows, near).
        let e = (probe_iff committed w).1 knows in
        let e' = (lag_iff peer cfg committed.height words small).1 near in ground arith),
  )
