-- ===== src/Alerts/Halts.antt =====
-- When the halt of the chain is logged.
use nexus_node.Common.{
  ◌≡◌, ◌⊎◌, inl, inr, refl, ◌∙◌, ap, Bool, true, false, [], ◌∷◌, ◌++◌, Bool-cases, arith,
}
use nexus_node.Alerts.{
  Plan, PlanReply, found, no_plan, unreadable, UpgradeKeeper, BlockInfo, HaltLog, UpgradeLog, Alert,
  AlertLibraries, Notifier, halt_log, halt_alerts, log_halt, log_halt_if_triggered, announce,
  log_plan, maybe_log_new_plan, pre_blocker,
}
use nexus_node.Alerts.Once.{Block, scheduled, halts, halts-append, pre_blocker-scheduled}

reply-cases :
    (r : PlanReply) → ((plan : Plan) × (r ≡ found plan)) ⊎ ((r ≡ no_plan) ⊎ (r ≡ unreadable))
reply-cases (found plan) = inl (plan, refl)
reply-cases no_plan = inr (inl refl)
reply-cases unreadable = inr (inr refl)

module _ (x : AlertLibraries) (webhook : Bool) where
  -- The block is the plan's, its height is not to be skipped, and the binary cannot upgrade to it.
  pub record IsHalt (plan : Plan) (b : Block) : Type 0 where
    pub stored : b.keeper.upgrade_plan ≡ found plan
    pub due : x.should_execute plan b.info.height ≡ true
    pub unskipped : b.keeper.is_skip_height b.info.height ≡ false
    pub unhandled : b.keeper.has_handler plan.name ≡ false

  announce-no_halt : (plan : Plan) (n : Notifier) → halts (announce x webhook plan n).0 ≡ []
  unfolding announce halts
  announce-no_halt plan n =
      elim (Bool-cases (x.encodes_upgrade (nexus_node.Alerts.upgrade_log plan))) [
        | inr bad ↦ rw bad refl
        | inl good ↦ elim (Bool-cases webhook) [
          | inl on ↦ rw (good, on) refl
          | inr off ↦ rw (good, off) refl
        ]
      ]

  log_plan-no_halt :
      (b : BlockInfo) (r : PlanReply) (n : Notifier) → halts (log_plan x webhook b r n).0 ≡ []
  unfolding log_plan halts
  log_plan-no_halt b no_plan n = refl
  log_plan-no_halt b unreadable n = refl
  log_plan-no_halt b (found plan) n = ground (arith, announce-no_halt plan n)

  pre_blocker-halts :
      (b : Block) (n : Notifier)
      → halts (pre_blocker x webhook b.keeper b.info tt n).0
        ≡ halts (log_halt x webhook b.keeper b.info b.keeper.upgrade_plan) ++ []
  unfolding pre_blocker log_halt_if_triggered maybe_log_new_plan
  pre_blocker-halts b n =
      let halt = log_halt x webhook b.keeper b.info b.keeper.upgrade_plan in
      let more = (maybe_log_new_plan x webhook b.keeper b.info n).0 in
      halts-append halt more
      ∙ ap (λ s. halts halt ++ s) (log_plan-no_halt b.info b.keeper.upgrade_plan n)

  halted :
      (plan : Plan) (b : Block) (n : Notifier)
      → IsHalt plan b
      → x.encodes_halt (halt_log plan b.info) ≡ true
      → (halts (pre_blocker x webhook b.keeper b.info tt n).0 ≡ halt_log plan b.info ∷ [])
        × (scheduled (pre_blocker x webhook b.keeper b.info tt n).0 ≡ [])
  unfolding log_halt halt_alerts maybe_log_new_plan log_plan halts scheduled
  halted plan b n h encodes = elim (Bool-cases webhook) [
    | inl on ↦ (
      pre_blocker-halts b n ∙ rw (h.stored, h.due, h.unskipped, h.unhandled, encodes, on) refl,
      pre_blocker-scheduled x webhook b n ∙ rw (h.stored, h.due) refl,
    )
    | inr off ↦ (
      pre_blocker-halts b n ∙ rw (h.stored, h.due, h.unskipped, h.unhandled, encodes, off) refl,
      pre_blocker-scheduled x webhook b n ∙ rw (h.stored, h.due) refl,
    )
  ]

  IsHalt-cases :
      (b : Block)
      → ((plan : Plan) × IsHalt plan b)
        ⊎ (((plan : Plan) → ¬ IsHalt plan b)
            × (halts (log_halt x webhook b.keeper b.info b.keeper.upgrade_plan) ≡ []))
  unfolding log_halt halts
  IsHalt-cases b = elim (reply-cases b.keeper.upgrade_plan) [
    | inl (plan, e) ↦ elim (Bool-cases (x.should_execute plan b.info.height)) [
      | inr ahead ↦ inr ((λ p h. ground (arith, h.stored, h.due)), rw (e, ahead) refl)
      | inl due ↦ elim (Bool-cases (b.keeper.is_skip_height b.info.height)) [
        | inl skip ↦ inr ((λ p h. ground (arith, h.unskipped)), rw (e, due, skip) refl)
        | inr go ↦ elim (Bool-cases (b.keeper.has_handler plan.name)) [
          | inl able ↦
              inr ((λ p h. ground (arith, h.stored, h.unhandled)), rw (e, due, go, able) refl)
          | inr unable ↦
              inl (plan, record { stored = e; due = due; unskipped = go; unhandled = unable })
        ]
      ]
    ]
    | inr (inl e) ↦ inr ((λ p h. ground (arith, h.stored)), rw e refl)
    | inr (inr e) ↦ inr ((λ p h. ground (arith, h.stored)), rw e refl)
  ]

  -- When logs are encoded, `PreBlocker` logs `halt_triggered`, once and with the fields of plan and
  -- block, exactly at a block that is a plan's, whose height is not to be skipped and whose binary has no
  -- handler for the plan; and a block at which it does has no `upgrade_scheduled`.
  pub pre_blocker-IsHalt :
      (b : Block) (n : Notifier)
      → ((log : HaltLog) → x.encodes_halt log ≡ true)
      → ((plan : Plan) × IsHalt plan b
          × (halts (pre_blocker x webhook b.keeper b.info tt n).0 ≡ halt_log plan b.info ∷ [])
          × (scheduled (pre_blocker x webhook b.keeper b.info tt n).0 ≡ []))
        ⊎ (((plan : Plan) → ¬ IsHalt plan b)
            × (halts (pre_blocker x webhook b.keeper b.info tt n).0 ≡ []))
  pre_blocker-IsHalt b n encodes = elim (IsHalt-cases b) [
    | inl (plan, h) ↦
        let (once, alone) = halted plan b n h (encodes (halt_log plan b.info)) in
        inl (plan, h, once, alone)
    | inr (other, quiet) ↦ inr (other, pre_blocker-halts b n ∙ ap (λ s. s ++ []) quiet)
  ]
