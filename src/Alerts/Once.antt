-- ===== src/Alerts/Once.antt =====
-- Which alerts a chain gives out over its blocks.
use nexus_node.Common.{
  ◌≡◌, ◌⊎◌, inl, inr, refl, ◌∙◌, ap, Bool, true, false, List, [], ◌∷◌, ◌++◌, All, eq_iff,
  Bool-cases, arith,
}
use nexus_node.Alerts.{
  Plan, PlanReply, found, no_plan, unreadable, UpgradeKeeper, BlockInfo, HaltLog, UpgradeLog, Alert,
  AlertLibraries, Notifier, forget_last_plan, halt_log, halt_alerts, log_halt,
  log_halt_if_triggered, upgrade_log, remembers, remember, announce, log_plan, maybe_log_new_plan,
  pre_blocker,
}

-- The `upgrade_scheduled` and the `halt_triggered` events of the log, in order.
unfoldable pub scheduled : List Alert → List UpgradeLog
scheduled [] = []
scheduled (Alert.upgrade_logged log ∷ alerts) = log ∷ scheduled alerts
scheduled (_ ∷ alerts) = scheduled alerts

unfoldable pub halts : List Alert → List HaltLog
halts [] = []
halts (Alert.halt_logged log ∷ alerts) = log ∷ halts alerts
halts (_ ∷ alerts) = halts alerts

pub scheduled-append : (a b : List Alert) → scheduled (a ++ b) ≡ scheduled a ++ scheduled b
unfolding scheduled
scheduled-append [] b = refl
scheduled-append (Alert.read_failed ∷ a) b = scheduled-append a b
scheduled-append (Alert.marshal_failed ∷ a) b = scheduled-append a b
scheduled-append (Alert.halt_logged l ∷ a) b = scheduled-append a b
scheduled-append (Alert.halt_posted l ∷ a) b = scheduled-append a b
scheduled-append (Alert.upgrade_logged l ∷ a) b = ap (λ s. l ∷ s) (scheduled-append a b)
scheduled-append (Alert.upgrade_posted l ∷ a) b = scheduled-append a b

pub halts-append : (a b : List Alert) → halts (a ++ b) ≡ halts a ++ halts b
unfolding halts
halts-append [] b = refl
halts-append (Alert.read_failed ∷ a) b = halts-append a b
halts-append (Alert.marshal_failed ∷ a) b = halts-append a b
halts-append (Alert.halt_logged l ∷ a) b = ap (λ s. l ∷ s) (halts-append a b)
halts-append (Alert.halt_posted l ∷ a) b = halts-append a b
halts-append (Alert.upgrade_logged l ∷ a) b = halts-append a b
halts-append (Alert.upgrade_posted l ∷ a) b = halts-append a b

-- A block of the chain: what the upgrade keeper answers there, and its header.
pub record Block : Type 0 where
  pub keeper : UpgradeKeeper
  pub info : BlockInfo

module _ (x : AlertLibraries) (webhook : Bool) where
  -- The process over the blocks in order, with the alerts in order.
  unfoldable pub run : List Block → Notifier → List Alert × Notifier
  run [] n = ([], n)
  run (b ∷ blocks) n =
      let (alerts, n1, done) = pre_blocker x webhook b.keeper b.info tt n in
      let (rest, n2) = run blocks n1 in (alerts ++ rest, n2)

  halt_alerts-unscheduled : (log : HaltLog) → scheduled (halt_alerts x webhook log) ≡ []
  unfolding halt_alerts scheduled
  halt_alerts-unscheduled log = elim (Bool-cases (x.encodes_halt log)) [
    | inl good ↦ elim (Bool-cases webhook) [
      | inl on ↦ rw (good, on) refl
      | inr off ↦ rw (good, off) refl
    ]
    | inr bad ↦ rw bad refl
  ]

  log_halt-unscheduled :
      (k : UpgradeKeeper) (b : BlockInfo) (r : PlanReply)
      → scheduled (log_halt x webhook k b r) ≡ []
  unfolding log_halt scheduled
  log_halt-unscheduled k b unreadable = refl
  log_halt-unscheduled k b no_plan = refl
  log_halt-unscheduled k b (found plan) = ground (arith, halt_alerts-unscheduled (halt_log plan b))

  pub pre_blocker-scheduled :
      (b : Block) (n : Notifier)
      → scheduled (pre_blocker x webhook b.keeper b.info tt n).0
        ≡ scheduled (maybe_log_new_plan x webhook b.keeper b.info n).0
  unfolding pre_blocker log_halt_if_triggered
  pre_blocker-scheduled b n =
      let halt = log_halt x webhook b.keeper b.info b.keeper.upgrade_plan in
      let more = (maybe_log_new_plan x webhook b.keeper b.info n).0 in
      scheduled-append halt more
      ∙ ap (λ s. s ++ scheduled more) (log_halt-unscheduled b.keeper b.info b.keeper.upgrade_plan)

  run-step :
      (b : Block) (blocks : List Block) (n : Notifier)
      → scheduled (run (b ∷ blocks) n).0
        ≡ scheduled (maybe_log_new_plan x webhook b.keeper b.info n).0
          ++ scheduled (run blocks (maybe_log_new_plan x webhook b.keeper b.info n).1).0
  unfolding run pre_blocker
  run-step b blocks n =
      let next = (maybe_log_new_plan x webhook b.keeper b.info n).1 in
      scheduled-append (pre_blocker x webhook b.keeper b.info tt n).0 (run blocks next).0
      ∙ ap (λ s. s ++ scheduled (run blocks next).0) (pre_blocker-scheduled b n)

  remembers-remember : (plan : Plan) → remembers (remember plan) plan ≡ true
  unfolding remembers
  remembers-remember plan = ground (arith, eq_iff plan.name plan.name, eq_iff plan.info plan.info)

  -- The block has the plan pending.
  pub record IsPending (plan : Plan) (b : Block) : Type 0 where
    pub stored : b.keeper.upgrade_plan ≡ found plan
    pub ahead : x.should_execute plan b.info.height ≡ false

  -- The plan is still stored at the block, due or not, or the store cannot be read.
  abbrev pub Stays : Plan → Block → Type 0
  Stays plan b = (b.keeper.upgrade_plan ≡ found plan) ⊎ (b.keeper.upgrade_plan ≡ unreadable)

  Stays-silent :
      (plan : Plan) (b : Block) (n : Notifier)
      → Stays plan b
      → remembers n plan ≡ true
      → maybe_log_new_plan x webhook b.keeper b.info n ≡ ([], n)
        ⊎ maybe_log_new_plan x webhook b.keeper b.info n ≡ (Alert.read_failed ∷ [], n)
  unfolding maybe_log_new_plan log_plan
  Stays-silent plan b n (inl stored) known =
      elim (Bool-cases (x.should_execute plan b.info.height)) [
        | inl due ↦ inl (rw (stored, due) refl)
        | inr ahead ↦ inl (rw (stored, ahead, known) refl)
      ]
  Stays-silent plan b n (inr broken) known = inr (rw broken refl)

  -- While the plan logged last stays, nothing more is scheduled.
  silent-step :
      (plan : Plan) (b : Block) (blocks : List Block) (n : Notifier)
      → Stays plan b
      → remembers n plan ≡ true
      → scheduled (run (b ∷ blocks) n).0 ≡ scheduled (run blocks n).0
  unfolding scheduled
  silent-step plan b blocks n stays known = elim (Stays-silent plan b n stays known) [
    | inl quiet ↦ run-step b blocks n ∙ rw quiet refl
    | inr failed ↦ run-step b blocks n ∙ rw failed refl
  ]

  silent-run :
      (plan : Plan) (xs ys : List Block) (n : Notifier)
      → All (Stays plan) xs
      → remembers n plan ≡ true
      → scheduled (run (xs ++ ys) n).0 ≡ scheduled (run ys n).0
  silent-run plan [] ys n stays known = refl
  silent-run plan (b ∷ xs) ys n (here, stays) known =
      silent-step plan b (xs ++ ys) n here known ∙ silent-run plan xs ys n stays known

  silent :
      (plan : Plan) (xs : List Block) (n : Notifier)
      → All (Stays plan) xs
      → remembers n plan ≡ true
      → scheduled (run xs n).0 ≡ []
  unfolding run scheduled
  silent plan [] n stays known = refl
  silent plan (b ∷ xs) n (here, stays) known =
      silent-step plan b xs n here known ∙ silent plan xs n stays known

  -- A pending plan that is new to the notifier is logged.
  pending-step :
      (plan : Plan) (b : Block) (blocks : List Block) (n : Notifier)
      → IsPending plan b
      → x.encodes_upgrade (upgrade_log plan) ≡ true
      → remembers n plan ≡ false
      → scheduled (run (b ∷ blocks) n).0
        ≡ upgrade_log plan ∷ scheduled (run blocks (remember plan)).0
  unfolding maybe_log_new_plan log_plan announce scheduled
  pending-step plan b blocks n pending encodes new = elim (Bool-cases webhook) [
    | inl on ↦ run-step b blocks n ∙ rw (pending.stored, pending.ahead, new, encodes, on) refl
    | inr off ↦ run-step b blocks n ∙ rw (pending.stored, pending.ahead, new, encodes, off) refl
  ]

  cancel-step :
      (b : Block) (blocks : List Block) (n : Notifier)
      → b.keeper.upgrade_plan ≡ no_plan
      → scheduled (run (b ∷ blocks) n).0 ≡ scheduled (run blocks forget_last_plan).0
  unfolding maybe_log_new_plan log_plan scheduled
  cancel-step b blocks n cancelled = run-step b blocks n ∙ rw cancelled refl

  remembers-forget : (plan : Plan) → remembers forget_last_plan plan ≡ false
  unfolding remembers
  remembers-forget plan = refl

  -- A plan that is stored and not due is logged as scheduled once, however many blocks it stays, due
  -- or unreadable ones included, whatever the process remembered, as long as it was not this plan; and
  -- when it is cancelled and the same plan is stored again, it is logged once more.
  pub plan_logged_once :
      (plan : Plan) (n : Notifier) (first gap again : Block) (xs ys : List Block)
      → x.encodes_upgrade (upgrade_log plan) ≡ true
      → remembers n plan ≡ false
      → IsPending plan first
      → All (Stays plan) xs
      → gap.keeper.upgrade_plan ≡ no_plan
      → IsPending plan again
      → All (Stays plan) ys
      → (scheduled (run (first ∷ xs) n).0 ≡ upgrade_log plan ∷ [])
        × (scheduled (run (first ∷ (xs ++ (gap ∷ again ∷ ys))) n).0
            ≡ upgrade_log plan ∷ upgrade_log plan ∷ [])
  plan_logged_once plan n first gap again xs ys encodes new here stays cancelled there later =
      let known = remembers-remember plan in
      let cons = λ (s : List UpgradeLog). upgrade_log plan ∷ s in
      (
        pending-step plan first xs n here encodes new
            ∙ ap cons (silent plan xs (remember plan) stays known),
        pending-step plan first (xs ++ (gap ∷ again ∷ ys)) n here encodes new
            ∙ ap cons (
                silent-run plan xs (gap ∷ again ∷ ys) (remember plan) stays known
                ∙ cancel-step gap (again ∷ ys) (remember plan) cancelled
                ∙ pending-step plan again ys forget_last_plan there encodes (remembers-forget plan)
                ∙ ap cons (silent plan ys (remember plan) later known)),
      )
