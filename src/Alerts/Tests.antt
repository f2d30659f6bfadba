-- ===== src/Alerts/Tests.antt =====
-- A plan that is scheduled, cancelled, scheduled again and reached, and a webhook that answers 503.
use nexus_node.Common.{
  ℕ, ◌+◌, ◌≤◌, ◌≡◌, ◌⊎◌, inl, inr, refl, true, false, List, [], ◌∷◌, ◌==◌, arith,
}
use nexus_node.Alerts.{
  Plan, PlanReply, found, no_plan, unreadable, AlertLibraries, forget_last_plan, halt_log,
  upgrade_log, remembers, pre_blocker,
}
use nexus_node.Alerts.Once.{Block, scheduled, halts, run, plan_logged_once}
use nexus_node.Alerts.Halts.{IsHalt, pre_blocker-IsHalt}
use nexus_node.Alerts.Webhook.{
  PostReply, status, PostLaws, new_webhook_notifier, notify, attempts, post_once, notify_bounded,
}

abbrev plan : Plan
plan = record { name = "v2"; height = 9; info = "notes" }

abbrev x : AlertLibraries
x = record {
  should_execute = λ p h. p.height == h;
  encodes_halt = λ log. true;
  encodes_upgrade = λ log. true;
}

abbrev at : PlanReply → ℕ → Block
at reply h = record {
  keeper = record {
    upgrade_plan = reply;
    is_skip_height = λ height. false;
    has_handler = λ name. false;
  };
  info = record { height = h; time = 50 };
}

fresh : remembers forget_last_plan plan ≡ false
unfolding remembers
fresh = refl

abbrev blocks : List Block
blocks =
    at (found plan) 3 ∷ at unreadable 4 ∷ at no_plan 5 ∷ at (found plan) 6 ∷ at (found plan) 9 ∷ []

plan_logged_once_example :
    (scheduled (run x true (at (found plan) 3 ∷ at unreadable 4 ∷ []) forget_last_plan).0
      ≡ upgrade_log plan ∷ [])
    × (scheduled (run x true blocks forget_last_plan).0 ≡ upgrade_log plan ∷ upgrade_log plan ∷ [])
plan_logged_once_example =
    plan_logged_once x true plan forget_last_plan (at (found plan) 3) (at no_plan 5)
      (at (found plan) 6) (at unreadable 4 ∷ []) (at (found plan) 9 ∷ []) refl fresh
      (record { stored = refl; ahead = refl }) (inr refl, tt) refl
      (record { stored = refl; ahead = refl }) (inl refl, tt)

pre_blocker-IsHalt_example :
    ((p : Plan) × IsHalt x true p (at (found plan) 9)
      × (halts
            (pre_blocker x true
              (at (found plan) 9).keeper
              (at (found plan) 9).info
              tt
              forget_last_plan).0
          ≡ halt_log p (at (found plan) 9).info ∷ [])
      × (scheduled
            (pre_blocker x true
              (at (found plan) 9).keeper
              (at (found plan) 9).info
              tt
              forget_last_plan).0
          ≡ []))
    ⊎ (((p : Plan) → ¬ IsHalt x true p (at (found plan) 9))
        × (halts
              (pre_blocker x true
                (at (found plan) 9).keeper
                (at (found plan) 9).info
                tt
                forget_last_plan).0
            ≡ []))
pre_blocker-IsHalt_example =
    pre_blocker-IsHalt x true (at (found plan) 9) forget_last_plan (λ log. refl)

-- The number of posts and the time.
abbrev Line : Type 0
Line = ℕ × ℕ

abbrev post : Line → PostReply × Line
post (n, t) = (status 503, (n + 1, t + 40))

abbrev sleep : ℕ → Line → Line
sleep d (n, t) = (n, t + d)

busy : notify post sleep (new_webhook_notifier "http://hook") true (0, 0) ≡ (false, (3, 3120))
unfolding notify attempts post_once
busy = refl

post_laws : PostLaws post sleep (λ w. w.0) (λ w. w.1)
post_laws = record {
  counted = λ w. refl;
  timely = λ w. omega arith;
  quiet = λ d w. refl;
  sleeps = λ d w. refl;
}

notify_bounded_example :
    ((notify post sleep (new_webhook_notifier "http://hook") true (0, 0)).1.0 ≤ 3)
    × ((notify post sleep (new_webhook_notifier "http://hook") true (0, 0)).1.1 ≤ 18000)
notify_bounded_example =
    notify_bounded post sleep (λ w. w.0) (λ w. w.1) post_laws "http://hook" true (0, 0)
