-- ===== src/Alerts.antt =====
-- cosmos/app/upgrade_logging.go, cosmos/app/halt_logging.go and `PreBlocker` of cosmos/app/app.go: the
-- alerts on software upgrades. What the upgrade keeper answers at a block is an argument, and so are
-- the JSON encoder and the modules' own PreBlock.
pub mod Webhook
pub mod Once
pub mod Halts
mod Tests
use nexus_node.Common.{
  ℕ, Bool, true, false, not, ◌&&◌, Option, none, some, List, [], ◌∷◌, ◌++◌, String, str_eq, ◌==◌,
  if◌then◌else◌,
}

-- `upgradetypes.Plan`, of which the alerts read these fields.
pub record Plan : Type 0 where
  pub name : String
  pub height : ℕ
  pub info : String

-- What `GetUpgradePlan` returns.
pub data PlanReply : Type 0 where
  found : Plan → PlanReply
  no_plan unreadable : PlanReply

-- The upgrade keeper at a block.
pub record UpgradeKeeper : Type 0 where
  pub upgrade_plan : PlanReply
  pub is_skip_height : ℕ → Bool
  pub has_handler : String → Bool

-- `HeaderInfo().Height` and `BlockTime()` of the context.
pub record BlockInfo : Type 0 where
  pub height : ℕ
  pub time : ℕ

-- `timestamp` is the block's time, which the log writes as text.
pub record HaltLog : Type 0 where
  pub plan_name : String
  pub height : ℕ
  pub info : String
  pub timestamp : ℕ

pub record UpgradeLog : Type 0 where
  pub name : String
  pub height : ℕ
  pub info : String

-- What the two loggers give out, in order: lines of the log, and posts to the webhook.
pub data Alert : Type 0 where
  read_failed marshal_failed : Alert
  halt_logged halt_posted : HaltLog → Alert
  upgrade_logged upgrade_posted : UpgradeLog → Alert

-- What the upgrade module and the JSON encoder decide: when a plan is due at a height
-- (`Plan.ShouldExecute`), and whether a log is encoded.
pub record AlertLibraries : Type 0 where
  pub should_execute : Plan → ℕ → Bool
  pub encodes_halt : HaltLog → Bool
  pub encodes_upgrade : UpgradeLog → Bool

-- The fields of `upgradeNotifier` behind its mutex.
pub record Notifier : Type 0 where
  pub last_logged_ok : Bool
  pub last_name : String
  pub last_height : ℕ
  pub last_info : String

-- `newUpgradeNotifier`, and what `forgetLastPlan` leaves.
abbrev pub forget_last_plan : Notifier
forget_last_plan = record {
  last_logged_ok = false;
  last_name = "";
  last_height = 0;
  last_info = "";
}

abbrev pub halt_log : Plan → BlockInfo → HaltLog
halt_log plan b = record {
  plan_name = plan.name;
  height = b.height;
  info = plan.info;
  timestamp = b.time;
}

abbrev pub upgrade_log : Plan → UpgradeLog
upgrade_log plan = record { name = plan.name; height = plan.height; info = plan.info }

-- The comparison with the plan logged last.
pub remembers : Notifier → Plan → Bool
remembers n plan =
    n.last_logged_ok
    && (str_eq n.last_name plan.name
        && (n.last_height == plan.height && str_eq n.last_info plan.info))

abbrev pub remember : Plan → Notifier
remember plan = record {
  last_logged_ok = true;
  last_name = plan.name;
  last_height = plan.height;
  last_info = plan.info;
}

module _ (x : AlertLibraries) (webhook : Bool) where
  halt_alerts : HaltLog → List Alert
  halt_alerts log =
      if x.encodes_halt log
      then Alert.halt_logged log ∷ (if webhook then Alert.halt_posted log ∷ [] else [])
      else Alert.marshal_failed ∷ []

  log_halt : UpgradeKeeper → BlockInfo → PlanReply → List Alert
  unfolding halt_alerts
  log_halt k b unreadable = Alert.read_failed ∷ []
  log_halt k b no_plan = []
  log_halt k b (found plan) =
      if not (x.should_execute plan b.height)
      then []
      else if k.is_skip_height b.height
      then []
      else if k.has_handler plan.name
      then []
      else halt_alerts (halt_log plan b)

  -- `logHaltIfTriggered`
  pub log_halt_if_triggered : UpgradeKeeper → BlockInfo → List Alert
  unfolding log_halt
  log_halt_if_triggered k b = log_halt k b k.upgrade_plan

  announce : Plan → Notifier → List Alert × Notifier
  announce plan n =
      if x.encodes_upgrade (upgrade_log plan)
      then (
        Alert.upgrade_logged (upgrade_log plan)
            ∷ (if webhook then Alert.upgrade_posted (upgrade_log plan) ∷ [] else []),
        remember plan,
      )
      else (Alert.marshal_failed ∷ [], n)

  log_plan : BlockInfo → PlanReply → Notifier → List Alert × Notifier
  unfolding remembers announce
  log_plan b no_plan n = ([], forget_last_plan)
  log_plan b unreadable n = (Alert.read_failed ∷ [], n)
  log_plan b (found plan) n =
      if x.should_execute plan b.height
      then ([], n)
      else if remembers n plan
      then ([], n)
      else announce plan n

  -- `MaybeLogNewPlan` of a notifier that has a keeper, as the application's does.
  pub maybe_log_new_plan : UpgradeKeeper → BlockInfo → Notifier → List Alert × Notifier
  unfolding log_plan
  maybe_log_new_plan k b n = log_plan b k.upgrade_plan n

  -- `PreBlocker`; `pre_block` is the module manager's.
  pub pre_blocker :
      {M : Type 0} → UpgradeKeeper → BlockInfo → M → Notifier → List Alert × Notifier × M
  pre_blocker k b pre_block n =
      let (logged, n') = maybe_log_new_plan k b n in
      (log_halt_if_triggered k b ++ logged, n', pre_block)
