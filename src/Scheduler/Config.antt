-- ===== src/Scheduler/Config.antt =====
-- scheduler/config.py: the configuration and the checks that loading it makes.
use investing_agents.Prelude.{Bool, not, ◌||◌, String, str_eq, List, any, is_empty, if◌then◌else◌}
use investing_agents.Result.{Result, ok, err, scheduler_configuration}
use investing_agents.Int.{ℤ, pos, ltb_ℤ, leb_ℤ}

pub record SchedulerConfig : Type 0 where
  pub enabled : Bool
  pub environment : String
  pub broker_submission_enabled : Bool
  pub per_order_human_approval_required : Bool
  pub approval_ttl_seconds : ℤ
  pub heartbeat_interval_seconds : ℤ
  pub minimum_trading_sessions : ℤ
  pub minimum_approved_mutation_cycles : ℤ
  pub required_fault_drills : List String

-- What `load` does with the configuration that it has parsed.
unfoldable pub check_config : SchedulerConfig → Result SchedulerConfig
check_config c =
    if not (str_eq c.environment "demo")
    then err (scheduler_configuration "scheduler supports Demo only")
    else if c.broker_submission_enabled
    then err (scheduler_configuration "scheduler may never receive broker submission capability")
    else if not c.per_order_human_approval_required
    then err (scheduler_configuration "every scheduled order requires approval")
    else if leb_ℤ c.approval_ttl_seconds (pos 0) || ltb_ℤ (pos 300) c.approval_ttl_seconds
    then err (scheduler_configuration "approval TTL exceeds the five-minute cap")
    else if leb_ℤ c.heartbeat_interval_seconds (pos 0)
    then err (scheduler_configuration "heartbeat interval must be positive")
    else if ltb_ℤ c.minimum_trading_sessions (pos 30)
    then err (scheduler_configuration "Gate C requires at least 30 sessions")
    else if ltb_ℤ c.minimum_approved_mutation_cycles (pos 20)
    then err (scheduler_configuration "Gate C requires at least 20 cycles")
    else if is_empty c.required_fault_drills || any (λ item. str_eq item "") c.required_fault_drills
    then err (scheduler_configuration "required fault drills are incomplete")
    else ok c
