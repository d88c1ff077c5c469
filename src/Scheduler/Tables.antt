-- ===== src/Scheduler/Tables.antt =====
-- scheduler/store.py: the tables of the schedule store. A trading session is a day number, and a text
-- that is no ISO date is a missing one. An identity that `uuid4` draws is an argument.
use investing_agents.Prelude.{ℕ, Bool, true, false, String, str_eq, Option, List, [], ◌==◌, ◌&&◌}
use investing_agents.Int.{ℤ}
use investing_agents.Domain.Types.{Uuid, Digest, Instant}

pub data RunState : Type 0 where
  started succeeded failed : RunState

pub data WaitState : Type 0 where
  awaiting approved expired : WaitState

abbrev pub is_started : RunState → Bool
is_started started = true
is_started succeeded = false
is_started failed = false

abbrev pub is_succeeded : RunState → Bool
is_succeeded succeeded = true
is_succeeded started = false
is_succeeded failed = false

abbrev pub is_awaiting : WaitState → Bool
is_awaiting awaiting = true
is_awaiting approved = false
is_awaiting expired = false

pub record ScheduleRun : Type 0 where
  pub schedule_run_id : Uuid
  pub trading_session : ℕ
  pub pipeline_run_id : String
  pub state : RunState
  pub started_at : Instant
  pub completed_at : Option Instant
  pub finalization_passed : Bool
  pub nightly_passed : Bool
  pub duplicate_orders : ℤ
  pub unresolved_reconciliation : ℤ
  pub failure : String

pub record ApprovalWait : Type 0 where
  pub wait_id : Uuid
  pub schedule_run_id : Uuid
  pub command_id : Uuid
  pub intent_hash : Digest
  pub state : WaitState
  pub requested_at : Instant
  pub expires_at : Instant
  pub approval_id : Option Uuid
  pub operator_id : String
  pub resolved_at : Option Instant

pub record Heartbeat : Type 0 where
  pub heartbeat_id : Uuid
  pub beating_run : Uuid
  pub recorded_at : Instant
  pub phase : String

pub record OperatorAction : Type 0 where
  pub action_id : Uuid
  pub acting_run : Option Uuid
  pub operator_id : String
  pub action : String
  pub reason : String
  pub recorded_at : Instant

pub record MutationCycle : Type 0 where
  pub cycle_id : Uuid
  pub trading_session : ℕ
  pub command_id : Uuid
  pub manually_approved : Bool
  pub terminal_state : String
  pub duplicate_detected : Bool
  pub reconciliation_resolved : Bool
  pub recovery_verified : Bool
  pub recorded_at : Instant

pub record FaultDrill : Type 0 where
  pub drill_id : Uuid
  pub trading_session : ℕ
  pub drill_name : String
  pub passed : Bool
  pub evidence_checksum : Digest
  pub recorded_at : Instant

pub record ScheduleTables : Type 0 where
  pub schedule_runs : List ScheduleRun
  pub approval_waits : List ApprovalWait
  pub heartbeats : List Heartbeat
  pub operator_actions : List OperatorAction
  pub mutation_cycles : List MutationCycle
  pub fault_drills : List FaultDrill

abbrev pub empty_schedule : ScheduleTables
empty_schedule = record {
  schedule_runs = [];
  approval_waits = [];
  heartbeats = [];
  operator_actions = [];
  mutation_cycles = [];
  fault_drills = [];
}

abbrev pub run_key : ScheduleRun → Uuid
run_key r = r.schedule_run_id

abbrev pub wait_key : ApprovalWait → Uuid
wait_key w = w.wait_id

abbrev pub waiting_command : ApprovalWait → Uuid
waiting_command w = w.command_id

abbrev pub heartbeat_key : Heartbeat → Uuid
heartbeat_key h = h.heartbeat_id

abbrev pub action_key : OperatorAction → Uuid
action_key a = a.action_id

abbrev pub cycle_key : MutationCycle → Uuid
cycle_key c = c.cycle_id

abbrev pub cycle_command : MutationCycle → Uuid
cycle_command c = c.command_id

abbrev pub drill_key : FaultDrill → Uuid
drill_key d = d.drill_id

abbrev pub is_pipeline : String → ScheduleRun → Bool
is_pipeline text r = str_eq r.pipeline_run_id text

-- UNIQUE(trading_session, drill_name)
abbrev pub is_drill : ℕ → String → FaultDrill → Bool
is_drill session name d = d.trading_session == session && str_eq d.drill_name name
