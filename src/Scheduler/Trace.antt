-- ===== src/Scheduler/Trace.antt =====
-- scheduler/store.py: calls of the schedule store, in any order.
pub mod Changes
pub mod Settled
pub mod Sound
pub mod OneWait
pub mod Machines
pub mod RunSteps
pub mod WaitSteps
pub mod Refines
use investing_agents.Prelude.{ℕ, Bool, String, Option, List, [], ◌∷◌}
use investing_agents.Domain.Types.{Uuid, Digest, Instant}
use investing_agents.Scheduler.Tables.{ScheduleTables}
use investing_agents.Scheduler.Runs.{
  RunOutcome, CycleEvidence, start_run, heartbeat, finish_run, record_operator_action,
  record_mutation_cycle, record_fault_drill,
}
use investing_agents.Scheduler.Waits.{request_approval, approve_wait, expire_approvals}

-- The methods that write, each with its arguments.
pub data ScheduleCall : Type 0 where
  starts : Uuid → Option ℕ → String → Instant → ScheduleCall
  beats : Uuid → Uuid → String → Instant → ScheduleCall
  finishes : Uuid → RunOutcome → Instant → ScheduleCall
  requests : Uuid → Uuid → Uuid → Digest → Instant → Instant → ScheduleCall
  approves : Uuid → Uuid → String → Instant → Bool → ScheduleCall
  expires : Instant → ScheduleCall
  acts : Uuid → String → String → String → Instant → Option Uuid → ScheduleCall
  cycles : Uuid → Option ℕ → Uuid → String → CycleEvidence → Instant → ScheduleCall
  drills : (String → Digest) → Uuid → Option ℕ → String → Bool → String → Instant → ScheduleCall

unfoldable pub perform_schedule : ScheduleCall → ScheduleTables → ScheduleTables
perform_schedule (starts id session pipeline now) s = (start_run id session pipeline now s).1
perform_schedule (beats id run phase now) s = (heartbeat id run phase now s).1
perform_schedule (finishes id o now) s = (finish_run id o now s).1
perform_schedule (requests id run command hash from until) s =
    (request_approval id run command hash from until s).1
perform_schedule (approves id approval operator now human) s =
    (approve_wait id approval operator now human s).1
perform_schedule (expires now) s = (expire_approvals now s).1
perform_schedule (acts id operator action reason now run) s =
    (record_operator_action id operator action reason now run s).1
perform_schedule (cycles id session command terminal e now) s =
    (record_mutation_cycle id session command terminal e now s).1
perform_schedule (drills digest id session name passed evidence now) s =
    (record_fault_drill digest id session name passed evidence now s).1

unfoldable pub run_schedule : List ScheduleCall → ScheduleTables → ScheduleTables
run_schedule [] s = s
run_schedule (call ∷ rest) s = run_schedule rest (perform_schedule call s)

-- What every call preserves, every run of calls does.
pub run_schedule-preserves :
    (P : ScheduleTables → Type 0)
    → ((call : ScheduleCall) (s : ScheduleTables) → P s → P (perform_schedule call s))
    → (calls : List ScheduleCall) (s : ScheduleTables) → P s
    → P (run_schedule calls s)
unfolding run_schedule
run_schedule-preserves P keeps [] s h = h
run_schedule-preserves P keeps (call ∷ rest) s h =
    run_schedule-preserves P keeps rest (perform_schedule call s) (keeps call s h)
