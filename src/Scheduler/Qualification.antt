-- ===== src/Scheduler/Qualification.antt =====
-- scheduler/qualification.py: the gate that compares the schedule store with the configuration. A
-- blocker is a value for its text; the sorting of the drills in the text is left out.
pub mod Drills
pub mod Exact
use investing_agents.Prelude.{
  ℕ, ◌+◌, Bool, true, false, not, ◌&&◌, ◌||◌, ◌==◌, String, str_eq, List, [], ◌∷◌, ◌++◌, map, any,
  keep, length, is_empty, if◌then◌else◌,
}
use investing_agents.Int.{ℤ, pos, ltb_ℤ, eqb_ℤ}
use investing_agents.Domain.Types.{CommandState, reconciled, risk_rejected}
use investing_agents.Domain.Command.{BrokerCommand}
use investing_agents.Store.Tables.{ExecutionStore, CommandRow}
use investing_agents.Scheduler.Tables.{
  ScheduleTables, ScheduleRun, MutationCycle, FaultDrill, is_succeeded,
}
use investing_agents.Scheduler.Config.{SchedulerConfig}

pub data Blocker : Type 0 where
  trading_sessions_missing approved_cycles_missing : ℕ → ℤ → Blocker
  runs_not_clean duplicate_order_evidence unresolved_cycle unverified_recovery : Blocker
  missing_fault_drills failed_fault_drills : List String → Blocker
  commands_unresolved : Blocker

pub record QualificationReport : Type 0 where
  pub qualified : Bool
  pub trading_sessions : ℕ
  pub approved_mutation_cycles : ℕ
  pub blockers : List Blocker

abbrev pub is_clean : ScheduleRun → Bool
is_clean r =
    is_succeeded r.state
    && r.finalization_passed
    && r.nightly_passed
    && eqb_ℤ r.duplicate_orders (pos 0)
    && eqb_ℤ r.unresolved_reconciliation (pos 0)

-- The number of different values, `len({…})`.
unfoldable pub count_distinct : List ℕ → ℕ
count_distinct [] = 0
count_distinct (x ∷ xs) =
    let rest = count_distinct xs in if any (λ y. y == x) xs then rest else 1 + rest

abbrev pub is_unresolved : CommandState → Bool
is_unresolved reconciled = false
is_unresolved risk_rejected = false
is_unresolved _ = true

-- `list_commands` of the execution store for the states that pass a test, in the table's order.
unfoldable pub list_commands : (CommandState → Bool) → ExecutionStore → List BrokerCommand
list_commands wanted s =
    map (λ (r : CommandRow). r.command)
      (keep (λ (r : CommandRow). wanted r.command.state) s.broker_commands)

abbrev pub passed_named : String → FaultDrill → Bool
passed_named name d = str_eq d.drill_name name && d.passed

-- `set(required) - passed_drills`
abbrev pub missing_drills : List String → List FaultDrill → List String
missing_drills required drills = keep (λ name. not (any (passed_named name) drills)) required

abbrev pub is_failed_of : List String → FaultDrill → Bool
is_failed_of required d = any (str_eq d.drill_name) required && not d.passed

abbrev pub failed_drills : List String → List FaultDrill → List String
failed_drills required drills =
    map (λ (d : FaultDrill). d.drill_name) (keep (is_failed_of required) drills)

-- `if test: blockers.append(blocker)`
abbrev pub when : Bool → Blocker → List Blocker
when test blocker = if test then blocker ∷ [] else []

unfoldable pub evaluate_gate_c :
    ScheduleTables → ExecutionStore → SchedulerConfig → QualificationReport
evaluate_gate_c t store c =
    let clean_runs = keep is_clean t.schedule_runs in
    let sessions = count_distinct (map (λ (r : ScheduleRun). r.trading_session) clean_runs) in
    let approved_cycles = keep (λ (k : MutationCycle). k.manually_approved) t.mutation_cycles in
    let missing = missing_drills c.required_fault_drills t.fault_drills in
    let failed = failed_drills c.required_fault_drills t.fault_drills in
    let blockers =
      when (ltb_ℤ (pos sessions) c.minimum_trading_sessions)
        (trading_sessions_missing sessions c.minimum_trading_sessions)
      ++ when (not (length clean_runs == length t.schedule_runs)) runs_not_clean
      ++ when (ltb_ℤ (pos (length approved_cycles)) c.minimum_approved_mutation_cycles)
          (approved_cycles_missing (length approved_cycles) c.minimum_approved_mutation_cycles)
      ++ when (any (λ (k : MutationCycle). k.duplicate_detected) t.mutation_cycles)
          duplicate_order_evidence
      ++ when (any (λ (k : MutationCycle). not k.reconciliation_resolved) t.mutation_cycles)
          unresolved_cycle
      ++ when (any (λ (k : MutationCycle). not k.recovery_verified) t.mutation_cycles)
          unverified_recovery
      ++ when (not (is_empty missing)) (missing_fault_drills missing)
      ++ when (not (is_empty failed)) (failed_fault_drills failed)
      ++ when (not (is_empty (list_commands is_unresolved store))) commands_unresolved in
    record {
      qualified = is_empty blockers;
      trading_sessions = sessions;
      approved_mutation_cycles = length approved_cycles;
      blockers = blockers;
    }
