-- ===== src/Scheduler/Runs.antt =====
-- scheduler/store.py: runs, heartbeats, operator actions, mutation cycles and fault drills.
use investing_agents.Prelude.{
  ℕ, suc, zero, ⊤, Bool, false, not, ◌||◌, String, str_eq, Option, none, some, ◌∷◌, any, is_none,
  if◌then◌else◌,
}
use investing_agents.Result.{ok, err, Action, schedule_store_error, integrity_error}
use investing_agents.Int.{ℤ, pos, ltb_ℤ}
use investing_agents.Table.{find, has, update}
use investing_agents.Domain.Types.{Uuid, Digest, Instant}
use investing_agents.Scheduler.Tables.{
  started, succeeded, failed, is_started, ScheduleRun, ScheduleTables, run_key, heartbeat_key,
  action_key, cycle_key, cycle_command, drill_key, is_pipeline, is_drill,
}

abbrev pub new_run : Uuid → ℕ → String → Instant → ScheduleRun
new_run run_id day pipeline now = record {
  schedule_run_id = run_id;
  trading_session = day;
  pipeline_run_id = pipeline;
  state = started;
  started_at = now;
  completed_at = none;
  finalization_passed = false;
  nightly_passed = false;
  duplicate_orders = pos 0;
  unresolved_reconciliation = pos 0;
  failure = "";
}

unfoldable pub start_run : Uuid → Option ℕ → String → Instant → Action ScheduleTables Uuid
start_run run_id session pipeline now s = elim session [
  | none ↦ (err (schedule_store_error "schedule run identity already exists or is invalid"), s)
  | some day ↦
      if has run_key run_id s.schedule_runs || any (is_pipeline pipeline) s.schedule_runs
      then (err (schedule_store_error "schedule run identity already exists or is invalid"), s)
      else (
        ok run_id,
        record s { schedule_runs = new_run run_id day pipeline now ∷ s.schedule_runs },
      )
]

unfoldable pub heartbeat : Uuid → Uuid → String → Instant → Action ScheduleTables ⊤
heartbeat heartbeat_id run_id phase now s =
    if str_eq phase ""
    then (err (schedule_store_error "heartbeat phase is required"), s)
    else if has heartbeat_key heartbeat_id s.heartbeats
        || is_none (find run_key run_id s.schedule_runs)
    then (err integrity_error, s)
    else (
      ok tt,
      record s {
        heartbeats =
            record {
              heartbeat_id = heartbeat_id;
              beating_run = run_id;
              recorded_at = now;
              phase = phase;
            }
            ∷ s.heartbeats;
      },
    )

-- The first characters of a text.
unfoldable pub cut : ℕ → String → String
cut zero text = ""
cut (suc n) String.[] = ""
cut (suc n) (String.◌∷◌ c text) = String.◌∷◌ c (cut n text)

-- The columns that `finish_run` sets, as its caller gives them.
pub record RunOutcome : Type 0 where
  pub is_success : Bool
  pub finalization : Bool
  pub nightly : Bool
  pub duplicates : ℤ
  pub unresolved : ℤ
  pub failure_text : String

abbrev pub finished : RunOutcome → Instant → ScheduleRun → ScheduleRun
finished o now r = record r {
  state = if o.is_success then succeeded else failed;
  completed_at = some now;
  finalization_passed = o.finalization;
  nightly_passed = o.nightly;
  duplicate_orders = o.duplicates;
  unresolved_reconciliation = o.unresolved;
  failure = cut 500 o.failure_text;
}

unfoldable pub finish_run : Uuid → RunOutcome → Instant → Action ScheduleTables ⊤
finish_run run_id o now s =
    if ltb_ℤ o.duplicates (pos 0) || ltb_ℤ o.unresolved (pos 0)
    then (err (schedule_store_error "run counters must not be negative"), s)
    else elim (find run_key run_id s.schedule_runs) [
      | none ↦ (err (schedule_store_error "schedule run is missing or already terminal"), s)
      | some r ↦
          if not (is_started r.state)
          then (err (schedule_store_error "schedule run is missing or already terminal"), s)
          else (
            ok tt,
            record s { schedule_runs = update run_key run_id (finished o now) s.schedule_runs },
          )
    ]

unfoldable pub record_operator_action :
    Uuid → String → String → String → Instant → Option Uuid → Action ScheduleTables ⊤
record_operator_action action_id operator action reason now run_id s =
    if str_eq operator "" || str_eq action "" || str_eq reason ""
    then (err (schedule_store_error "operator action identity/reason is incomplete"), s)
    else if has action_key action_id s.operator_actions
    then (err integrity_error, s)
    else (
      ok tt,
      record s {
        operator_actions =
            record {
              action_id = action_id;
              acting_run = run_id;
              operator_id = operator;
              action = action;
              reason = reason;
              recorded_at = now;
            }
            ∷ s.operator_actions;
      },
    )

-- `terminal_state in {…}`
abbrev pub is_cycle_end : String → Bool
is_cycle_end text =
    str_eq text "filled"
    || str_eq text "partially_filled"
    || str_eq text "rejected"
    || str_eq text "cancelled"

-- The evidence flags of a cycle.
pub record CycleEvidence : Type 0 where
  pub approved_by_hand : Bool
  pub duplicate_seen : Bool
  pub reconciled_fully : Bool
  pub recovered : Bool

unfoldable pub record_mutation_cycle :
    Uuid → Option ℕ → Uuid → String → CycleEvidence → Instant → Action ScheduleTables Uuid
record_mutation_cycle cycle_id session command_id terminal e now s =
    if not (is_cycle_end terminal)
    then (err (schedule_store_error "mutation cycle is not terminal"), s)
    else elim session [
      | none ↦
          (err (schedule_store_error "mutation cycle identity already exists or is invalid"), s)
      | some day ↦
          if has cycle_key cycle_id s.mutation_cycles
            || has cycle_command command_id s.mutation_cycles
          then (
            err (schedule_store_error "mutation cycle identity already exists or is invalid"),
            s,
          )
          else (
            ok cycle_id,
            record s {
              mutation_cycles =
                  record {
                    cycle_id = cycle_id;
                    trading_session = day;
                    command_id = command_id;
                    manually_approved = e.approved_by_hand;
                    terminal_state = terminal;
                    duplicate_detected = e.duplicate_seen;
                    reconciliation_resolved = e.reconciled_fully;
                    recovery_verified = e.recovered;
                    recorded_at = now;
                  }
                  ∷ s.mutation_cycles;
            },
          )
    ]

-- `digest` is SHA-256 of the evidence text.
unfoldable pub record_fault_drill :
    (String → Digest)
    → Uuid
    → Option ℕ
    → String
    → Bool
    → String
    → Instant
    → Action ScheduleTables Uuid
record_fault_drill digest drill_id session name passed evidence now s =
    if str_eq name "" || str_eq evidence ""
    then (err (schedule_store_error "fault drill requires named evidence"), s)
    else elim session [
      | none ↦ (err (schedule_store_error "fault drill evidence already exists or is invalid"), s)
      | some day ↦
          if has drill_key drill_id s.fault_drills || any (is_drill day name) s.fault_drills
          then (err (schedule_store_error "fault drill evidence already exists or is invalid"), s)
          else (
            ok drill_id,
            record s {
              fault_drills =
                  record {
                    drill_id = drill_id;
                    trading_session = day;
                    drill_name = name;
                    passed = passed;
                    evidence_checksum = digest evidence;
                    recorded_at = now;
                  }
                  ∷ s.fault_drills;
            },
          )
    ]
