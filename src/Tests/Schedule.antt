-- ===== src/Tests/Schedule.antt =====
-- The scheduler: a run with an approval wait, its end, and the qualification gate.
use investing_agents.Prelude.{true, false, none, some, List, [], ◌∷◌, ◌≡◌, refl}
use mathlib.Core.Logic.{◌↔◌}
use investing_agents.Result.{ok}
use investing_agents.Int.{pos}
use investing_agents.Table.{find, update}
use investing_agents.Store.Tables.{empty_store}
use investing_agents.Scheduler.Tables.{
  ScheduleTables, ScheduleRun, ApprovalWait, empty_schedule, run_key, wait_key,
}
use investing_agents.Scheduler.Runs.{RunOutcome, finished, new_run, start_run, finish_run}
use investing_agents.Scheduler.Waits.{new_wait, approved_by, request_approval, approve_wait}
use investing_agents.Scheduler.Trace.{ScheduleCall, run_schedule, perform_schedule}
use investing_agents.Scheduler.Trace.Settled.{finished_run_stays, settled_wait_stays}
use investing_agents.Scheduler.Trace.Sound.{IsSoundWait, stored_wait_IsSoundWait}
use investing_agents.Scheduler.Trace.OneWait.{one_wait_per_command}
use investing_agents.Scheduler.Trace.Machines.{Lockstep, RunStep, WaitStep, run_view, wait_view}
use investing_agents.Scheduler.Trace.Refines.{schedule_refines_machines}
use investing_agents.Scheduler.Config.{SchedulerConfig}
use investing_agents.Scheduler.Lock.{LockFile}
use investing_agents.Scheduler.Runner.{Callbacks, Drawn, SchedulerState, run_scheduled}
use investing_agents.Scheduler.Runner.Settles.{Settled, scheduled_run_settles}
use investing_agents.Scheduler.Qualification.{evaluate_gate_c}
use investing_agents.Scheduler.Qualification.Exact.{IsQualified, evaluate_gate_c_exact}

abbrev outcome : RunOutcome
outcome = record {
  is_success = true;
  finalization = true;
  nightly = true;
  duplicates = pos 0;
  unresolved = pos 0;
  failure_text = "";
}

abbrev row : ScheduleRun
row = finished outcome 3000000 (new_run 1 100 "run-a" 1000000)

abbrev wait : ApprovalWait
wait = approved_by 50 "operator" 2500000 (new_wait 11 1 21 99 2000000 9000000)

-- A run starts, asks for an approval, gets it, and finishes.
abbrev begun : List ScheduleCall
begun =
    ScheduleCall.starts 1 (some 100) "run-a" 1000000
    ∷ ScheduleCall.requests 11 1 21 99 2000000 9000000
    ∷ ScheduleCall.approves 11 50 "operator" 2500000 true
    ∷ ScheduleCall.finishes 1 outcome 3000000
    ∷ []

abbrev later : List ScheduleCall
later =
    ScheduleCall.approves 11 51 "other" 2600000 true
    ∷ ScheduleCall.finishes 1 (record outcome { is_success = false }) 4000000
    ∷ ScheduleCall.expires 10000000
    ∷ []

abbrev tables : ScheduleTables
tables = run_schedule begun empty_schedule

row_stored : find run_key 1 tables.schedule_runs ≡ some row
unfolding run_schedule perform_schedule start_run request_approval approve_wait finish_run find
    update
row_stored = refl

wait_stored : find wait_key 11 tables.approval_waits ≡ some wait
unfolding run_schedule perform_schedule start_run request_approval approve_wait finish_run find
    update
wait_stored = refl

finished_run_stays_example : find run_key 1 (run_schedule later tables).schedule_runs ≡ some row
finished_run_stays_example = finished_run_stays later tables 1 row refl row_stored

settled_wait_stays_example : find wait_key 11 (run_schedule later tables).approval_waits ≡ some wait
settled_wait_stays_example = settled_wait_stays later tables 11 wait refl wait_stored

stored_wait_IsSoundWait_example : IsSoundWait wait
stored_wait_IsSoundWait_example = stored_wait_IsSoundWait begun 11 wait wait_stored

one_wait_per_command_example : wait.wait_id ≡ wait.wait_id
one_wait_per_command_example =
    one_wait_per_command begun 11 11 wait wait wait_stored wait_stored refl

abbrev config : SchedulerConfig
config = record {
  enabled = true;
  environment = "demo";
  broker_submission_enabled = false;
  per_order_human_approval_required = true;
  approval_ttl_seconds = pos 300;
  heartbeat_interval_seconds = pos 60;
  minimum_trading_sessions = pos 30;
  minimum_approved_mutation_cycles = pos 20;
  required_fault_drills = "restart" ∷ [];
}

abbrev calls : Callbacks
calls = record {
  prepare = ok (record {
    finalization = true;
    approval_waits = record { waiting = 22; intent_hash = 77 } ∷ [];
  });
  reconciled = ok (record { unresolved_count = pos 0; duplicate_order_count = pos 0 });
  nightly_check = ok true;
}

abbrev drawn : Drawn
drawn = record {
  run = 2;
  token = 3;
  beat = λ n. n;
  wait = λ n. n;
  class_name = λ e. "ScheduleStoreError";
}

abbrev free : SchedulerState
free = record { tables = tables; lock = LockFile.missing }

scheduled_run_settles_example :
    ((run_scheduled config calls drawn (some 101) "run-b" 5000000 free).1.lock ≡ LockFile.missing)
    × (Settled calls drawn "run-b" 5000000 tables
        (run_scheduled config calls drawn (some 101) "run-b" 5000000 free).0
        (run_scheduled config calls drawn (some 101) "run-b" 5000000 free).1.tables)
scheduled_run_settles_example =
    scheduled_run_settles config calls drawn (some 101) "run-b" 5000000 free

evaluate_gate_c_exact_example :
    ((evaluate_gate_c tables empty_store config).qualified ≡ true)
    ↔ IsQualified tables empty_store config
evaluate_gate_c_exact_example = evaluate_gate_c_exact tables empty_store config

schedule_refines_machines_example :
    Lockstep (RunStep 1) begun none (run_view 1 tables.schedule_runs)
    × Lockstep (WaitStep 1) begun none (wait_view 1 tables.approval_waits)
unfolding find
schedule_refines_machines_example = schedule_refines_machines begun empty_schedule 1
