-- ===== src/Scheduler/Trace/Refines.antt =====
-- scheduler/store.py: the store as one small state machine for each run and each wait.
use investing_agents.Prelude.{List, [], ◌∷◌, ap}
use investing_agents.Domain.Types.{Uuid}
use investing_agents.Scheduler.Tables.{ScheduleTables}
use investing_agents.Scheduler.Waits.{expire_approvals}
use investing_agents.Scheduler.Trace.{ScheduleCall}
use investing_agents.Scheduler.Trace.Machines.{
  RunStep, run_rests, WaitStep, run_view, wait_view, rests_run, rests_wait, Lockstep, no_call,
  then_call,
}
use investing_agents.Scheduler.Trace.{perform_schedule, run_schedule}
use investing_agents.Scheduler.Trace.Changes.{
  heartbeat-same, record_operator_action-same, record_mutation_cycle-same, record_fault_drill-same,
  start_run-waits, finish_run-waits, request_approval-runs, approve_wait-runs,
}
use investing_agents.Scheduler.Trace.RunSteps.{start_run-RunStep, finish_run-RunStep}
use investing_agents.Scheduler.Trace.WaitSteps.{
  request_approval-WaitStep, approve_wait-WaitStep, expire_approvals-WaitStep,
}

module _ (s : ScheduleTables) (id : Uuid) where
  perform_schedule-RunStep :
      (call : ScheduleCall)
      → RunStep id call
          (run_view id s.schedule_runs)
          (run_view id (perform_schedule call s).schedule_runs)
  unfolding perform_schedule expire_approvals
  perform_schedule-RunStep (ScheduleCall.starts j session pipeline now) =
      start_run-RunStep j session pipeline now s id
  perform_schedule-RunStep (ScheduleCall.beats j run phase now) =
      rests_run id _ (ap (run_view id) (heartbeat-same j run phase now s).0)
  perform_schedule-RunStep (ScheduleCall.finishes j o now) = finish_run-RunStep j o now s id
  perform_schedule-RunStep (ScheduleCall.requests j run command hash from until) =
      rests_run id _ (ap (run_view id) (request_approval-runs j run command hash from until s))
  perform_schedule-RunStep (ScheduleCall.approves j approval operator now human) =
      rests_run id _ (ap (run_view id) (approve_wait-runs j approval operator now human s))
  perform_schedule-RunStep (ScheduleCall.expires now) = run_rests
  perform_schedule-RunStep (ScheduleCall.acts j operator action reason now run) =
      rests_run id _
        (ap (run_view id) (record_operator_action-same j operator action reason now run s).0)
  perform_schedule-RunStep (ScheduleCall.cycles j session command terminal e now) =
      rests_run id _
        (ap (run_view id) (record_mutation_cycle-same j session command terminal e now s).0)
  perform_schedule-RunStep (ScheduleCall.drills digest j session name passed evidence now) =
      rests_run id _
        (ap (run_view id) (record_fault_drill-same digest j session name passed evidence now s).0)

  perform_schedule-WaitStep :
      (call : ScheduleCall)
      → WaitStep id call
          (wait_view id s.approval_waits)
          (wait_view id (perform_schedule call s).approval_waits)
  unfolding perform_schedule
  perform_schedule-WaitStep (ScheduleCall.starts j session pipeline now) =
      rests_wait id _ (ap (wait_view id) (start_run-waits j session pipeline now s))
  perform_schedule-WaitStep (ScheduleCall.beats j run phase now) =
      rests_wait id _ (ap (wait_view id) (heartbeat-same j run phase now s).1)
  perform_schedule-WaitStep (ScheduleCall.finishes j o now) =
      rests_wait id _ (ap (wait_view id) (finish_run-waits j o now s))
  perform_schedule-WaitStep (ScheduleCall.requests j run command hash from until) =
      request_approval-WaitStep j run command hash from until s id
  perform_schedule-WaitStep (ScheduleCall.approves j approval operator now human) =
      approve_wait-WaitStep j approval operator now human s id
  perform_schedule-WaitStep (ScheduleCall.expires now) = expire_approvals-WaitStep now s id
  perform_schedule-WaitStep (ScheduleCall.acts j operator action reason now run) =
      rests_wait id _
        (ap (wait_view id) (record_operator_action-same j operator action reason now run s).1)
  perform_schedule-WaitStep (ScheduleCall.cycles j session command terminal e now) =
      rests_wait id _
        (ap (wait_view id) (record_mutation_cycle-same j session command terminal e now s).1)
  perform_schedule-WaitStep (ScheduleCall.drills digest j session name passed evidence now) =
      rests_wait id _
        (ap (wait_view id) (record_fault_drill-same digest j session name passed evidence now s).1)

-- The store refines two small machines: whatever calls are made, returned or raised, from whatever
-- tables, what is seen of any one run, and of any one wait, goes by exactly one step of its machine
-- for each call, in the order of the calls. A step rests, or it is one that the call is for: a run
-- that is absent starts at a call of `start_run` with its identity, a started run succeeds or fails
-- at a call of `finish_run` with its identity and that outcome, an absent wait is awaited at a call
-- of `request_approval` with its identity, an awaiting one is approved at a call of `approve_wait`
-- with its identity, or expires at a call of `expire_approvals`. Nothing else happens to it.
pub schedule_refines_machines :
    (calls : List ScheduleCall) (s : ScheduleTables) (id : Uuid)
    → (Lockstep
        (RunStep id)
        calls
        (run_view id s.schedule_runs)
        (run_view id (run_schedule calls s).schedule_runs))
      × (Lockstep
          (WaitStep id)
          calls
          (wait_view id s.approval_waits)
          (wait_view id (run_schedule calls s).approval_waits))
unfolding run_schedule
schedule_refines_machines [] s id = (no_call, no_call)
schedule_refines_machines (call ∷ rest) s id =
    let (runs, waits) = schedule_refines_machines rest (perform_schedule call s) id in
    (
      then_call (perform_schedule-RunStep s id call) runs,
      then_call (perform_schedule-WaitStep s id call) waits,
    )
