-- ===== src/Scheduler/Trace/Changes.antt =====
-- scheduler/store.py: what one call changes in the runs and in the waits.
use investing_agents.Prelude.{
  ℕ, ◌+◌, ◌≤◌, ◌<◌, Bool, true, false, String, str_eq, Option, none, some, ◌∷◌, ◌≡◌, refl, inl, inr,
  arith, map, Option-cases,
}
use investing_agents.Result.{Result-cases}
use investing_agents.Table.{find, has, update}
use investing_agents.Domain.Types.{Uuid, Digest, Instant}
use investing_agents.Risk.Limits.{seconds}
use investing_agents.Scheduler.Tables.{
  started, ScheduleTables, ScheduleRun, ApprovalWait, run_key, wait_key, waiting_command,
  is_started, is_awaiting,
}
use investing_agents.Scheduler.Runs.{
  RunOutcome, CycleEvidence, new_run, start_run, heartbeat, finish_run, finished,
  record_operator_action, record_mutation_cycle, record_fault_drill,
}
use investing_agents.Scheduler.Waits.{
  request_approval, new_wait, approve_wait, approved_by, expire_approvals, expired_at,
}
use investing_agents.Scheduler.Trace.{ScheduleCall, perform_schedule}

pub data RunChange (s s' : ScheduleTables) : Type 0 where
  runs_kept : s'.schedule_runs ≡ s.schedule_runs → RunChange s s'
  run_started :
      (r : ScheduleRun)
      → has run_key r.schedule_run_id s.schedule_runs ≡ false
      → r.state ≡ started
      → s'.schedule_runs ≡ r ∷ s.schedule_runs
      → RunChange s s'
  run_finished :
      (r : ScheduleRun) (id : Uuid) (o : RunOutcome) (now : Instant)
      → find run_key id s.schedule_runs ≡ some r
      → is_started r.state ≡ true
      → s'.schedule_runs ≡ update run_key id (finished o now) s.schedule_runs
      → RunChange s s'

pub data WaitChange (s s' : ScheduleTables) : Type 0 where
  waits_kept : s'.approval_waits ≡ s.approval_waits → WaitChange s s'
  wait_requested :
      (id run command : Uuid) (hash : Digest) (from until : Instant)
      → has wait_key id s.approval_waits ≡ false
      → has waiting_command command s.approval_waits ≡ false
      → from < until
      → until ≤ from + seconds 300
      → s'.approval_waits ≡ new_wait id run command hash from until ∷ s.approval_waits
      → WaitChange s s'
  wait_approved :
      (w : ApprovalWait) (id approval : Uuid) (operator : String) (now : Instant)
      → find wait_key id s.approval_waits ≡ some w
      → is_awaiting w.state ≡ true
      → now < w.expires_at
      → str_eq operator "" ≡ false
      → s'.approval_waits ≡ update wait_key id (approved_by approval operator now) s.approval_waits
      → WaitChange s s'
  waits_swept :
      (now : Instant) → s'.approval_waits ≡ map (expired_at now) s.approval_waits → WaitChange s s'

pub start_run-RunChange :
    (id : Uuid) (session : Option ℕ) (pipeline : String) (now : Instant) (s : ScheduleTables)
    → RunChange s (start_run id session pipeline now s).1
unfolding start_run
start_run-RunChange id none pipeline now s = runs_kept refl
start_run-RunChange id (some day) pipeline now s =
    elim (Result-cases (start_run id (some day) pipeline now s).0) [
      | inr (e, p) ↦ runs_kept (ground arith)
      | inl (x, p) ↦ run_started (new_run id day pipeline now) (ground arith) refl (ground arith)
    ]

finish_run-RunChange :
    (id : Uuid) (o : RunOutcome) (now : Instant) (s : ScheduleTables)
    → RunChange s (finish_run id o now s).1
unfolding finish_run
finish_run-RunChange id o now s = elim (Option-cases (find run_key id s.schedule_runs)) [
  | inl missing ↦ runs_kept (ground arith)
  | inr (r, there) ↦ elim (Result-cases (finish_run id o now s).0) [
    | inr (e, p) ↦ runs_kept (ground arith)
    | inl (x, p) ↦ run_finished r id o now there (ground arith) (ground arith)
  ]
]

request_approval-WaitChange :
    (id run command : Uuid) (hash : Digest) (from until : Instant) (s : ScheduleTables)
    → WaitChange s (request_approval id run command hash from until s).1
unfolding request_approval
request_approval-WaitChange id run command hash from until s =
    elim (Result-cases (request_approval id run command hash from until s).0) [
      | inr (e, p) ↦ waits_kept (ground arith)
      | inl (x, p) ↦
          wait_requested id run command hash from until (ground arith) (ground arith) (ground arith)
            (ground arith) (ground arith)
    ]

approve_wait-WaitChange :
    (id approval : Uuid) (operator : String) (now : Instant) (human : Bool) (s : ScheduleTables)
    → WaitChange s (approve_wait id approval operator now human s).1
unfolding approve_wait
approve_wait-WaitChange id approval operator now human s =
    elim (Option-cases (find wait_key id s.approval_waits)) [
      | inl missing ↦ waits_kept (ground arith)
      | inr (w, there) ↦ elim (Result-cases (approve_wait id approval operator now human s).0) [
        | inr (e, p) ↦ waits_kept (ground arith)
        | inl (x, p) ↦
            wait_approved w id approval operator now there (ground arith) (ground arith)
              (ground arith) (ground arith)
      ]
    ]

-- The other methods leave both tables alone.
abbrev pub SameRunsAndWaits : ScheduleTables → ScheduleTables → Type 0
SameRunsAndWaits s s' =
    (s'.schedule_runs ≡ s.schedule_runs) × (s'.approval_waits ≡ s.approval_waits)

pub heartbeat-same :
    (id run : Uuid) (phase : String) (now : Instant) (s : ScheduleTables)
    → SameRunsAndWaits s (heartbeat id run phase now s).1
unfolding heartbeat
heartbeat-same id run phase now s = ground arith

pub record_operator_action-same :
    (id : Uuid) (operator action reason : String) (now : Instant) (run : Option Uuid)
    → (s : ScheduleTables)
    → SameRunsAndWaits s (record_operator_action id operator action reason now run s).1
unfolding record_operator_action
record_operator_action-same id operator action reason now run s = ground arith

pub record_mutation_cycle-same :
    (id : Uuid) (session : Option ℕ) (command : Uuid) (terminal : String) (e : CycleEvidence)
    → (now : Instant) (s : ScheduleTables)
    → SameRunsAndWaits s (record_mutation_cycle id session command terminal e now s).1
unfolding record_mutation_cycle
record_mutation_cycle-same id session command terminal e now s = ground arith

pub record_fault_drill-same :
    (digest : String → Digest) (id : Uuid) (session : Option ℕ) (name : String) (passed : Bool)
    → (evidence : String) (now : Instant) (s : ScheduleTables)
    → SameRunsAndWaits s (record_fault_drill digest id session name passed evidence now s).1
unfolding record_fault_drill
record_fault_drill-same digest id session name passed evidence now s = ground arith

pub start_run-waits :
    (id : Uuid) (session : Option ℕ) (pipeline : String) (now : Instant) (s : ScheduleTables)
    → (start_run id session pipeline now s).1.approval_waits ≡ s.approval_waits
unfolding start_run
start_run-waits id session pipeline now s = ground arith

pub finish_run-waits :
    (id : Uuid) (o : RunOutcome) (now : Instant) (s : ScheduleTables)
    → (finish_run id o now s).1.approval_waits ≡ s.approval_waits
unfolding finish_run
finish_run-waits id o now s = ground arith

pub request_approval-runs :
    (id run command : Uuid) (hash : Digest) (from until : Instant) (s : ScheduleTables)
    → (request_approval id run command hash from until s).1.schedule_runs ≡ s.schedule_runs
unfolding request_approval
request_approval-runs id run command hash from until s = ground arith

pub approve_wait-runs :
    (id approval : Uuid) (operator : String) (now : Instant) (human : Bool) (s : ScheduleTables)
    → (approve_wait id approval operator now human s).1.schedule_runs ≡ s.schedule_runs
unfolding approve_wait
approve_wait-runs id approval operator now human s = ground arith

pub perform_schedule-RunChange :
    (call : ScheduleCall) (s : ScheduleTables) → RunChange s (perform_schedule call s)
unfolding perform_schedule expire_approvals
perform_schedule-RunChange (ScheduleCall.starts id session pipeline now) s =
    start_run-RunChange id session pipeline now s
perform_schedule-RunChange (ScheduleCall.beats id run phase now) s =
    runs_kept (heartbeat-same id run phase now s).0
perform_schedule-RunChange (ScheduleCall.finishes id o now) s = finish_run-RunChange id o now s
perform_schedule-RunChange (ScheduleCall.requests id run command hash from until) s =
    runs_kept (request_approval-runs id run command hash from until s)
perform_schedule-RunChange (ScheduleCall.approves id approval operator now human) s =
    runs_kept (approve_wait-runs id approval operator now human s)
perform_schedule-RunChange (ScheduleCall.expires now) s = runs_kept refl
perform_schedule-RunChange (ScheduleCall.acts id operator action reason now run) s =
    runs_kept (record_operator_action-same id operator action reason now run s).0
perform_schedule-RunChange (ScheduleCall.cycles id session command terminal e now) s =
    runs_kept (record_mutation_cycle-same id session command terminal e now s).0
perform_schedule-RunChange (ScheduleCall.drills digest id session name passed evidence now) s =
    runs_kept (record_fault_drill-same digest id session name passed evidence now s).0

pub perform_schedule-WaitChange :
    (call : ScheduleCall) (s : ScheduleTables) → WaitChange s (perform_schedule call s)
unfolding perform_schedule expire_approvals
perform_schedule-WaitChange (ScheduleCall.starts id session pipeline now) s =
    waits_kept (start_run-waits id session pipeline now s)
perform_schedule-WaitChange (ScheduleCall.beats id run phase now) s =
    waits_kept (heartbeat-same id run phase now s).1
perform_schedule-WaitChange (ScheduleCall.finishes id o now) s =
    waits_kept (finish_run-waits id o now s)
perform_schedule-WaitChange (ScheduleCall.requests id run command hash from until) s =
    request_approval-WaitChange id run command hash from until s
perform_schedule-WaitChange (ScheduleCall.approves id approval operator now human) s =
    approve_wait-WaitChange id approval operator now human s
perform_schedule-WaitChange (ScheduleCall.expires now) s = waits_swept now refl
perform_schedule-WaitChange (ScheduleCall.acts id operator action reason now run) s =
    waits_kept (record_operator_action-same id operator action reason now run s).1
perform_schedule-WaitChange (ScheduleCall.cycles id session command terminal e now) s =
    waits_kept (record_mutation_cycle-same id session command terminal e now s).1
perform_schedule-WaitChange (ScheduleCall.drills digest id session name passed evidence now) s =
    waits_kept (record_fault_drill-same digest id session name passed evidence now s).1
