-- ===== src/Scheduler/Runner/Settles.antt =====
-- scheduler/runner.py: every started run is ended, and the lock is released.
use investing_agents.Prelude.{
  ap, if◌then◌else◌, some, inr, Bool, false, ℕ, true, String, Option, ◌≡◌, refl, inl, arith, subst,
  Bool-cases, ==-refl, eq_iff,
}
use investing_agents.Result.{Result, ok, err, Error, scheduled_run_error, schedule_lock_error}
use investing_agents.Int.{ℤ, pos, negsuc, eqb_ℤ}
use investing_agents.Table.{find}
use investing_agents.Domain.Types.{Uuid, Instant}
use investing_agents.Scheduler.Tables.{ScheduleTables, ScheduleRun, run_key, succeeded, failed}
use investing_agents.Scheduler.Runs.{new_run, finished, cut}
use investing_agents.Scheduler.Config.{SchedulerConfig}
use investing_agents.Scheduler.Lock.{LockFile, acquire, release}
use investing_agents.Scheduler.Runner.{
  PreparationResult, ReconciliationStatus, Callbacks, Drawn, SchedulerState, passed_all,
  run_outcome, failure_outcome, guarded_run, run_scheduled,
}
use investing_agents.Scheduler.Runner.Steps.{Answers}
use investing_agents.Scheduler.Runner.Guarded.{
  RunEnd, not_started, was_started, returned, raised, guarded_run-RunEnd,
}

-- The file and the tables after a call.
abbrev file_after :
    SchedulerConfig → Callbacks → Drawn → Option ℕ → String → Instant → SchedulerState → LockFile
file_after c calls d session pipeline now s =
    (run_scheduled c calls d session pipeline now s).1.lock

lock_kept :
    (c : SchedulerConfig) (calls : Callbacks) (d : Drawn) (session : Option ℕ) (pipeline : String)
    → (now : Instant) (t : ScheduleTables) (file : LockFile)
    → file_after c calls d session pipeline now (record { tables = t; lock = file }) ≡ file
unfolding run_scheduled acquire release
lock_kept c calls d session pipeline now t LockFile.missing =
    ground (arith, ==-refl d.token, (eq_iff pipeline pipeline).1 refl)
lock_kept c calls d session pipeline now t LockFile.corrupt = ground arith
lock_kept c calls d session pipeline now t (LockFile.held k o) = ground arith

-- A call that is enabled and finds the lock free returns what its guarded part returns.
free_run :
    (c : SchedulerConfig) (calls : Callbacks) (d : Drawn) (session : Option ℕ) (pipeline : String)
    → (now : Instant) (t : ScheduleTables) → c.enabled ≡ true
    → guarded_run c calls d session pipeline now t ≡ (
      (run_scheduled c calls d session pipeline now
          (record { tables = t; lock = LockFile.missing })).0,
      (run_scheduled c calls d session pipeline now
          (record { tables = t; lock = LockFile.missing })).1.tables,
    )
unfolding run_scheduled acquire release
free_run c calls d session pipeline now t on =
    ground (arith, on, ==-refl d.token, (eq_iff pipeline pipeline).1 refl)

run_scheduled-enabled :
    (c : SchedulerConfig) (calls : Callbacks) (d : Drawn) (session : Option ℕ) (pipeline : String)
    → (now : Instant) (t : ScheduleTables) (file : LockFile) → c.enabled ≡ true
    → RunEnd calls d pipeline now t
        (run_scheduled c calls d session pipeline now (record { tables = t; lock = file })).0
        (run_scheduled c calls d session pipeline now (record { tables = t; lock = file })).1.tables
unfolding run_scheduled acquire
run_scheduled-enabled c calls d session pipeline now t LockFile.missing on =
    subst (λ x. RunEnd calls d pipeline now t x.0 x.1)
      (free_run c calls d session pipeline now t on)
      (guarded_run-RunEnd c calls d session pipeline now t)
run_scheduled-enabled c calls d session pipeline now t LockFile.corrupt on =
    not_started (schedule_lock_error "scheduler lock exists") (ground (arith, on))
      (ground (arith, on))
run_scheduled-enabled c calls d session pipeline now t (LockFile.held k o) on =
    not_started (schedule_lock_error "scheduler lock exists") (ground (arith, on))
      (ground (arith, on))

run_scheduled-RunEnd :
    (c : SchedulerConfig) (calls : Callbacks) (d : Drawn) (session : Option ℕ) (pipeline : String)
    → (now : Instant) (t : ScheduleTables) (file : LockFile)
    → RunEnd calls d pipeline now t
        (run_scheduled c calls d session pipeline now (record { tables = t; lock = file })).0
        (run_scheduled c calls d session pipeline now (record { tables = t; lock = file })).1.tables
unfolding run_scheduled
run_scheduled-RunEnd c calls d session pipeline now t file = elim (Bool-cases c.enabled) [
  | inl on ↦ run_scheduled-enabled c calls d session pipeline now t file on
  | inr off ↦
      not_started (scheduled_run_error "scheduled Demo preparation is disabled")
        (ground (arith, off)) (ground (arith, off))
]

-- What preparation, reconciliation and nightly check must answer for a run to succeed.
abbrev pub PassedAll : PreparationResult → ReconciliationStatus → Bool → Type 0
PassedAll p r nightly =
    (p.finalization ≡ true)
    × (nightly ≡ true)
    × (r.unresolved_count ≡ pos 0)
    × (r.duplicate_order_count ≡ pos 0)

-- The columns of an ended run that do not depend on how it ended.
abbrev pub IsClosed : Drawn → String → Instant → ScheduleRun → Type 0
IsClosed d pipeline now row =
    (row.schedule_run_id ≡ d.run)
    × (row.pipeline_run_id ≡ pipeline)
    × (row.started_at ≡ now)
    × (row.completed_at ≡ some now)

-- The columns that record the answers.
abbrev pub Records : PreparationResult → ReconciliationStatus → Bool → ScheduleRun → Type 0
Records p r nightly row =
    (row.finalization_passed ≡ p.finalization)
    × (row.nightly_passed ≡ nightly)
    × (row.unresolved_reconciliation ≡ r.unresolved_count)
    × (row.duplicate_orders ≡ r.duplicate_order_count)

-- How a call may end, by the columns of the row that is stored then.
pub data Settled (calls : Callbacks) (d : Drawn) (pipeline : String) (now : Instant)
    (s : ScheduleTables) (result : Result Uuid) (s' : ScheduleTables) : Type 0 where
  stayed_out : (e : Error) → result ≡ err e → s' ≡ s → Settled calls d pipeline now s result s'
  ended_well :
      (p : PreparationResult) (r : ReconciliationStatus) (n : Bool) (row : ScheduleRun)
      → Answers calls p r n
      → result ≡ ok d.run
      → find run_key d.run s'.schedule_runs ≡ some row
      → IsClosed d pipeline now row
      → Records p r n row
      → PassedAll p r n
      → row.state ≡ succeeded
      → row.failure ≡ ""
      → Settled calls d pipeline now s result s'
  ended_badly :
      (p : PreparationResult) (r : ReconciliationStatus) (n : Bool) (row : ScheduleRun)
      → Answers calls p r n
      → result ≡ ok d.run
      → find run_key d.run s'.schedule_runs ≡ some row
      → IsClosed d pipeline now row
      → Records p r n row
      → ¬ (PassedAll p r n)
      → row.state ≡ failed
      → row.failure ≡ "scheduled validation did not pass"
      → Settled calls d pipeline now s result s'
  ended_raising :
      (e : Error) (row : ScheduleRun)
      → result ≡ err e
      → find run_key d.run s'.schedule_runs ≡ some row
      → IsClosed d pipeline now row
      → row.state ≡ failed
      → row.finalization_passed ≡ false
      → row.nightly_passed ≡ false
      → row.unresolved_reconciliation ≡ pos 1
      → row.failure ≡ cut 500 (d.class_name e)
      → Settled calls d pipeline now s result s'

is_zero-eq : (z : ℤ) → eqb_ℤ z (pos 0) ≡ true → z ≡ pos 0
is_zero-eq (pos n) h = ground arith
is_zero-eq (negsuc n) h = absurd (ground arith)

passed_all-PassedAll :
    (p : PreparationResult) (r : ReconciliationStatus) (n : Bool)
    → passed_all p r n ≡ true
    → PassedAll p r n
passed_all-PassedAll p r n h = (
  ground arith,
  ground arith,
  is_zero-eq r.unresolved_count (ground arith),
  is_zero-eq r.duplicate_order_count (ground arith),
)

cut-failure_text :
    (b b' : Bool)
    → b ≡ b'
    → cut 500 (if b then "" else "scheduled validation did not pass")
      ≡ (if b' then "" else "scheduled validation did not pass")
unfolding cut
cut-failure_text b true e =
    ap (λ x. cut 500 (if x then "" else "scheduled validation did not pass")) e
cut-failure_text b false e =
    ap (λ x. cut 500 (if x then "" else "scheduled validation did not pass")) e

returned-Settled :
    (calls : Callbacks) (d : Drawn) (pipeline : String) (now : Instant) (s s' : ScheduleTables)
    → (result : Result Uuid) (day : ℕ) (p : PreparationResult) (r : ReconciliationStatus)
    → (n : Bool) → Answers calls p r n
    → result ≡ ok d.run
    → find run_key d.run s'.schedule_runs
      ≡ some (finished (run_outcome p r n) now (new_run d.run day pipeline now))
    → Settled calls d pipeline now s result s'
returned-Settled calls d pipeline now s s' result day p r n answers h there =
    let row = finished (run_outcome p r n) now (new_run d.run day pipeline now) in
    elim (Bool-cases (passed_all p r n)) [
      | inl all ↦
          ended_well p r n row answers h there (refl, refl, refl, refl) (refl, refl, refl, refl)
            (passed_all-PassedAll p r n all) (ground arith) (cut-failure_text _ true all)
      | inr some_failed ↦
          ended_badly p r n row answers h there (refl, refl, refl, refl) (refl, refl, refl, refl)
            (λ all. ground (arith, all.0, all.1, all.2, all.3)) (ground arith)
            (cut-failure_text _ false some_failed)
    ]

RunEnd-Settled :
    (calls : Callbacks) (d : Drawn) (pipeline : String) (now : Instant) (s s' : ScheduleTables)
    → (result : Result Uuid) → RunEnd calls d pipeline now s result s'
    → Settled calls d pipeline now s result s'
RunEnd-Settled calls d pipeline now s s' result (not_started e h same) = stayed_out e h same
RunEnd-Settled calls d pipeline now s s' result (was_started day (returned p r n answers h there)) =
    returned-Settled calls d pipeline now s s' result day p r n answers h there
RunEnd-Settled calls d pipeline now s s' result (was_started day (raised e h there)) =
    ended_raising e
      (finished (failure_outcome (d.class_name e)) now (new_run d.run day pipeline now)) h there
      (refl, refl, refl, refl) refl refl refl refl refl

-- `run` leaves the lock file as it was. Either it raised and the tables are as they were, or the
-- row of its run is stored with the id it drew, the pipeline and the time of the call, and is
-- completed. When the call returned that id, all three callbacks returned and the row records their
-- answers: it is succeeded, without a failure text, if finalization and nightly check passed and
-- both counts are zero, and failed, with the text of a failed validation, if one of these is not
-- so. When the call raised, the row is failed with both checks not passed, one unresolved
-- reconciliation and the first 500 characters of the name of the exception's class.
pub scheduled_run_settles :
    (c : SchedulerConfig) (calls : Callbacks) (d : Drawn) (session : Option ℕ) (pipeline : String)
    → (now : Instant) (s : SchedulerState)
    → ((run_scheduled c calls d session pipeline now s).1.lock ≡ s.lock)
      × (Settled calls d pipeline now s.tables
          (run_scheduled c calls d session pipeline now s).0
          (run_scheduled c calls d session pipeline now s).1.tables)
scheduled_run_settles c calls d session pipeline now s = (
  lock_kept c calls d session pipeline now s.tables s.lock,
  RunEnd-Settled calls d pipeline now s.tables
      (run_scheduled c calls d session pipeline now s).1.tables
      (run_scheduled c calls d session pipeline now s).0
      (run_scheduled-RunEnd c calls d session pipeline now s.tables s.lock),
)
