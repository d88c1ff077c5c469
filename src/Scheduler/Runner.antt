-- ===== src/Scheduler/Runner.antt =====
-- scheduler/runner.py: one scheduled run. The callbacks `prepare`, `reconcile` and `nightly_check`
-- are given by what they return or raise, and do not touch the schedule store or the lock.
pub mod Steps
pub mod Guarded
pub mod Settles
use investing_agents.Prelude.{
  ℕ, suc, ◌+◌, ◌-◌, ⊤, Bool, true, false, not, ◌&&◌, String, List, [], ◌∷◌, Option, if◌then◌else◌,
}
use investing_agents.Result.{
  Result, ok, err, Error, Action, pure, lift, ◌>>=◌, ◌>>◌, scheduled_run_error,
}
use investing_agents.Int.{ℤ, pos, pos_part, neg_part, eqb_ℤ}
use investing_agents.Domain.Types.{Uuid, Digest, Instant}
use investing_agents.Risk.Limits.{seconds}
use investing_agents.Scheduler.Tables.{ScheduleTables}
use investing_agents.Scheduler.Config.{SchedulerConfig}
use investing_agents.Scheduler.Lock.{LockFile, acquire, release}
use investing_agents.Scheduler.Runs.{RunOutcome, start_run, heartbeat, finish_run}
use investing_agents.Scheduler.Waits.{request_approval}

pub record PreparedApprovalWait : Type 0 where
  pub waiting : Uuid
  pub intent_hash : Digest

pub record PreparationResult : Type 0 where
  pub finalization : Bool
  pub approval_waits : List PreparedApprovalWait

pub record ReconciliationStatus : Type 0 where
  pub unresolved_count : ℤ
  pub duplicate_order_count : ℤ

-- The callbacks' results.
pub record Callbacks : Type 0 where
  pub prepare : Result PreparationResult
  pub reconciled : Result ReconciliationStatus
  pub nightly_check : Result Bool

-- The identities that `uuid4` draws during a run, and the name of an exception's class.
pub record Drawn : Type 0 where
  pub run : Uuid
  pub token : Uuid
  pub beat : ℕ → Uuid
  pub wait : ℕ → Uuid
  pub class_name : Error → String

pub record SchedulerState : Type 0 where
  pub tables : ScheduleTables
  pub lock : LockFile

-- `moment + timedelta(seconds=…)`
abbrev pub after_seconds : Instant → ℤ → Instant
after_seconds moment n = moment + seconds (pos_part n) - seconds (neg_part n)

-- The loop over `preparation.approval_waits`; the number counts the identities drawn.
unfoldable pub request_all :
    SchedulerConfig → Drawn → Instant → ℕ → List PreparedApprovalWait → Action ScheduleTables ⊤
request_all c d moment n [] = pure tt
request_all c d moment n (w ∷ rest) =
    request_approval (d.wait n) d.run w.waiting w.intent_hash moment
      (after_seconds moment c.approval_ttl_seconds)
    >> request_all c d moment (suc n) rest

abbrev pub passed_all : PreparationResult → ReconciliationStatus → Bool → Bool
passed_all p r nightly =
    p.finalization
    && nightly
    && eqb_ℤ r.unresolved_count (pos 0)
    && eqb_ℤ r.duplicate_order_count (pos 0)

-- What `run` gives to `finish_run` when nothing was raised.
abbrev pub run_outcome : PreparationResult → ReconciliationStatus → Bool → RunOutcome
run_outcome p r nightly = record {
  is_success = passed_all p r nightly;
  finalization = p.finalization;
  nightly = nightly;
  duplicates = r.duplicate_order_count;
  unresolved = r.unresolved_count;
  failure_text = if passed_all p r nightly then "" else "scheduled validation did not pass";
}

-- What `run` gives to `finish_run` after an exception.
abbrev pub failure_outcome : String → RunOutcome
failure_outcome name = record {
  is_success = false;
  finalization = false;
  nightly = false;
  duplicates = pos 0;
  unresolved = pos 1;
  failure_text = name;
}

-- The body of the `try` up to the call of `finish_run`, in three parts: from the call of
-- `reconcile`, from the loop over the waits, and from the first heartbeat.
unfoldable pub check_run : Callbacks → PreparationResult → Action ScheduleTables RunOutcome
check_run calls p = lift calls.reconciled >>= λ r.
    lift calls.nightly_check >>= λ nightly. pure (run_outcome p r nightly)

unfoldable pub register_waits :
    SchedulerConfig
    → Callbacks
    → Drawn
    → Instant
    → PreparationResult
    → Action ScheduleTables RunOutcome
register_waits c calls d moment p =
    request_all c d moment 0 p.approval_waits
    >> (heartbeat (d.beat 1) d.run "reconciling" moment >> check_run calls p)

unfoldable pub evaluate_run :
    SchedulerConfig → Callbacks → Drawn → Instant → Action ScheduleTables RunOutcome
evaluate_run c calls d moment =
    heartbeat (d.beat 0) d.run "preparing" moment
    >> (lift calls.prepare >>= register_waits c calls d moment)

-- The body of the `try` after `start_run`.
unfoldable pub complete_run :
    SchedulerConfig → Callbacks → Drawn → Instant → Action ScheduleTables Uuid
complete_run c calls d moment =
    evaluate_run c calls d moment >>= λ o. finish_run d.run o moment >> pure d.run

-- The `try` with its handler, which ends a run that was started and raises again.
unfoldable pub guarded_run :
    SchedulerConfig → Callbacks → Drawn → Option ℕ → String → Instant → Action ScheduleTables Uuid
guarded_run c calls d session pipeline moment s =
    let (begun, s1) = start_run d.run session pipeline moment s in
    elim begun [
      | err e ↦ (err e, s1)
      | ok id ↦
          let (done, s2) = complete_run c calls d moment s1 in
          elim done [
            | ok result ↦ (ok result, s2)
            | err e ↦ (err e, (finish_run d.run (failure_outcome (d.class_name e)) moment s2).1)
          ]
    ]

-- `ScheduledDemoRunner.run`; the lease is released on every path.
unfoldable pub run_scheduled :
    SchedulerConfig → Callbacks → Drawn → Option ℕ → String → Instant → Action SchedulerState Uuid
run_scheduled c calls d session pipeline moment s =
    if not c.enabled
    then (err (scheduled_run_error "scheduled Demo preparation is disabled"), s)
    else let (leased, file) = acquire d.token pipeline moment s.lock in
      elim leased [
        | err e ↦ (err e, record s { lock = file })
        | ok lease ↦
            let (result, tables) = guarded_run c calls d session pipeline moment s.tables in
            let (freed, file2) = release lease file in
            (elim freed [ err e ↦ err e | ok _ ↦ result ], record { tables = tables; lock = file2 })
      ]
