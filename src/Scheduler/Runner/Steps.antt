-- ===== src/Scheduler/Runner/Steps.antt =====
-- scheduler/runner.py: the steps of a run, up to its end.
use investing_agents.Prelude.{
  ℕ, suc, Bool, true, String, some, List, [], ◌∷◌, ◌≡◌, refl, inl, inr, arith, ==-refl,
}
use investing_agents.Result.{ok, err, Error, Action, lift, ◌>>=◌, ◌>>◌, Result-cases}
use investing_agents.Table.{find, find-update}
use investing_agents.Domain.Types.{Uuid, Instant}
use investing_agents.Scheduler.Tables.{ScheduleTables, ScheduleRun, run_key, is_started}
use investing_agents.Scheduler.Config.{SchedulerConfig}
use investing_agents.Scheduler.Runs.{RunOutcome, heartbeat, finish_run, finished}
use investing_agents.Scheduler.Waits.{request_approval}
use investing_agents.Scheduler.Trace.Changes.{heartbeat-same, request_approval-runs}
use investing_agents.Scheduler.Runner.{
  PreparationResult, PreparedApprovalWait, ReconciliationStatus, Callbacks, Drawn, after_seconds,
  request_all, run_outcome, failure_outcome, check_run, register_waits, evaluate_run,
}

-- An action that leaves the table of runs alone.
abbrev pub KeepsRuns : {A : Type 0} → Action ScheduleTables A → Type 0
KeepsRuns m = (s : ScheduleTables) → (m s).1.schedule_runs ≡ s.schedule_runs

>>=-KeepsRuns :
    {A B : Type 0} (m : Action ScheduleTables A) (f : A → Action ScheduleTables B)
    → KeepsRuns m
    → ((a : A) → KeepsRuns (f a))
    → KeepsRuns (m >>= f)
>>=-KeepsRuns m f first then_ s = elim (Result-cases (m s).0) [
  | inl (a, p) ↦ ground (arith, p, first s, then_ a (m s).1)
  | inr (e, p) ↦ ground (arith, p, first s)
]

request_all-KeepsRuns :
    (c : SchedulerConfig) (d : Drawn) (now : Instant) (n : ℕ) (ws : List PreparedApprovalWait)
    → KeepsRuns (request_all c d now n ws)
unfolding request_all
request_all-KeepsRuns c d now n [] = λ s. refl
request_all-KeepsRuns c d now n (w ∷ ws) =
    >>=-KeepsRuns
      (request_approval (d.wait n) d.run w.waiting w.intent_hash now
        (after_seconds now c.approval_ttl_seconds))
      (λ _. request_all c d now (suc n) ws)
      (request_approval-runs (d.wait n) d.run w.waiting w.intent_hash now
        (after_seconds now c.approval_ttl_seconds))
      (λ _. request_all-KeepsRuns c d now (suc n) ws)

check_run-KeepsRuns : (calls : Callbacks) (p : PreparationResult) → KeepsRuns (check_run calls p)
unfolding check_run
check_run-KeepsRuns calls p s = ground arith

register_waits-KeepsRuns :
    (c : SchedulerConfig) (calls : Callbacks) (d : Drawn) (now : Instant) (p : PreparationResult)
    → KeepsRuns (register_waits c calls d now p)
unfolding register_waits
register_waits-KeepsRuns c calls d now p =
    >>=-KeepsRuns (request_all c d now 0 p.approval_waits)
      (λ _. heartbeat (d.beat 1) d.run "reconciling" now >> check_run calls p)
      (request_all-KeepsRuns c d now 0 p.approval_waits)
      (λ _.
        >>=-KeepsRuns (heartbeat (d.beat 1) d.run "reconciling" now) (λ _. check_run calls p)
          (λ s. (heartbeat-same (d.beat 1) d.run "reconciling" now s).0)
          (λ _. check_run-KeepsRuns calls p))

pub evaluate_run-KeepsRuns :
    (c : SchedulerConfig) (calls : Callbacks) (d : Drawn) (now : Instant)
    → KeepsRuns (evaluate_run c calls d now)
unfolding evaluate_run
evaluate_run-KeepsRuns c calls d now =
    >>=-KeepsRuns (heartbeat (d.beat 0) d.run "preparing" now)
      (λ _. lift calls.prepare >>= register_waits c calls d now)
      (λ s. (heartbeat-same (d.beat 0) d.run "preparing" now s).0)
      (λ _.
        >>=-KeepsRuns (lift calls.prepare) (register_waits c calls d now) (λ s. refl)
          (register_waits-KeepsRuns c calls d now))

-- A value that a sequence returns is returned by its second part after a value of its first.
pub >>=-ok :
    {A B : Type 0} (m : Action ScheduleTables A) (f : A → Action ScheduleTables B)
    → (s : ScheduleTables) (b : B) → ((m >>= f) s).0 ≡ ok b
    → (a : A) × ((m s).0 ≡ ok a) × ((f a (m s).1).0 ≡ ok b)
>>=-ok m f s b h = elim (Result-cases (m s).0) [
  | inl (a, p) ↦ (a, p, ground (arith, p, h))
  | inr (e, p) ↦ absurd (ground (arith, p, h))
]

-- What the callbacks returned.
pub record Answers (calls : Callbacks) (p : PreparationResult) (r : ReconciliationStatus) (n : Bool)
    : Type 0 where
  pub prepared : calls.prepare ≡ ok p
  pub reconciled : calls.reconciled ≡ ok r
  pub checked : calls.nightly_check ≡ ok n

check_run-Answers :
    (calls : Callbacks) (p : PreparationResult) (s : ScheduleTables) (o : RunOutcome)
    → calls.prepare ≡ ok p
    → (check_run calls p s).0 ≡ ok o
    → (r : ReconciliationStatus) × (n : Bool) × (Answers calls p r n) × (run_outcome p r n ≡ o)
unfolding check_run
check_run-Answers calls p s o hp h = elim (Result-cases calls.reconciled) [
  | inr (e, hr) ↦ absurd (ground (arith, h, hr))
  | inl (r, hr) ↦ elim (Result-cases calls.nightly_check) [
    | inr (e, hn) ↦ absurd (ground (arith, h, hr, hn))
    | inl (n, hn) ↦
        (r, n, record { prepared = hp; reconciled = hr; checked = hn }, ground (arith, h, hr, hn))
  ]
]

pub evaluate_run-Answers :
    (c : SchedulerConfig) (calls : Callbacks) (d : Drawn) (now : Instant) (s : ScheduleTables)
    → (o : RunOutcome) → (evaluate_run c calls d now s).0 ≡ ok o
    → (p : PreparationResult) × (r : ReconciliationStatus) × (n : Bool) × (Answers calls p r n)
      × (run_outcome p r n ≡ o)
unfolding evaluate_run register_waits
evaluate_run-Answers c calls d now s o h =
    let beat = heartbeat (d.beat 0) d.run "preparing" now in
    let (_, _, h1) = >>=-ok beat (λ _. lift calls.prepare >>= register_waits c calls d now) s o h in
    let (p, hp, h2) = >>=-ok (lift calls.prepare) (register_waits c calls d now) (beat s).1 o h1 in
    let s2 = (beat s).1 in
    let beat2 = heartbeat (d.beat 1) d.run "reconciling" now in
    let (_, _, h3) =
      >>=-ok (request_all c d now 0 p.approval_waits) (λ _. beat2 >> check_run calls p) s2 o h2 in
    let s3 = (request_all c d now 0 p.approval_waits s2).1 in
    let (_, _, h4) = >>=-ok beat2 (λ _. check_run calls p) s3 o h3 in
    let (r, n, answers, same) = check_run-Answers calls p (beat2 s3).1 o hp h4 in
    (p, r, n, answers, same)

pub finish_run-ended :
    (id : Uuid) (o : RunOutcome) (now : Instant) (s : ScheduleTables) (r : ScheduleRun)
    → find run_key id s.schedule_runs ≡ some r
    → (finish_run id o now s).0 ≡ ok tt
    → find run_key id (finish_run id o now s).1.schedule_runs ≡ some (finished o now r)
unfolding finish_run
finish_run-ended id o now s r there done = ground (
  arith,
  there,
  done,
  ==-refl id,
  find-update run_key id id (finished o now) s.schedule_runs (λ x e. e),
)

pub finish_run-raised :
    (id : Uuid) (o : RunOutcome) (now : Instant) (s : ScheduleTables) (e : Error)
    → (finish_run id o now s).0 ≡ err e
    → (finish_run id o now s).1 ≡ s
unfolding finish_run
finish_run-raised id o now s e h = ground (arith, h)

-- The handler's call cannot raise on a run that is started.
pub finish_run-handler :
    (id : Uuid) (name : String) (now : Instant) (s : ScheduleTables) (r : ScheduleRun)
    → find run_key id s.schedule_runs ≡ some r
    → is_started r.state ≡ true
    → (finish_run id (failure_outcome name) now s).0 ≡ ok tt
unfolding finish_run
finish_run-handler id name now s r there running = ground (arith, there, running)
