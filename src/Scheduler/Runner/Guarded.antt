-- ===== src/Scheduler/Runner/Guarded.antt =====
-- scheduler/runner.py: the guarded part of a run, and its handler.
use investing_agents.Prelude.{
  ℕ, Bool, true, String, Option, none, some, ◌≡◌, refl, inl, inr, arith, ap, sym, ◌∙◌, subst,
  ==-refl,
}
use investing_agents.Result.{Result, ok, err, Error, pure, ◌>>◌, Result-cases}
use investing_agents.Table.{find, find-cons}
use investing_agents.Domain.Types.{Uuid, Instant}
use investing_agents.Scheduler.Tables.{ScheduleTables, ScheduleRun, run_key, is_started}
use investing_agents.Scheduler.Config.{SchedulerConfig}
use investing_agents.Scheduler.Runs.{RunOutcome, start_run, new_run, finish_run, finished}
use investing_agents.Scheduler.Runner.{
  PreparationResult, ReconciliationStatus, Callbacks, Drawn, run_outcome, failure_outcome,
  evaluate_run, complete_run, guarded_run,
}
use investing_agents.Scheduler.Runner.Steps.{
  Answers, evaluate_run-KeepsRuns, >>=-ok, evaluate_run-Answers, finish_run-ended,
  finish_run-raised, finish_run-handler,
}

-- How a run that was started ends: what is returned or raised, and its row then.
pub data Ended (calls : Callbacks) (d : Drawn) (row : ScheduleRun) (now : Instant)
    (result : Result Uuid) (s : ScheduleTables) : Type 0 where
  returned :
      (p : PreparationResult) (r : ReconciliationStatus) (n : Bool)
      → Answers calls p r n
      → result ≡ ok d.run
      → find run_key d.run s.schedule_runs ≡ some (finished (run_outcome p r n) now row)
      → Ended calls d row now result s
  raised :
      (e : Error)
      → result ≡ err e
      → find run_key d.run s.schedule_runs
        ≡ some (finished (failure_outcome (d.class_name e)) now row)
      → Ended calls d row now result s

handle_failure :
    (calls : Callbacks) (d : Drawn) (row : ScheduleRun) (now : Instant) (e : Error)
    → (s : ScheduleTables) → is_started row.state ≡ true
    → find run_key d.run s.schedule_runs ≡ some row
    → Ended calls d row now (err e) (finish_run d.run (failure_outcome (d.class_name e)) now s).1
handle_failure calls d row now e s running there = raised e refl (
    finish_run-ended d.run (failure_outcome (d.class_name e)) now s row there
      (finish_run-handler d.run (d.class_name e) now s row there running))

-- What the body of the `try` leaves: a finished run, or the runs as they were.
complete_run-returned :
    (c : SchedulerConfig) (calls : Callbacks) (d : Drawn) (now : Instant) (s : ScheduleTables)
    → (row : ScheduleRun) (id : Uuid) → find run_key d.run s.schedule_runs ≡ some row
    → (complete_run c calls d now s).0 ≡ ok id
    → Ended calls d row now (complete_run c calls d now s).0 (complete_run c calls d now s).1
unfolding complete_run
complete_run-returned c calls d now s row id there h =
    let finish = λ (o : RunOutcome). finish_run d.run o now >> pure d.run in
    let (o, ho, h1) = >>=-ok (evaluate_run c calls d now) finish s id h in
    let s1 = (evaluate_run c calls d now s).1 in
    let (_, hf, h2) = >>=-ok (finish_run d.run o now) (λ _. pure d.run) s1 id h1 in
    let (p, r, n, answers, same) = evaluate_run-Answers c calls d now s o ho in
    let kept : find run_key d.run s1.schedule_runs ≡ some row =
      ap (find run_key d.run) (evaluate_run-KeepsRuns c calls d now s) ∙ there in
    let reached : (complete_run c calls d now s).1 ≡ (finish_run d.run o now s1).1 =
      ground (arith, ho, hf) in
    returned p r n answers (ground (arith, h, h2)) (
      ap (λ (t : ScheduleTables). find run_key d.run t.schedule_runs) reached
      ∙ finish_run-ended d.run o now s1 row kept hf
      ∙ ap (λ x. some (finished x now row)) (sym same))

complete_run-raised :
    (c : SchedulerConfig) (calls : Callbacks) (d : Drawn) (now : Instant) (s : ScheduleTables)
    → (e : Error) → (complete_run c calls d now s).0 ≡ err e
    → (complete_run c calls d now s).1.schedule_runs ≡ s.schedule_runs
unfolding complete_run
complete_run-raised c calls d now s e h =
    let s1 = (evaluate_run c calls d now s).1 in
    elim (Result-cases (evaluate_run c calls d now s).0) [
      | inr (e1, p) ↦ ground (arith, p, evaluate_run-KeepsRuns c calls d now s)
      | inl (o, p) ↦ elim (Result-cases (finish_run d.run o now s1).0) [
        | inl (x, q) ↦ absurd (ground (arith, p, q, h))
        | inr (e2, q) ↦ ground (
          arith,
          p,
          q,
          finish_run-raised d.run o now s1 e2 q,
          evaluate_run-KeepsRuns c calls d now s,
        )
      ]
    ]

start_run-begun :
    (id : Uuid) (session : Option ℕ) (pipeline : String) (now : Instant) (s : ScheduleTables)
    (x : Uuid)
    → (start_run id session pipeline now s).0 ≡ ok x
    → (day : ℕ) × (find run_key id (start_run id session pipeline now s).1.schedule_runs
        ≡ some (new_run id day pipeline now))
unfolding start_run
start_run-begun id none pipeline now s x h = absurd (ground (arith, h))
start_run-begun id (some day) pipeline now s x h = (
  day,
  ground (arith, h, ==-refl id, find-cons run_key id (new_run id day pipeline now) s.schedule_runs),
)

-- A run that could not start has changed nothing.
start_run-raised :
    (id : Uuid) (session : Option ℕ) (pipeline : String) (now : Instant) (s : ScheduleTables)
    (e : Error)
    → (start_run id session pipeline now s).0 ≡ err e
    → (start_run id session pipeline now s).1 ≡ s
unfolding start_run
start_run-raised id none pipeline now s e h = refl
start_run-raised id (some day) pipeline now s e h = ground (arith, h)

-- How the guarded part of a call ends.
pub data RunEnd (calls : Callbacks) (d : Drawn) (pipeline : String) (now : Instant)
    (s : ScheduleTables) (result : Result Uuid) (s' : ScheduleTables) : Type 0 where
  not_started : (e : Error) → result ≡ err e → s' ≡ s → RunEnd calls d pipeline now s result s'
  was_started :
      (day : ℕ)
      → Ended calls d (new_run d.run day pipeline now) now result s'
      → RunEnd calls d pipeline now s result s'

pub guarded_run-RunEnd :
    (c : SchedulerConfig) (calls : Callbacks) (d : Drawn) (session : Option ℕ) (pipeline : String)
    → (now : Instant) (s : ScheduleTables)
    → RunEnd calls d pipeline now s
        (guarded_run c calls d session pipeline now s).0
        (guarded_run c calls d session pipeline now s).1
unfolding guarded_run
guarded_run-RunEnd c calls d session pipeline now s =
    let moved =
      λ (out : Result Uuid × ScheduleTables) (row : ScheduleRun)
          (same : out ≡ guarded_run c calls d session pipeline now s).
        subst (λ x. Ended calls d row now x.0 x.1) same in
    let begun = start_run d.run session pipeline now s in
    elim (Result-cases begun.0) [
      | inr (e, p) ↦
          not_started e (ground (arith, p))
            (ground (arith, p, start_run-raised d.run session pipeline now s e p))
      | inl (x, p) ↦
          let (day, there) = start_run-begun d.run session pipeline now s x p in
          let row = new_run d.run day pipeline now in
          let s1 = begun.1 in
          elim (Result-cases (complete_run c calls d now s1).0) [
            | inl (id, q) ↦ was_started day (
                moved (complete_run c calls d now s1) row (ground (arith, p, q))
                  (complete_run-returned c calls d now s1 row id there q))
            | inr (e, q) ↦
                let s2 = (complete_run c calls d now s1).1 in
                let kept : find run_key d.run s2.schedule_runs ≡ some row =
                  ap (find run_key d.run) (complete_run-raised c calls d now s1 e q) ∙ there in
                was_started day (
                  moved (err e, (finish_run d.run (failure_outcome (d.class_name e)) now s2).1) row
                    (ground (arith, p, q)) (handle_failure calls d row now e s2 refl kept))
          ]
    ]
