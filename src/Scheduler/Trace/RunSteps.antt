-- ===== src/Scheduler/Trace/RunSteps.antt =====
-- scheduler/store.py: the step of a run that `start_run` and `finish_run` make.
use investing_agents.Prelude.{
  ℕ, String, true, false, Option, none, some, ◌∷◌, ◌≡◌, inl, inr, ◌⊎◌, arith, Bool-cases, ap, sym,
  ◌∙◌, ◌==◌, ==→eq, subst, Option-cases, if◌then◌else◌,
}
use investing_agents.Result.{Result-cases}
use investing_agents.Table.{find, has, update, find-update, find-cons}
use investing_agents.Domain.Types.{Uuid, Instant}
use investing_agents.Scheduler.Tables.{
  ScheduleTables, ScheduleRun, started, succeeded, failed, run_key, is_started,
}
use investing_agents.Scheduler.Runs.{RunOutcome, new_run, start_run, finish_run, finished}
use investing_agents.Scheduler.Trace.{ScheduleCall}
use investing_agents.Scheduler.Trace.Machines.{
  RunStep, run_rests, run_begins, run_succeeds, run_fails, run_view, move, rests_run, started_only,
}

pub start_run-RunStep :
    (j : Uuid) (session : Option ℕ) (pipeline : String) (now : Instant) (s : ScheduleTables)
    → (id : Uuid)
    → RunStep id
        (ScheduleCall.starts j session pipeline now)
        (run_view id s.schedule_runs)
        (run_view id (start_run j session pipeline now s).1.schedule_runs)
unfolding start_run
start_run-RunStep j none pipeline now s id = run_rests
start_run-RunStep j (some day) pipeline now s id =
    let call = ScheduleCall.starts j (some day) pipeline now in
    let s' = (start_run j (some day) pipeline now s).1 in
    let r = new_run j day pipeline now in
    elim (Result-cases (start_run j (some day) pipeline now s).0) [
      | inr (e, p) ↦
          let same : s'.schedule_runs ≡ s.schedule_runs = ground arith in
          rests_run id call (ap (run_view id) same)
      | inl (x, p) ↦
          let free : has run_key j s.schedule_runs ≡ false = ground arith in
          let same : s'.schedule_runs ≡ r ∷ s.schedule_runs = ground arith in
          let found = ap (find run_key id) same ∙ find-cons run_key id r s.schedule_runs in
          elim (Bool-cases (j == id)) [
            | inr off ↦ rests_run id call (ground (arith, found, off))
            | inl here ↦
                let absent : find run_key id s.schedule_runs ≡ none =
                  ground (arith, free, ap (λ k. find run_key k s.schedule_runs) (==→eq _ _ here)) in
                move (RunStep id call) (run_view id s.schedule_runs) (run_view id s'.schedule_runs)
                  none (some started) (ground (arith, absent)) (ground (arith, found, here))
                  (run_begins day pipeline now
                    (ap (λ k. ScheduleCall.starts k (some day) pipeline now) (==→eq _ _ here)))
          ]
    ]

ending :
    (id : Uuid) (call : ScheduleCall) (o : RunOutcome) (now : Instant)
    → call ≡ ScheduleCall.finishes id o now
    → RunStep id call (some started) (some (if o.is_success then succeeded else failed))
ending id call o now e = elim (Bool-cases o.is_success) [
  | inl well ↦
      subst (λ b. RunStep id call (some started) (some (if b then succeeded else failed)))
        (sym well) (run_succeeds o now e well)
  | inr badly ↦
      subst (λ b. RunStep id call (some started) (some (if b then succeeded else failed)))
        (sym badly) (run_fails o now e badly)
]

finish_run-cases :
    (j : Uuid) (o : RunOutcome) (now : Instant) (s : ScheduleTables)
    → ((finish_run j o now s).1.schedule_runs ≡ s.schedule_runs)
      ⊎ ((r : ScheduleRun) × (find run_key j s.schedule_runs ≡ some r)
          × (is_started r.state ≡ true)
          × ((finish_run j o now s).1.schedule_runs
              ≡ update run_key j (finished o now) s.schedule_runs))
unfolding finish_run
finish_run-cases j o now s = elim (Option-cases (find run_key j s.schedule_runs)) [
  | inl missing ↦ inl (ground arith)
  | inr (r, there) ↦ elim (Result-cases (finish_run j o now s).0) [
    | inr (e, p) ↦ inl (ground arith)
    | inl (x, p) ↦ inr (r, there, ground arith, ground arith)
  ]
]

pub finish_run-RunStep :
    (j : Uuid) (o : RunOutcome) (now : Instant) (s : ScheduleTables) (id : Uuid)
    → RunStep id
        (ScheduleCall.finishes j o now)
        (run_view id s.schedule_runs)
        (run_view id (finish_run j o now s).1.schedule_runs)
finish_run-RunStep j o now s id =
    let call = ScheduleCall.finishes j o now in
    let s' = (finish_run j o now s).1 in
    elim (finish_run-cases j o now s) [
      | inl same ↦ rests_run id call (ap (run_view id) same)
      | inr (r, there, running, same) ↦
          let found =
            ap (find run_key id) same
            ∙ find-update run_key id j (finished o now) s.schedule_runs (λ x e. e) in
          elim (Bool-cases (id == j)) [
            | inr off ↦ rests_run id call (ground (arith, found, off))
            | inl here ↦
                let old : find run_key id s.schedule_runs ≡ some r =
                  ap (λ k. find run_key k s.schedule_runs) (==→eq _ _ here) ∙ there in
                move (RunStep id call) (run_view id s.schedule_runs) (run_view id s'.schedule_runs)
                  (some started) (some (if o.is_success then succeeded else failed))
                  (ground (arith, old, started_only r.state running))
                  (ground (arith, found, here, there))
                  (ending id call o now
                    (ap (λ k. ScheduleCall.finishes k o now) (sym (==→eq _ _ here))))
          ]
    ]
