-- ===== src/Scheduler/Trace/Settled.antt =====
-- scheduler/store.py: rows of runs and waits that are settled.
use investing_agents.Prelude.{
  false, some, List, ◌≡◌, inl, inr, arith, Bool-cases, ap, ◌∙◌, ◌==◌, ==→eq,
}
use mathlib.Core.Option
use investing_agents.Table.{find, find-update, find-cons_kept, find-map}
use investing_agents.Domain.Types.{Uuid}
use investing_agents.Scheduler.Tables.{
  ScheduleTables, ScheduleRun, ApprovalWait, run_key, wait_key, is_started, is_awaiting,
}
use investing_agents.Scheduler.Runs.{finished}
use investing_agents.Scheduler.Waits.{approved_by, expired_at}
use investing_agents.Scheduler.Trace.{
  ScheduleCall, perform_schedule, run_schedule, run_schedule-preserves,
}
use investing_agents.Scheduler.Trace.Changes.{
  RunChange, runs_kept, run_started, run_finished, WaitChange, waits_kept, wait_requested,
  wait_approved, waits_swept, perform_schedule-RunChange, perform_schedule-WaitChange,
}

RunChange-settled :
    (s s' : ScheduleTables) (id : Uuid) (r : ScheduleRun)
    → RunChange s s'
    → is_started r.state ≡ false
    → find run_key id s.schedule_runs ≡ some r
    → find run_key id s'.schedule_runs ≡ some r
RunChange-settled s s' id r (runs_kept same) done h = ap (find run_key id) same ∙ h
RunChange-settled s s' id r (run_started new free _ same) done h =
    ap (find run_key id) same ∙ find-cons_kept run_key id new s.schedule_runs r free h
RunChange-settled s s' id r (run_finished q j o now there open_run same) done h =
    ap (find run_key id) same
    ∙ find-update run_key id j (finished o now) s.schedule_runs (λ x e. e)
    ∙ elim (Bool-cases (id == j)) [
      | inl here ↦ absurd (
          ground (
            arith,
            h,
            there,
            open_run,
            done,
            ap (λ k. find run_key k s.schedule_runs) (==→eq _ _ here),
          ))
      | inr off ↦ rw off h
    ]

WaitChange-settled :
    (s s' : ScheduleTables) (id : Uuid) (w : ApprovalWait)
    → WaitChange s s'
    → is_awaiting w.state ≡ false
    → find wait_key id s.approval_waits ≡ some w
    → find wait_key id s'.approval_waits ≡ some w
WaitChange-settled s s' id w (waits_kept same) done h = ap (find wait_key id) same ∙ h
WaitChange-settled s s' id w (wait_requested new run command hash from until free _ _ _ same) done
      h =
    ap (find wait_key id) same ∙ find-cons_kept wait_key id _ s.approval_waits w free h
WaitChange-settled s s' id w (wait_approved v j approval operator now there waiting _ _ same) done
      h =
    ap (find wait_key id) same
    ∙ find-update wait_key id j (approved_by approval operator now) s.approval_waits (λ x e. e)
    ∙ elim (Bool-cases (id == j)) [
      | inl here ↦ absurd (
          ground (
            arith,
            h,
            there,
            waiting,
            done,
            ap (λ k. find wait_key k s.approval_waits) (==→eq _ _ here),
          ))
      | inr off ↦ rw off h
    ]
WaitChange-settled s s' id w (waits_swept now same) done h =
    ap (find wait_key id) same
    ∙ find-map wait_key id (expired_at now) s.approval_waits (λ x. ground arith)
    ∙ ap (Option.map (expired_at now)) h
    ∙ ground (arith, done)

-- A run that is finished stays exactly as it is, whatever is called after.
pub finished_run_stays :
    (calls : List ScheduleCall) (s : ScheduleTables) (id : Uuid) (r : ScheduleRun)
    → is_started r.state ≡ false
    → find run_key id s.schedule_runs ≡ some r
    → find run_key id (run_schedule calls s).schedule_runs ≡ some r
finished_run_stays calls s id r done =
    run_schedule-preserves (λ t. find run_key id t.schedule_runs ≡ some r)
      (λ call t.
        RunChange-settled t (perform_schedule call t) id r (perform_schedule-RunChange call t) done)
      calls s

-- An approval wait that is approved or expired stays exactly as it is, whatever is called after: it
-- is not approved again, under no other operator, and is not revived.
pub settled_wait_stays :
    (calls : List ScheduleCall) (s : ScheduleTables) (id : Uuid) (w : ApprovalWait)
    → is_awaiting w.state ≡ false
    → find wait_key id s.approval_waits ≡ some w
    → find wait_key id (run_schedule calls s).approval_waits ≡ some w
settled_wait_stays calls s id w done =
    run_schedule-preserves (λ t. find wait_key id t.approval_waits ≡ some w)
      (λ call t.
        WaitChange-settled t (perform_schedule call t) id w (perform_schedule-WaitChange call t)
          done)
      calls s
