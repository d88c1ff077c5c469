-- ===== src/Scheduler/Trace/Machines.antt =====
-- scheduler/store.py: one small state machine for each run and each wait, driven by the calls.
use investing_agents.Prelude.{
  ℕ, String, Bool, true, false, Option, none, some, List, [], ◌∷◌, ◌≡◌, refl, sym, subst,
}
use mathlib.Core.Option
use investing_agents.Table.{find}
use investing_agents.Domain.Types.{Uuid, Digest, Instant}
use investing_agents.Scheduler.Tables.{
  ScheduleRun, ApprovalWait, RunState, started, succeeded, failed, WaitState, awaiting, approved,
  expired, run_key, wait_key, is_started, is_awaiting,
}
use investing_agents.Scheduler.Runs.{RunOutcome}
use investing_agents.Scheduler.Trace.{ScheduleCall}

-- What one call may do to the run, or the wait, of one identity: nothing, or what the call is for.
-- A call that is refused does nothing.
pub data RunStep (id : Uuid) (call : ScheduleCall)
    : Option RunState → Option RunState → Type 0 where
  run_rests : {o : Option RunState} → RunStep id call o o
  run_begins :
      (day : ℕ) (pipeline : String) (now : Instant)
      → call ≡ ScheduleCall.starts id (some day) pipeline now
      → RunStep id call none (some started)
  run_succeeds :
      (o : RunOutcome) (now : Instant)
      → call ≡ ScheduleCall.finishes id o now
      → o.is_success ≡ true
      → RunStep id call (some started) (some succeeded)
  run_fails :
      (o : RunOutcome) (now : Instant)
      → call ≡ ScheduleCall.finishes id o now
      → o.is_success ≡ false
      → RunStep id call (some started) (some failed)

pub data WaitStep (id : Uuid) (call : ScheduleCall)
    : Option WaitState → Option WaitState → Type 0 where
  wait_rests : {o : Option WaitState} → WaitStep id call o o
  wait_begins :
      (run command : Uuid) (hash : Digest) (from until : Instant)
      → call ≡ ScheduleCall.requests id run command hash from until
      → WaitStep id call none (some awaiting)
  wait_is_approved :
      (approval : Uuid) (operator : String) (now : Instant) (human : Bool)
      → call ≡ ScheduleCall.approves id approval operator now human
      → WaitStep id call (some awaiting) (some approved)
  wait_expires :
      (now : Instant)
      → call ≡ ScheduleCall.expires now
      → WaitStep id call (some awaiting) (some expired)

-- What the machine sees of the tables.
abbrev pub run_view : Uuid → List ScheduleRun → Option RunState
run_view id rows = Option.map (λ (r : ScheduleRun). r.state) (find run_key id rows)

abbrev pub wait_view : Uuid → List ApprovalWait → Option WaitState
wait_view id rows = Option.map (λ (w : ApprovalWait). w.state) (find wait_key id rows)

pub move : {A : Type 0} (Step : A → A → Type 0) (a b c d : A) → a ≡ c → b ≡ d → Step c d → Step a b
move Step a b c d e f step = subst (λ x. Step x b) (sym e) (subst (Step c) (sym f) step)

pub rests_run :
    (id : Uuid) (call : ScheduleCall) {o o' : Option RunState} → o' ≡ o → RunStep id call o o'
rests_run id call {o} e = subst (RunStep id call o) (sym e) run_rests

pub rests_wait :
    (id : Uuid) (call : ScheduleCall) {o o' : Option WaitState} → o' ≡ o → WaitStep id call o o'
rests_wait id call {o} e = subst (WaitStep id call o) (sym e) wait_rests

pub started_only : (s : RunState) → is_started s ≡ true → s ≡ started
started_only started h = refl
started_only succeeded h = absurd (cc)
started_only failed h = absurd (cc)

pub awaiting_only : (s : WaitState) → is_awaiting s ≡ true → s ≡ awaiting
awaiting_only awaiting h = refl
awaiting_only approved h = absurd (cc)
awaiting_only expired h = absurd (cc)

-- A machine that makes one step for each call, in order.
pub data Lockstep {A : Type 0} (Step : ScheduleCall → A → A → Type 0)
    : List ScheduleCall → A → A → Type 0 where
  no_call : {a : A} → Lockstep Step [] a a
  then_call :
      {a b c : A} {call : ScheduleCall} {rest : List ScheduleCall}
      → Step call a b
      → Lockstep Step rest b c
      → Lockstep Step (call ∷ rest) a c
