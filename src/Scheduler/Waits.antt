-- ===== src/Scheduler/Waits.antt =====
-- scheduler/store.py: the waits for a human approval.
use investing_agents.Prelude.{
  ℕ, ◌+◌, ◌-◌, ⊤, Bool, not, ◌&&◌, ◌||◌, String, str_eq, none, some, List, [], ◌∷◌, map, ltb, leb,
  is_none, if◌then◌else◌,
}
use investing_agents.Result.{ok, err, Action, schedule_store_error}
use investing_agents.Table.{find, has, update}
use investing_agents.Domain.Types.{Uuid, Digest, Instant}
use investing_agents.Risk.Limits.{seconds}
use investing_agents.Scheduler.Tables.{
  awaiting, approved, expired, is_awaiting, ApprovalWait, ScheduleTables, run_key, wait_key,
  waiting_command,
}

abbrev pub new_wait : Uuid → Uuid → Uuid → Digest → Instant → Instant → ApprovalWait
new_wait wait_id run_id command_id intent_hash requested expiry = record {
  wait_id = wait_id;
  schedule_run_id = run_id;
  command_id = command_id;
  intent_hash = intent_hash;
  state = awaiting;
  requested_at = requested;
  expires_at = expiry;
  approval_id = none;
  operator_id = "";
  resolved_at = none;
}

-- The run must be stored; the wait's identity and the command are unique.
unfoldable pub request_approval :
    Uuid → Uuid → Uuid → Digest → Instant → Instant → Action ScheduleTables ApprovalWait
request_approval wait_id run_id command_id intent_hash requested expiry s =
    if leb expiry requested || ltb (seconds 300) (expiry - requested)
    then (err (schedule_store_error "approval wait expiry is invalid"), s)
    else if has wait_key wait_id s.approval_waits
        || has waiting_command command_id s.approval_waits
        || is_none (find run_key run_id s.schedule_runs)
    then (err (schedule_store_error "command already has an approval wait"), s)
    else let w = new_wait wait_id run_id command_id intent_hash requested expiry in
      (ok w, record s { approval_waits = w ∷ s.approval_waits })

abbrev pub approved_by : Uuid → String → Instant → ApprovalWait → ApprovalWait
approved_by approval operator now w = record w {
  state = approved;
  approval_id = some approval;
  operator_id = operator;
  resolved_at = some now;
}

unfoldable pub approve_wait : Uuid → Uuid → String → Instant → Bool → Action ScheduleTables ⊤
approve_wait wait_id approval operator now human_confirmed s =
    if not human_confirmed || str_eq operator ""
    then (err (schedule_store_error "approval requires explicit human operator identity"), s)
    else elim (find wait_key wait_id s.approval_waits) [
      | none ↦
          (err (schedule_store_error "approval wait is stale, missing, or already resolved"), s)
      | some w ↦
          if is_awaiting w.state && ltb now w.expires_at
          then (
            ok tt,
            record s {
              approval_waits =
                  update wait_key wait_id (approved_by approval operator now) s.approval_waits;
            },
          )
          else (
            err (schedule_store_error "approval wait is stale, missing, or already resolved"),
            s,
          )
    ]

-- `WHERE state = 'awaiting' AND expires_at <= ?`
abbrev pub is_overdue : Instant → ApprovalWait → Bool
is_overdue now w = is_awaiting w.state && leb w.expires_at now

abbrev pub expired_at : Instant → ApprovalWait → ApprovalWait
expired_at now w =
    if is_overdue now w then record w { state = expired; resolved_at = some now } else w

unfoldable pub count_if : (ApprovalWait → Bool) → List ApprovalWait → ℕ
count_if test [] = 0
count_if test (w ∷ rest) = (if test w then 1 else 0) + count_if test rest

unfoldable pub expire_approvals : Instant → Action ScheduleTables ℕ
expire_approvals now s = (
  ok (count_if (is_overdue now) s.approval_waits),
  record s { approval_waits = map (expired_at now) s.approval_waits },
)
