-- ===== src/Scheduler/Trace/Sound.antt =====
-- scheduler/store.py: what holds of every approval wait.
use investing_agents.Prelude.{
  ◌+◌, ◌≤◌, ◌<◌, true, false, String, str_eq, none, some, List, ◌≡◌, refl, inl, inr, arith,
  Bool-cases, ap, sym, ◌∙◌, ◌==◌, Option-cases, subst,
}
use mathlib.Core.Option
use mathlib.Core.Option.{some-injective}
use investing_agents.Table.{find, find-update, find-cons_cases, find-map}
use investing_agents.Domain.Types.{Uuid, Instant}
use investing_agents.Risk.Limits.{seconds}
use investing_agents.Scheduler.Tables.{
  ScheduleTables, ApprovalWait, WaitState, awaiting, approved, expired, wait_key, is_awaiting,
  empty_schedule,
}
use investing_agents.Scheduler.Waits.{approved_by, expired_at, is_overdue}
use investing_agents.Scheduler.Trace.{
  ScheduleCall, perform_schedule, run_schedule, run_schedule-preserves,
}
use investing_agents.Scheduler.Trace.Changes.{
  WaitChange, waits_kept, wait_requested, wait_approved, waits_swept, perform_schedule-WaitChange,
}

-- What the columns of a wait say in each of its states.
abbrev pub Settlement : WaitState → ApprovalWait → Type 0
Settlement awaiting w = (w.approval_id ≡ none) × (w.resolved_at ≡ none)
Settlement approved w =
    (approval : Uuid) × (moment : Instant) × (w.approval_id ≡ some approval)
    × (w.resolved_at ≡ some moment)
    × (moment < w.expires_at)
    × (str_eq w.operator_id "" ≡ false)
Settlement expired w =
    (moment : Instant) × (w.approval_id ≡ none)
    × (w.resolved_at ≡ some moment)
    × (w.expires_at ≤ moment)

pub record IsSoundWait (w : ApprovalWait) : Type 0 where
  pub opens : w.requested_at < w.expires_at
  pub capped : w.expires_at ≤ w.requested_at + seconds 300
  pub settlement : Settlement w.state w

abbrev HasSoundWaits : ScheduleTables → Type 0
HasSoundWaits s =
    (id : Uuid) (w : ApprovalWait) → find wait_key id s.approval_waits ≡ some w → IsSoundWait w

-- An approval of a sound wait before its expiry, and the sweep of any sound wait, are sound.
approved_by-IsSoundWait :
    (w : ApprovalWait) (approval : Uuid) (operator : String) (now : Instant)
    → IsSoundWait w
    → now < w.expires_at
    → str_eq operator "" ≡ false
    → IsSoundWait (approved_by approval operator now w)
approved_by-IsSoundWait w approval operator now sound early named = record {
  opens = sound.opens;
  capped = sound.capped;
  settlement = (approval, now, refl, refl, early, named);
}

Settlement-awaiting :
    (state : WaitState) (w : ApprovalWait)
    → is_awaiting state ≡ true
    → Settlement state w
    → w.approval_id ≡ none
Settlement-awaiting awaiting w h (unapproved, _) = unapproved
Settlement-awaiting approved w h x = absurd (cc)
Settlement-awaiting expired w h x = absurd (cc)

expired_at-IsSoundWait :
    (w : ApprovalWait) (now : Instant) → IsSoundWait w → IsSoundWait (expired_at now w)
expired_at-IsSoundWait w now sound = elim (Bool-cases (is_overdue now w)) [
  | inr early ↦ subst IsSoundWait (ground (arith, early)) sound
  | inl late ↦
      let waiting : is_awaiting w.state ≡ true = ground arith in
      let swept : IsSoundWait (record w { state = expired; resolved_at = some now }) = record {
        opens = sound.opens;
        capped = sound.capped;
        settlement =
            (now, Settlement-awaiting w.state w waiting sound.settlement, refl, ground arith);
      } in
      subst IsSoundWait (ground (arith, late)) swept
]

WaitChange-HasSoundWaits :
    (s s' : ScheduleTables) → WaitChange s s' → HasSoundWaits s → HasSoundWaits s'
WaitChange-HasSoundWaits s s' (waits_kept same) sound id w h =
    sound id w (ap (find wait_key id) (sym same) ∙ h)
WaitChange-HasSoundWaits s s'
      (wait_requested new run command hash from until _ _ ordered short same) sound id w h =
    elim (find-cons_cases wait_key id _ s.approval_waits w (ap (find wait_key id) (sym same) ∙ h)) [
      | inr old ↦ sound id w old
      | inl e ↦
          subst IsSoundWait (sym e)
            (record { opens = ordered; capped = short; settlement = (refl, refl) })
    ]
WaitChange-HasSoundWaits s s'
      (wait_approved v j approval operator now there waiting early named same) sound id w h =
    let found =
      sym
        (find-update wait_key id j (approved_by approval operator now) s.approval_waits (λ x e. e))
      ∙ ap (find wait_key id) (sym same)
      ∙ h in
    elim (Bool-cases (id == j)) [
      | inr off ↦ sound id w (ground (arith, found, off))
      | inl here ↦
          let changed : approved_by approval operator now v ≡ w =
            ground (arith, found, here, there) in
          subst IsSoundWait changed
            (approved_by-IsSoundWait v approval operator now (sound j v there) early named)
    ]
WaitChange-HasSoundWaits s s' (waits_swept now same) sound id w h =
    let found =
      sym (find-map wait_key id (expired_at now) s.approval_waits (λ x. ground arith))
      ∙ ap (find wait_key id) (sym same)
      ∙ h in
    elim (Option-cases (find wait_key id s.approval_waits)) [
      | inl missing ↦ absurd (ground (arith, found, missing))
      | inr (v, there) ↦
          let changed : expired_at now v ≡ w =
            some-injective _ _ (ap (Option.map (expired_at now)) (sym there) ∙ found) in
          subst IsSoundWait changed (expired_at-IsSoundWait v now (sound id v there))
    ]

empty-HasSoundWaits : HasSoundWaits empty_schedule
unfolding find
empty-HasSoundWaits id w h = absurd (ground arith)

run-HasSoundWaits : (calls : List ScheduleCall) → HasSoundWaits (run_schedule calls empty_schedule)
run-HasSoundWaits calls =
    run_schedule-preserves HasSoundWaits
      (λ call s.
        WaitChange-HasSoundWaits s (perform_schedule call s) (perform_schedule-WaitChange call s))
      calls empty_schedule empty-HasSoundWaits

-- After any calls on empty tables, returned or raised, every stored wait expires after its request
-- and at most 300 seconds after it; an awaiting wait names no approval, an approved one names an
-- approval and a non-blank operator and was resolved before it expired, and an expired one names no
-- approval and was resolved no earlier than it expired.
pub stored_wait_IsSoundWait :
    (calls : List ScheduleCall) (id : Uuid) (w : ApprovalWait)
    → find wait_key id (run_schedule calls empty_schedule).approval_waits ≡ some w
    → IsSoundWait w
stored_wait_IsSoundWait calls = run-HasSoundWaits calls
