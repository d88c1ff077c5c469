-- ===== src/Scheduler/Trace/OneWait.antt =====
-- scheduler/store.py: no two approval waits are for one command.
use investing_agents.Prelude.{
  false, Option, none, some, List, ◌∷◌, ◌≡◌, refl, inl, inr, arith, Bool-cases, ap, sym, ◌∙◌, ◌==◌,
  ==→eq, ==-refl, subst, map,
}
use mathlib.Core.Option
use mathlib.Core.Option.{some-injective}
use investing_agents.Table.{find, has, update, find-update, find-cons, find-map, has-find}
use investing_agents.Domain.Types.{Uuid, Instant}
use investing_agents.Scheduler.Tables.{
  ScheduleTables, ApprovalWait, wait_key, waiting_command, empty_schedule,
}
use investing_agents.Scheduler.Waits.{approved_by, expired_at}
use investing_agents.Scheduler.Trace.{
  ScheduleCall, perform_schedule, run_schedule, run_schedule-preserves,
}
use investing_agents.Scheduler.Trace.Changes.{
  WaitChange, waits_kept, wait_requested, wait_approved, waits_swept, perform_schedule-WaitChange,
}

abbrev HasOneWait : List ApprovalWait → Type 0
HasOneWait rows =
    (i j : Uuid) (v w : ApprovalWait)
    → find wait_key i rows ≡ some v
    → find wait_key j rows ≡ some w
    → v.command_id ≡ w.command_id
    → i ≡ j

-- A row that a call found changed has the command of the row that was there.
abbrev KeepsCommands : List ApprovalWait → List ApprovalWait → Type 0
KeepsCommands rows rows' =
    (i : Uuid) (w : ApprovalWait)
    → find wait_key i rows' ≡ some w
    → (v : ApprovalWait) × (find wait_key i rows ≡ some v) × (v.command_id ≡ w.command_id)

KeepsCommands-HasOneWait :
    (rows rows' : List ApprovalWait) → KeepsCommands rows rows' → HasOneWait rows → HasOneWait rows'
KeepsCommands-HasOneWait rows rows' keeps one i j v w hv hw same =
    let (v0, hv0, ev) = keeps i v hv in
    let (w0, hw0, ew) = keeps j w hw in one i j v0 w0 hv0 hw0 (ev ∙ same ∙ sym ew)

mapped_row :
    (f : ApprovalWait → ApprovalWait)
    → ((x : ApprovalWait) → (f x).command_id ≡ x.command_id)
    → (o : Option ApprovalWait) (w : ApprovalWait) → Option.map f o ≡ some w
    → (v : ApprovalWait) × (o ≡ some v) × (v.command_id ≡ w.command_id)
mapped_row f same none w h = absurd (ground arith)
mapped_row f same (some v) w h =
    (v, refl, sym (same v) ∙ ap (λ (x : ApprovalWait). x.command_id) (some-injective _ _ h))

approved-KeepsCommands :
    (rows : List ApprovalWait) (k : Uuid) (f : ApprovalWait → ApprovalWait)
    → ((x : ApprovalWait) → (f x).wait_id ≡ x.wait_id)
    → ((x : ApprovalWait) → (f x).command_id ≡ x.command_id)
    → KeepsCommands rows (update wait_key k f rows)
approved-KeepsCommands rows k f keyed same i w h =
    let found = sym (find-update wait_key i k f rows (λ x e. keyed x ∙ e)) ∙ h in
    elim (Bool-cases (i == k)) [
      | inr off ↦ (w, ground (arith, found, off), refl)
      | inl here ↦
          let (v, there, e) =
            mapped_row f same (find wait_key k rows) w (ground (arith, found, here)) in
          (v, ap (λ n. find wait_key n rows) (==→eq i k here) ∙ there, e)
    ]

expired_at-keyed : (now : Instant) (x : ApprovalWait) → (expired_at now x).wait_id ≡ x.wait_id
expired_at-keyed now x = ground arith

expired_at-same : (now : Instant) (x : ApprovalWait) → (expired_at now x).command_id ≡ x.command_id
expired_at-same now x = ground arith

swept-KeepsCommands :
    (rows : List ApprovalWait) (now : Instant) → KeepsCommands rows (map (expired_at now) rows)
swept-KeepsCommands rows now i w h =
    mapped_row (expired_at now) (expired_at-same now) (find wait_key i rows) w
      (sym (find-map wait_key i (expired_at now) rows (expired_at-keyed now)) ∙ h)

requested-HasOneWait :
    (new : ApprovalWait) (rows : List ApprovalWait)
    → has waiting_command new.command_id rows ≡ false
    → HasOneWait rows
    → HasOneWait (new ∷ rows)
requested-HasOneWait new rows free one i j v w hv hw same =
    let fi = sym (find-cons wait_key i new rows) ∙ hv in
    let fj = sym (find-cons wait_key j new rows) ∙ hw in
    let other = has-find wait_key waiting_command in
    let rv : (k : Uuid) (x : ApprovalWait)
        → find wait_key k rows ≡ some x
        → (x.command_id == new.command_id) ≡ false =
      λ k x. other k new.command_id rows x free in
    elim (Bool-cases (new.wait_id == i)) [
      | inl here_i ↦ elim (Bool-cases (new.wait_id == j)) [
        | inl here_j ↦ ground arith
        | inr off_j ↦ absurd (
            ground (
              arith,
              same,
              fi,
              fj,
              here_i,
              off_j,
              rv j w (ground (arith, fj, off_j)),
              ==-refl new.command_id,
            ))
      ]
      | inr off_i ↦ elim (Bool-cases (new.wait_id == j)) [
        | inl here_j ↦ absurd (
            ground (
              arith,
              same,
              fi,
              fj,
              here_j,
              off_i,
              rv i v (ground (arith, fi, off_i)),
              ==-refl new.command_id,
            ))
        | inr off_j ↦ one i j v w (ground (arith, fi, off_i)) (ground (arith, fj, off_j)) same
      ]
    ]

WaitChange-HasOneWait :
    (s s' : ScheduleTables)
    → WaitChange s s'
    → HasOneWait s.approval_waits
    → HasOneWait s'.approval_waits
WaitChange-HasOneWait s s' (waits_kept same) one = subst HasOneWait (sym same) one
WaitChange-HasOneWait s s' (wait_requested new run command hash from until _ free _ _ same) one =
    subst HasOneWait (sym same) (requested-HasOneWait _ s.approval_waits free one)
WaitChange-HasOneWait s s' (wait_approved v j approval operator now _ _ _ _ same) one =
    subst HasOneWait (sym same) (
      KeepsCommands-HasOneWait _ _
        (approved-KeepsCommands s.approval_waits j (approved_by approval operator now) (λ x. refl)
          (λ x. refl))
        one)
WaitChange-HasOneWait s s' (waits_swept now same) one =
    subst HasOneWait (sym same)
      (KeepsCommands-HasOneWait _ _ (swept-KeepsCommands s.approval_waits now) one)

empty-HasOneWait : HasOneWait empty_schedule.approval_waits
unfolding find
empty-HasOneWait i j v w h = absurd (ground arith)

-- After any calls on empty tables, returned or raised, two stored approval waits for one command
-- are the same wait.
pub one_wait_per_command :
    (calls : List ScheduleCall) (i j : Uuid) (v w : ApprovalWait)
    → find wait_key i (run_schedule calls empty_schedule).approval_waits ≡ some v
    → find wait_key j (run_schedule calls empty_schedule).approval_waits ≡ some w
    → v.command_id ≡ w.command_id
    → i ≡ j
one_wait_per_command calls =
    run_schedule-preserves (λ s. HasOneWait s.approval_waits)
      (λ call s.
        WaitChange-HasOneWait s (perform_schedule call s) (perform_schedule-WaitChange call s))
      calls empty_schedule empty-HasOneWait
