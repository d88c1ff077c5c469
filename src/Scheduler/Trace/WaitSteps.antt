-- ===== src/Scheduler/Trace/WaitSteps.antt =====
-- scheduler/store.py: the step of a wait that each method on waits makes.
use investing_agents.Prelude.{
  String, Bool, true, false, none, some, ◌∷◌, ◌≡◌, refl, inl, inr, ◌⊎◌, arith, Bool-cases, ap, sym,
  ◌∙◌, ◌==◌, ==→eq, leb, ◌&&◌, Option-cases,
}
use investing_agents.Result.{Result-cases}
use investing_agents.Table.{find, has, update, find-update, find-cons, find-map}
use investing_agents.Domain.Types.{Uuid, Digest, Instant}
use investing_agents.Scheduler.Tables.{
  ScheduleTables, ApprovalWait, awaiting, approved, expired, wait_key, is_awaiting,
}
use investing_agents.Scheduler.Waits.{
  request_approval, approve_wait, expire_approvals, approved_by, expired_at, new_wait,
}
use investing_agents.Scheduler.Trace.{ScheduleCall}
use investing_agents.Scheduler.Trace.Machines.{
  WaitStep, wait_begins, wait_is_approved, wait_expires, wait_view, move, rests_wait, awaiting_only,
}

pub request_approval-WaitStep :
    (j run command : Uuid) (hash : Digest) (from until : Instant) (s : ScheduleTables) (id : Uuid)
    → WaitStep id
        (ScheduleCall.requests j run command hash from until)
        (wait_view id s.approval_waits)
        (wait_view id (request_approval j run command hash from until s).1.approval_waits)
unfolding request_approval
request_approval-WaitStep j run command hash from until s id =
    let call = ScheduleCall.requests j run command hash from until in
    let s' = (request_approval j run command hash from until s).1 in
    let w = new_wait j run command hash from until in
    elim (Result-cases (request_approval j run command hash from until s).0) [
      | inr (e, p) ↦
          let same : s'.approval_waits ≡ s.approval_waits = ground arith in
          rests_wait id call (ap (wait_view id) same)
      | inl (x, p) ↦
          let free : has wait_key j s.approval_waits ≡ false = ground arith in
          let same : s'.approval_waits ≡ w ∷ s.approval_waits = ground arith in
          let found = ap (find wait_key id) same ∙ find-cons wait_key id w s.approval_waits in
          elim (Bool-cases (j == id)) [
            | inr off ↦ rests_wait id call (ground (arith, found, off))
            | inl here ↦
                let absent : find wait_key id s.approval_waits ≡ none =
                  ground
                    (arith, free, ap (λ k. find wait_key k s.approval_waits) (==→eq _ _ here)) in
                move (WaitStep id call) (wait_view id s.approval_waits)
                  (wait_view id s'.approval_waits) none (some awaiting) (ground (arith, absent))
                  (ground (arith, found, here))
                  (wait_begins run command hash from until (
                    ap (λ k. ScheduleCall.requests k run command hash from until) (==→eq _ _ here)))
          ]
    ]

approve_wait-cases :
    (j approval : Uuid) (operator : String) (now : Instant) (human : Bool) (s : ScheduleTables)
    → ((approve_wait j approval operator now human s).1.approval_waits ≡ s.approval_waits)
      ⊎ ((w : ApprovalWait) × (find wait_key j s.approval_waits ≡ some w)
          × (is_awaiting w.state ≡ true)
          × ((approve_wait j approval operator now human s).1.approval_waits
              ≡ update wait_key j (approved_by approval operator now) s.approval_waits))
unfolding approve_wait
approve_wait-cases j approval operator now human s =
    elim (Option-cases (find wait_key j s.approval_waits)) [
      | inl missing ↦ inl (ground arith)
      | inr (w, there) ↦ elim (Result-cases (approve_wait j approval operator now human s).0) [
        | inr (e, p) ↦ inl (ground arith)
        | inl (x, p) ↦ inr (w, there, ground arith, ground arith)
      ]
    ]

pub approve_wait-WaitStep :
    (j approval : Uuid) (operator : String) (now : Instant) (human : Bool) (s : ScheduleTables)
    → (id : Uuid)
    → WaitStep id
        (ScheduleCall.approves j approval operator now human)
        (wait_view id s.approval_waits)
        (wait_view id (approve_wait j approval operator now human s).1.approval_waits)
approve_wait-WaitStep j approval operator now human s id =
    let call = ScheduleCall.approves j approval operator now human in
    let s' = (approve_wait j approval operator now human s).1 in
    elim (approve_wait-cases j approval operator now human s) [
      | inl same ↦ rests_wait id call (ap (wait_view id) same)
      | inr (w, there, waiting, same) ↦
          let found =
            ap (find wait_key id) same
            ∙ find-update wait_key id j (approved_by approval operator now) s.approval_waits
                (λ x e. e) in
          elim (Bool-cases (id == j)) [
            | inr off ↦ rests_wait id call (ground (arith, found, off))
            | inl here ↦
                let old : find wait_key id s.approval_waits ≡ some w =
                  ap (λ k. find wait_key k s.approval_waits) (==→eq _ _ here) ∙ there in
                move (WaitStep id call) (wait_view id s.approval_waits)
                  (wait_view id s'.approval_waits) (some awaiting) (some approved)
                  (ground (arith, old, awaiting_only w.state waiting))
                  (ground (arith, found, here, there))
                  (wait_is_approved approval operator now human (
                    ap (λ k. ScheduleCall.approves k approval operator now human)
                      (sym (==→eq _ _ here))))
          ]
    ]

swept-WaitStep :
    (id : Uuid) (w : ApprovalWait) (now : Instant)
    → WaitStep id (ScheduleCall.expires now) (some w.state) (some (expired_at now w).state)
swept-WaitStep id w now =
    let call = ScheduleCall.expires now in
    elim (Bool-cases (is_awaiting w.state && leb w.expires_at now)) [
      | inr stays ↦ rests_wait id call (ground (arith, stays))
      | inl late ↦
          move (WaitStep id call) (some w.state) (some (expired_at now w).state) (some awaiting)
            (some expired) (ap some (awaiting_only w.state (ground (arith, late))))
            (ground (arith, late)) (wait_expires now refl)
    ]

pub expire_approvals-WaitStep :
    (now : Instant) (s : ScheduleTables) (id : Uuid)
    → WaitStep id
        (ScheduleCall.expires now)
        (wait_view id s.approval_waits)
        (wait_view id (expire_approvals now s).1.approval_waits)
unfolding expire_approvals
expire_approvals-WaitStep now s id =
    let call = ScheduleCall.expires now in
    let found = find-map wait_key id (expired_at now) s.approval_waits (λ x. ground arith) in
    elim (Option-cases (find wait_key id s.approval_waits)) [
      | inl missing ↦ rests_wait id call (ground (arith, found, missing))
      | inr (w, there) ↦
          move (WaitStep id call) (wait_view id s.approval_waits)
            (wait_view id (expire_approvals now s).1.approval_waits) (some w.state)
            (some (expired_at now w).state) (ground (arith, there)) (ground (arith, found, there))
            (swept-WaitStep id w now)
    ]
