-- ===== src/Store/Trace/Evidence.antt =====
-- execution/store.py: the evidence behind a granted claim.
use investing_agents.Prelude.{
  ◌≡◌, inl, inr, true, none, some, [], arith, Bool-cases, Option-cases, sym, subst, ◌<◌, ◌≤◌,
  is_some,
}
use investing_agents.Result.{ok}
use investing_agents.Domain.Types.{Uuid, Instant, submission_pending, is_accepted}
use investing_agents.Domain.Evidence.{OrderIntent, RiskDecision, Approval, all_passed}
use investing_agents.Domain.Command.{BrokerCommand, CommandAttempt}
use investing_agents.Store.Tables.{
  ExecutionStore, CommandRow, Binding, ApprovalRow, find_command, find_binding, find_approval,
  latest_decision, find_decision,
}
use investing_agents.Store.Checks.{
  bound_risk, is_current, approval_binds, validate_approval_binding,
}
use investing_agents.Store.Submission.{claim_submission, check_claim, consumed_approval}
use investing_agents.Store.Shapes.Claim.{claim_submission-Granted}
use investing_agents.Store.Trace.Claims.{same_command-ids, bound_risk-binding}

-- What a granted claim rests on: `a` and `d` are the approval and the decision of the command
-- `row`, and `from` and `until` its window.
pub record Evidence (row : CommandRow) (b : Binding) (d : RiskDecision) (a : ApprovalRow)
    (from until : Instant) (t : CommandAttempt) (s : ExecutionStore) : Type 0 where
  pub stored : find_command s row.command.command_id ≡ some row
  pub pending : row.command.state ≡ submission_pending
  pub unsent : row.command.attempt_history ≡ []
  pub authorized : find_binding s row.command.command_id ≡ some b
  pub unclaimed : b.submission_claimed_at ≡ none
  pub window : (b.authorized_at ≡ some from) × (b.valid_until ≡ some until)
  pub in_time : (from ≤ t.attempted_at) × (t.attempted_at < until)
  pub decision : find_decision s b.risk_decision_id ≡ some d
  pub latest :
      (l : RiskDecision) × (latest_decision s row.command.intent_hash ≡ some l)
      × (l.decision_id ≡ d.decision_id)
  pub accepted_decision : is_accepted d.outcome ≡ true
  pub passed : all_passed d.checks ≡ true
  pub approved_by : (id : Uuid) × (b.approval_id ≡ some id) × (find_approval s id ≡ some a)
  pub used : is_some a.consumed_at ≡ true
  pub binds : approval_binds row.command d a.approval ≡ true
  pub current : (a.approval.issued_at ≤ t.attempted_at) × (t.attempted_at < a.approval.expires_at)
  pub original_request : t.request_id ≡ row.command.logical_request_id

check_claim-tests :
    (c : BrokerCommand) (b : Binding) (t : CommandAttempt)
    → check_claim c b t ≡ ok tt
    → (from : Instant) × (until : Instant) × (c.attempt_history ≡ [])
      × (b.submission_claimed_at ≡ none)
      × (b.authorized_at ≡ some from)
      × (b.valid_until ≡ some until)
      × (from ≤ t.attempted_at)
      × (t.attempted_at < until)
      × (t.request_id ≡ c.logical_request_id)
unfolding check_claim
check_claim-tests c b t h = elim (Option-cases b.authorized_at) [
  | inl missing ↦ absurd (ground arith)
  | inr (from, p) ↦ elim (Option-cases b.valid_until) [
    | inl missing ↦ absurd (ground arith)
    | inr (until, q) ↦
        (from, until, ground arith, ground arith, p, q, ground arith, ground arith, ground arith)
  ]
]

bound_risk-tests :
    (c : BrokerCommand) (s : ExecutionStore) (b : Binding) (d : RiskDecision)
    → bound_risk c s ≡ ok (b, d)
    → (l : RiskDecision) × (find_decision s b.risk_decision_id ≡ some d)
      × (latest_decision s c.intent_hash ≡ some l)
      × (is_current c d l ≡ true)
unfolding bound_risk
bound_risk-tests c s b d h = elim (Option-cases (latest_decision s c.intent_hash)) [
  | inl missing ↦ absurd (ground arith)
  | inr (l, p) ↦ (l, ground arith, p, ground arith)
]

consumed_approval-tests :
    (b : Binding) (s : ExecutionStore) (a : Approval)
    → consumed_approval b s ≡ ok a
    → (id : Uuid) × (r : ApprovalRow) × (b.approval_id ≡ some id)
      × (find_approval s id ≡ some r)
      × (r.approval ≡ a)
      × (is_some r.consumed_at ≡ true)
unfolding consumed_approval
consumed_approval-tests b s a h = elim (Option-cases b.approval_id) [
  | inl missing ↦ absurd (ground arith)
  | inr (id, p) ↦ elim (Option-cases (find_approval s id)) [
    | inl missing ↦ absurd (ground arith)
    | inr (r, q) ↦ (id, r, p, q, ground arith, ground arith)
  ]
]

approval_binding-tests :
    (c : BrokerCommand) (d : RiskDecision) (a : Approval) (now : Instant)
    → validate_approval_binding c d a now ≡ ok tt
    → (approval_binds c d a ≡ true) × (a.issued_at ≤ now) × (now < a.expires_at)
unfolding validate_approval_binding
approval_binding-tests c d a now h = elim (Bool-cases (approval_binds c d a)) [
  | inr fails ↦ absurd (ground (arith, fails))
  | inl binds ↦ (binds, ground (arith, binds), ground (arith, binds))
]

-- A send is claimed only on a command that is stored as pending, made no attempt and has an
-- unclaimed authorization; at a time within its window; while the decision it is bound to is stored,
-- accepted, has passed all checks and is the intent's latest; with its approval stored, consumed,
-- bound to that command and decision, and valid at that time; and under the request identity of the
-- command.
pub claim_rests_on_Evidence :
    (c : BrokerCommand) (i : OrderIntent) (t : CommandAttempt) (s : ExecutionStore)
    → (c' : BrokerCommand) → (claim_submission c i t s).0 ≡ ok c'
    → (row : CommandRow) × (b : Binding) × (d : RiskDecision) × (a : ApprovalRow) × (from : Instant)
      × (until : Instant) × (row.command.command_id ≡ c.command_id)
      × Evidence row b d a from until t s
claim_rests_on_Evidence c i t s c' h =
    let g = claim_submission-Granted c i t s c' (claim_submission c i t s).1 (ground arith) in
    let (from, until, unsent, unclaimed, starts, ends, after, before, request) =
      check_claim-tests g.row.command g.binding t g.checked in
    let (l, known, newest, current) =
      bound_risk-tests g.row.command s g.binding g.decision g.bound in
    let (id, r, named, kept, same, used) =
      consumed_approval-tests g.binding s g.approval g.consumed in
    let (binds, issued, expires) =
      approval_binding-tests g.row.command g.decision g.approval t.attempted_at g.valid in
    (
      g.row,
      g.binding,
      g.decision,
      r,
      from,
      until,
      (same_command-ids g.row.command c g.snapshot).0,
      record {
        stored = g.found;
        pending = g.pending;
        unsent = unsent;
        authorized = bound_risk-binding g.row.command s g.binding g.decision g.bound;
        unclaimed = unclaimed;
        window = (starts, ends);
        in_time = (after, before);
        decision = known;
        latest = (l, newest, ground (arith, current));
        accepted_decision = ground (arith, current);
        passed = ground (arith, current);
        approved_by = (id, named, kept);
        used = used;
        binds = subst (λ x. approval_binds g.row.command g.decision x ≡ true) (sym same) binds;
        current = (rw same issued, rw same expires);
        original_request = request;
      },
    )
