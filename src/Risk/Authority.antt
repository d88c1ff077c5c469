-- ===== src/Risk/Authority.antt =====
-- risk/approval.py: ApprovalAuthority. `hash` is `OrderIntent.compute_hash`, and the identity of a
-- new approval, which `uuid4` draws, is an argument. `immutable_pairs` also sorts the limits, whose
-- order no reader uses.
use investing_agents.Prelude.{
  ◌+◌, ⊤, Bool, not, String, str_eq, List, [], ◌∷◌, ◌++◌, ◌==◌, leb, if◌then◌else◌,
}
use investing_agents.Result.{Result, ok, err, approval_error}
use investing_agents.Domain.Types.{Uuid, Digest, Instant, is_accepted, same_environment}
use investing_agents.Domain.Evidence.{
  OrderIntent, RiskDecision, Approval, LimitValue, uuid_text, plain, validate_approval,
}
use investing_agents.Risk.Limits.{RiskLimits, seconds}
use investing_agents.Store.Submission.{earlier}

abbrev pub default_limits : RiskDecision → List (String × LimitValue)
default_limits d =
    ("risk_decision_id", uuid_text d.decision_id)
    ∷ ("account_snapshot_id", plain d.account_snapshot_id)
    ∷ ("quote_id", plain d.quote_id)
    ∷ []

unfoldable pub issue :
    RiskLimits
    → Uuid
    → OrderIntent
    → RiskDecision
    → String
    → Instant
    → Bool
    → List (String × LimitValue)
    → Result Approval
issue l id i d approver moment human_confirmed extra =
    if not human_confirmed
    then err (approval_error "explicit human confirmation is required per order")
    else if str_eq approver ""
    then err (approval_error "approver identity is required")
    else if not (d.intent_hash == i.intent_hash)
    then err (approval_error "risk decision does not bind to the current intent")
    else if not (is_accepted d.outcome)
    then err (approval_error "risk-rejected intent cannot be approved")
    else if not (leb d.decided_at moment)
    then err (approval_error "approval time precedes the risk decision")
    else let expires = earlier i.expires_at (moment + seconds l.approval_max_age_seconds) in
      if leb expires moment
      then err (approval_error "intent has already expired")
      else validate_approval (record {
        approval_id = id;
        intent_hash = i.intent_hash;
        approver = approver;
        environment = i.environment;
        limits = default_limits d ++ extra;
        issued_at = moment;
        expires_at = expires;
        schema_version = "1.0";
      })

unfoldable pub verify : (OrderIntent → Digest) → Approval → OrderIntent → Instant → Result ⊤
verify hash a i moment =
    if not (hash i == i.intent_hash)
    then err (approval_error "intent payload integrity check failed")
    else if not (a.intent_hash == i.intent_hash)
    then err (approval_error "intent change invalidated the approval")
    else if not (same_environment a.environment i.environment)
    then err (approval_error "approval environment mismatch")
    else if not (leb a.issued_at moment)
    then err (approval_error "approval is stale or not yet valid")
    else if leb a.expires_at moment
    then err (approval_error "approval is stale or not yet valid")
    else if leb i.expires_at moment
    then err (approval_error "intent expired after approval")
    else ok tt
