-- ===== src/Risk/Gate.antt =====
-- risk/submission_gate.py: GovernanceWritePolicy and SubmissionGate.
use investing_agents.Prelude.{Bool, not, ◌&&◌, String, str_eq, ◌==◌, if◌then◌else◌}
use investing_agents.Result.{Result, ok, err, submission_blocked, approval_error}
use investing_agents.Domain.Types.{
  Uuid, Digest, Instant, Environment, is_accepted, same_environment,
}
use investing_agents.Domain.Evidence.{
  OrderIntent, RiskDecision, Approval, all_passed, limit_is, uuid_text,
}
use investing_agents.Risk.Limits.{RiskLimits, is_fresh}
use investing_agents.Risk.Authority.{verify}
use investing_agents.Risk.KillSwitch.{KillSwitchStatus, writes_allowed}

pub record GovernanceWritePolicy : Type 0 where
  pub execution_mode : String
  pub allow_broker_api : Bool
  pub allow_order_submission : Bool
  pub manual_signoff_required : Bool

abbrev pub demo_writes_allowed : GovernanceWritePolicy → Bool
demo_writes_allowed g =
    str_eq g.execution_mode "demo_manual"
    && g.allow_broker_api
    && g.allow_order_submission
    && g.manual_signoff_required

pub record SubmissionAuthorization : Type 0 where
  pub intent_hash : Digest
  pub risk_decision_id : Uuid
  pub approval_id : Uuid
  pub environment : Environment
  pub authorized_at : Instant

-- The tests of `authorize` on the configuration, the switch and the session.
unfoldable pub check_switches :
    RiskLimits
    → OrderIntent
    → KillSwitchStatus
    → Bool
    → Bool
    → GovernanceWritePolicy
    → Result (Unit {0})
check_switches l i k session_open writes_enabled g =
    if not writes_enabled
    then err (submission_blocked "broker writes are disabled by configuration")
    else if not (demo_writes_allowed g)
    then err (submission_blocked "governance does not authorize Demo writes")
    else if not (same_environment i.environment l.environment)
    then err (submission_blocked "intent environment is not authorized")
    else if not (same_environment k.environment i.environment)
    then err (submission_blocked "kill-switch environment mismatch")
    else if not (writes_allowed k)
    then err (submission_blocked "kill switch is engaged, missing, or corrupt")
    else if not session_open
    then err (submission_blocked "regular trading session is closed")
    else ok tt

-- The tests of `authorize` on the risk decision.
unfoldable pub check_decision :
    RiskLimits → OrderIntent → RiskDecision → Instant → Result (Unit {0})
check_decision l i d moment =
    if not (d.intent_hash == i.intent_hash)
    then err (submission_blocked "risk decision does not bind to the intent")
    else if not (is_accepted d.outcome && all_passed d.checks)
    then err (submission_blocked "current independent risk decision is not accepted")
    else if not (is_fresh d.decided_at moment l.account_max_age_seconds)
    then err (submission_blocked "risk/account evidence is stale at submission")
    else if not (is_fresh d.quote_observed_at moment l.quote_max_age_seconds)
    then err (submission_blocked "broker quote is stale at submission")
    else ok tt

-- `except ApprovalError: raise SubmissionBlockedError`
abbrev pub blocked : Result (Unit {0}) → Result (Unit {0})
blocked (ok a) = ok a
blocked (err (approval_error text)) = err (submission_blocked text)
blocked (err e) = err e

infixl 5 ◌>>>◌
abbrev pub ◌>>>◌ : {A : Type 0} → Result (Unit {0}) → Result A → Result A
ok a >>> rest = rest
err e >>> rest = err e

unfoldable pub authorize :
    (OrderIntent → Digest)
    → RiskLimits
    → OrderIntent
    → RiskDecision
    → Approval
    → KillSwitchStatus
    → Bool
    → Bool
    → GovernanceWritePolicy
    → Instant
    → Result SubmissionAuthorization
authorize hash l i d a k session_open writes_enabled g moment =
    check_switches l i k session_open writes_enabled g
    >>> check_decision l i d moment
    >>> blocked (verify hash a i moment)
    >>> (if limit_is "risk_decision_id" (uuid_text d.decision_id) a.limits
        then ok (record {
          intent_hash = i.intent_hash;
          risk_decision_id = d.decision_id;
          approval_id = a.approval_id;
          environment = i.environment;
          authorized_at = moment;
        })
        else err (submission_blocked "approval does not bind to the current risk decision"))
