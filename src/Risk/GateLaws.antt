-- ===== src/Risk/GateLaws.antt =====
-- risk/approval.py and risk/submission_gate.py: what an issued approval is good for, and what an
-- authorization has checked.
use investing_agents.Prelude.{
  ◌*◌, refl, str_eq, [], ◌∷◌, some, Option-cases, ◌+◌, ◌≤◌, ◌<◌, ◌≡◌, ⊤, Bool, true, false, ◌&&◌,
  String, List, arith, inl, inr, ◌⊎◌, leb, ltb, ap, ◌∙◌,
}
use investing_agents.Result.{Result, ok, err, Error, Result-cases}
use investing_agents.Domain.Types.{
  Uuid, Digest, Instant, RiskOutcome, accepted, is_accepted, same_environment, same_environment-eq,
  same_environment_refl,
}
use investing_agents.Domain.Evidence.{
  RiskCheck, limit_of, plain, OrderIntent, RiskDecision, Approval, LimitValue, uuid_text,
  all_passed, limit_is, validate_approval,
}
use investing_agents.Risk.Limits.{RiskLimits, seconds}
use investing_agents.Risk.Authority.{issue, verify}
use investing_agents.Store.Submission.{earlier}
use investing_agents.Risk.KillSwitch.{KillSwitchStatus}
use investing_agents.Risk.Gate.{
  GovernanceWritePolicy, SubmissionAuthorization, check_switches, check_decision, authorize,
}

issue-shape :
    (l : RiskLimits) (id : Uuid) (i : OrderIntent) (d : RiskDecision)
    → (approver : String) (moment : Instant) (confirmed : Bool) (extra : List (String × LimitValue))
    → (a : Approval) → issue l id i d approver moment confirmed extra ≡ ok a
    → (a.intent_hash ≡ i.intent_hash)
      × (a.environment ≡ i.environment)
      × (a.issued_at ≡ moment)
      × (a.expires_at ≡ earlier i.expires_at (moment + seconds l.approval_max_age_seconds))
      × (moment < earlier i.expires_at (moment + seconds l.approval_max_age_seconds))
unfolding issue validate_approval
issue-shape l id i d approver moment confirmed extra a h = ground arith

earlier-bounds : (a b : Instant) → (earlier a b ≤ a) × (earlier a b ≤ b)
earlier-bounds a b = ground arith

abbrev pub is_ok : Result ⊤ → Bool
is_ok (ok x) = true
is_ok (err e) = false

verify-IsOk :
    (hash : OrderIntent → Digest) (a : Approval) (i : OrderIntent) (at : Instant)
    → a.intent_hash ≡ i.intent_hash
    → a.environment ≡ i.environment
    → hash i ≡ i.intent_hash
    → a.expires_at ≤ i.expires_at
    → is_ok (verify hash a i at) ≡ (leb a.issued_at at && ltb at a.expires_at)
unfolding verify
verify-IsOk hash a i at b e k early = ground arith

-- If an approval was issued at a moment for an intent whose hash is the one of its payload: it
-- expires after that moment, no later than the intent, and at most the configured age after that
-- moment; and it verifies against the intent at exactly the times from its issue to its expiry.
pub issue-verify :
    (hash : OrderIntent → Digest) (l : RiskLimits) (id : Uuid) (i : OrderIntent) (d : RiskDecision)
    → (approver : String) (moment : Instant) (confirmed : Bool) (extra : List (String × LimitValue))
    → (a : Approval) (at : Instant) → issue l id i d approver moment confirmed extra ≡ ok a
    → hash i ≡ i.intent_hash
    → (moment < a.expires_at)
      × (a.expires_at ≤ i.expires_at)
      × (a.expires_at ≤ moment + seconds l.approval_max_age_seconds)
      × (is_ok (verify hash a i at) ≡ (leb moment at && ltb at a.expires_at))
issue-verify hash l id i d approver moment confirmed extra a at h k =
    let (bound, placed, from, until, lasts) =
      issue-shape l id i d approver moment confirmed extra a h in
    let (early, aged) = earlier-bounds i.expires_at (moment + seconds l.approval_max_age_seconds) in
    (
      ground (arith, lasts, until),
      ground (arith, early, until),
      ground (arith, aged, until),
      verify-IsOk hash a i at bound placed k (ground (arith, early, until))
          ∙ ap (λ t. leb t at && ltb at a.expires_at) from,
    )

abbrev pub AllPassed : List RiskCheck → Type 0
AllPassed [] = ⊤
AllPassed (c ∷ cs) = (c.passed ≡ true) × AllPassed cs

-- The conditions of an authorization, on the fields of what it is given; instants are microseconds.
pub record MayAuthorize (hash : OrderIntent → Digest) (l : RiskLimits) (i : OrderIntent)
    (d : RiskDecision) (a : Approval) (k : KillSwitchStatus) (session_open writes_enabled : Bool)
    (g : GovernanceWritePolicy) (moment : Instant) : Type 0 where
  pub enabled : writes_enabled ≡ true
  pub demo_mode : str_eq g.execution_mode "demo_manual" ≡ true
  pub broker_api : g.allow_broker_api ≡ true
  pub order_submission : g.allow_order_submission ≡ true
  pub manual_signoff : g.manual_signoff_required ≡ true
  pub in_scope : i.environment ≡ l.environment
  pub switched : k.environment ≡ i.environment
  pub intact : k.integrity_valid ≡ true
  pub released : k.engaged ≡ false
  pub in_session : session_open ≡ true
  pub decided : d.intent_hash ≡ i.intent_hash
  pub accepted_outcome : d.outcome ≡ accepted
  pub passed_checks : AllPassed d.checks
  pub decided_before : d.decided_at ≤ moment
  pub account_age : moment ≤ d.decided_at + l.account_max_age_seconds * 1000000
  pub quoted_before : d.quote_observed_at ≤ moment
  pub quote_age : moment ≤ d.quote_observed_at + l.quote_max_age_seconds * 1000000
  pub payload : hash i ≡ i.intent_hash
  pub approved_intent : a.intent_hash ≡ i.intent_hash
  pub approved_place : a.environment ≡ i.environment
  pub issued_before : a.issued_at ≤ moment
  pub approval_holds : moment < a.expires_at
  pub intent_holds : moment < i.expires_at
  pub bound : limit_of "risk_decision_id" a.limits ≡ some (uuid_text d.decision_id)

is_accepted-eq : (o : RiskOutcome) → is_accepted o ≡ true → o ≡ accepted
is_accepted-eq accepted h = refl
is_accepted-eq RiskOutcome.rejected h = absurd (ground arith)

all_passed-AllPassed : (cs : List RiskCheck) → all_passed cs ≡ true → AllPassed cs
all_passed-AllPassed [] h = tt
all_passed-AllPassed (c ∷ cs) h = (ground arith, all_passed-AllPassed cs (ground arith))

AllPassed-all_passed : (cs : List RiskCheck) → AllPassed cs → all_passed cs ≡ true
AllPassed-all_passed [] h = refl
AllPassed-all_passed (c ∷ cs) (p, rest) = ground (arith, p, AllPassed-all_passed cs rest)

limit_is-bound :
    (key : String) (id : Uuid) (limits : List (String × LimitValue))
    → limit_is key (uuid_text id) limits ≡ true
    → limit_of key limits ≡ some (uuid_text id)
limit_is-bound key id limits h = elim (Option-cases (limit_of key limits)) [
  | inl missing ↦ absurd (ground arith)
  | inr (uuid_text v, p) ↦ ground arith
  | inr (plain text, p) ↦ absurd (ground arith)
]

verify-parts :
    (hash : OrderIntent → Digest) (a : Approval) (i : OrderIntent) (at : Instant) {z : ⊤}
    → verify hash a i at ≡ ok z
    → (hash i ≡ i.intent_hash)
      × (a.intent_hash ≡ i.intent_hash)
      × (a.environment ≡ i.environment)
      × (a.issued_at ≤ at)
      × (at < a.expires_at)
      × (at < i.expires_at)
unfolding verify
verify-parts hash a i at h =
    let same : same_environment a.environment i.environment ≡ true = ground arith in
    (
      ground arith,
      ground arith,
      same_environment-eq a.environment i.environment same,
      ground arith,
      ground arith,
      ground arith,
    )

abbrev pub authorization : OrderIntent → RiskDecision → Approval → Instant → SubmissionAuthorization
authorization i d a moment = record {
  intent_hash = i.intent_hash;
  risk_decision_id = d.decision_id;
  approval_id = a.approval_id;
  environment = i.environment;
  authorized_at = moment;
}

pub authorize-MayAuthorize :
    (hash : OrderIntent → Digest) (l : RiskLimits) (i : OrderIntent) (d : RiskDecision)
    (a : Approval)
    → (k : KillSwitchStatus) (session_open writes_enabled : Bool) (g : GovernanceWritePolicy)
    → (moment : Instant) (given : SubmissionAuthorization)
    → authorize hash l i d a k session_open writes_enabled g moment ≡ ok given
    → MayAuthorize hash l i d a k session_open writes_enabled g moment
unfolding authorize check_switches check_decision
authorize-MayAuthorize hash l i d a k session_open writes_enabled g moment given h =
    elim (Result-cases (check_switches l i k session_open writes_enabled g)) [
      | inr (e, p) ↦ absurd (ground arith)
      | inl (x, p) ↦ elim (Result-cases (check_decision l i d moment)) [
        | inr (e, q) ↦ absurd (ground arith)
        | inl (y, q) ↦ elim (Result-cases (verify hash a i moment)) [
          | inr (e, r) ↦ absurd (ground arith)
          | inl (z, r) ↦ record {
            enabled = ground arith;
            demo_mode = ground arith;
            broker_api = ground arith;
            order_submission = ground arith;
            manual_signoff = ground arith;
            in_scope = same_environment-eq i.environment l.environment (ground arith);
            switched = same_environment-eq k.environment i.environment (ground arith);
            intact = ground arith;
            released = ground arith;
            in_session = ground arith;
            decided = ground arith;
            accepted_outcome = is_accepted-eq d.outcome (ground arith);
            passed_checks = all_passed-AllPassed d.checks (ground arith);
            decided_before = ground arith;
            account_age = ground arith;
            quoted_before = ground arith;
            quote_age = ground arith;
            payload = (verify-parts hash a i moment r).0;
            approved_intent = (verify-parts hash a i moment r).1;
            approved_place = (verify-parts hash a i moment r).2;
            issued_before = (verify-parts hash a i moment r).3;
            approval_holds = (verify-parts hash a i moment r).4;
            intent_holds = (verify-parts hash a i moment r).5;
            bound = limit_is-bound "risk_decision_id" d.decision_id a.limits (ground arith);
          }
        ]
      ]
    ]

module _ (hash : OrderIntent → Digest) (l : RiskLimits) (i : OrderIntent) (d : RiskDecision)
    (a : Approval) (k : KillSwitchStatus) (session_open writes_enabled : Bool)
    (g : GovernanceWritePolicy) (moment : Instant)
    (m : MayAuthorize hash l i d a k session_open writes_enabled g moment) where
  passes_switches : check_switches l i k session_open writes_enabled g ≡ ok tt
  unfolding check_switches
  passes_switches = ground (
    arith,
    m.enabled,
    m.demo_mode,
    m.broker_api,
    m.order_submission,
    m.manual_signoff,
    m.in_scope,
    m.switched,
    m.intact,
    m.released,
    m.in_session,
    same_environment_refl i.environment,
  )

  passes_decision : check_decision l i d moment ≡ ok tt
  unfolding check_decision
  passes_decision = ground (
    arith,
    m.decided,
    m.accepted_outcome,
    AllPassed-all_passed d.checks m.passed_checks,
    m.decided_before,
    m.account_age,
    m.quoted_before,
    m.quote_age,
  )

  passes_verify : verify hash a i moment ≡ ok tt
  unfolding verify
  passes_verify = ground (
    arith,
    m.payload,
    m.approved_intent,
    m.approved_place,
    m.issued_before,
    m.approval_holds,
    m.intent_holds,
    same_environment_refl i.environment,
  )

  MayAuthorize-authorizes :
      authorize hash l i d a k session_open writes_enabled g moment
      ≡ ok (authorization i d a moment)
  unfolding authorize
  MayAuthorize-authorizes = ground (arith, passes_switches, passes_decision, passes_verify, m.bound)

-- The gate opens exactly if broker writes are enabled by the configuration; the governance is in
-- the mode "demo_manual", allows the broker's API and order submission and requires manual signoff;
-- intent, limits and kill switch are of one environment; the kill switch is valid and not engaged;
-- the session is open; the decision names the intent's hash, is accepted with every check passed,
-- and it and its quote are neither of the future nor older than the configured ages; the intent's
-- hash is the one of its payload, and the approval's hash and environment are the intent's; the
-- moment is no earlier than the approval's issue and before both the approval and the intent
-- expire; and the approval's limits name the decision. Then the gate's answer names these; else it
-- raises.
pub authorize_exact :
    (hash : OrderIntent → Digest) (l : RiskLimits) (i : OrderIntent) (d : RiskDecision)
    (a : Approval)
    → (k : KillSwitchStatus) (session_open writes_enabled : Bool) (g : GovernanceWritePolicy)
    → (moment : Instant)
    → (MayAuthorize hash l i d a k session_open writes_enabled g moment
        × (authorize hash l i d a k session_open writes_enabled g moment
            ≡ ok (authorization i d a moment)))
      ⊎ ((¬ (MayAuthorize hash l i d a k session_open writes_enabled g moment))
          × (e : Error) × (authorize hash l i d a k session_open writes_enabled g moment ≡ err e))
authorize_exact hash l i d a k session_open writes_enabled g moment =
    let given = MayAuthorize-authorizes hash l i d a k session_open writes_enabled g moment in
    elim (Result-cases (authorize hash l i d a k session_open writes_enabled g moment)) [
      | inl (x, p) ↦
          let may =
            authorize-MayAuthorize hash l i d a k session_open writes_enabled g moment x p in
          inl (may, given may)
      | inr (e, p) ↦ inr (λ may. ground (arith, given may, p), e, p)
    ]
