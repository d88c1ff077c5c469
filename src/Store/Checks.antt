-- ===== src/Store/Checks.antt =====
-- execution/store.py: the reads and checks that the command transactions share.
use investing_agents.Prelude.{⊤, Bool, not, ◌&&◌, Option, none, some, ◌==◌, leb, ltb, if◌then◌else◌}
use investing_agents.Result.{Result, ok, err, store_error, domain_validation, type_error}
use investing_agents.Domain.Types.{Uuid, Instant, is_accepted, same_environment}
use investing_agents.Domain.Evidence.{
  OrderIntent, RiskDecision, Approval, same_intent, all_passed, limit_is, uuid_text, plain,
}
use investing_agents.Domain.Command.{BrokerCommand, same_command}
use investing_agents.Store.Tables.{
  ExecutionStore, CommandRow, Binding, find_command, find_binding, find_decision, latest_decision,
  find_intent,
}

-- `_command_in_transaction`; `expected` is the caller's snapshot, if it passes one.
unfoldable pub command_in_transaction :
    Uuid → Option BrokerCommand → ExecutionStore → Result CommandRow
command_in_transaction id expected s = elim (find_command s id) [
  | none ↦ err (store_error "unknown command")
  | some r ↦ elim expected [
    | none ↦ ok r
    | some e ↦
        if same_command r.command e
        then ok r
        else err (domain_validation "command snapshot is stale or differs from persisted evidence")
  ]
]

-- The test on the bound decision and on the latest one of the intent.
abbrev pub is_current : BrokerCommand → RiskDecision → RiskDecision → Bool
is_current c d latest =
    d.intent_hash == c.intent_hash
    && is_accepted d.outcome
    && all_passed d.checks
    && latest.decision_id == d.decision_id

-- `_bound_risk`; a missing row makes Python fail on `None[…]`.
unfoldable pub bound_risk : BrokerCommand → ExecutionStore → Result (Binding × RiskDecision)
bound_risk c s = elim (find_binding s c.command_id) [
  | none ↦ err (domain_validation "command has no persisted risk authorization")
  | some b ↦ elim (find_decision s b.risk_decision_id) [
    | none ↦ err type_error
    | some d ↦ elim (latest_decision s c.intent_hash) [
      | none ↦ err type_error
      | some latest ↦
          if is_current c d latest
          then ok (b, d)
          else err (domain_validation "bound risk decision is rejected or superseded")
    ]
  ]
]

-- The first test of `_validate_approval_binding`.
abbrev pub approval_binds : BrokerCommand → RiskDecision → Approval → Bool
approval_binds c d a =
    a.intent_hash == c.intent_hash
    && same_environment a.environment c.environment
    && limit_is "risk_decision_id" (uuid_text d.decision_id) a.limits
    && limit_is "account_snapshot_id" (plain d.account_snapshot_id) a.limits
    && limit_is "quote_id" (plain d.quote_id) a.limits

-- The second test: not before the decision, and at a time within the approval's window.
abbrev pub approval_is_valid_at : RiskDecision → Approval → Instant → Bool
approval_is_valid_at d a now =
    leb d.decided_at a.issued_at && leb a.issued_at now && ltb now a.expires_at

-- `_validate_approval_binding`
unfoldable pub validate_approval_binding :
    BrokerCommand → RiskDecision → Approval → Instant → Result ⊤
validate_approval_binding c d a now =
    if not (approval_binds c d a)
    then err (domain_validation "approval does not bind to command and risk evidence")
    else if not (approval_is_valid_at d a now)
    then err (domain_validation "approval is not currently valid")
    else ok tt

-- `_persisted_intent`
unfoldable pub persisted_intent : BrokerCommand → OrderIntent → ExecutionStore → Result ⊤
persisted_intent c i s = elim (find_intent s c.intent_hash) [
  | none ↦ err (domain_validation "command does not match the persisted intent")
  | some stored ↦
      if same_intent stored i
        && i.intent_hash == c.intent_hash
        && same_environment i.environment c.environment
      then ok tt
      else err (domain_validation "command does not match the persisted intent")
]
