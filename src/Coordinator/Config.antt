-- ===== src/Coordinator/Config.antt =====
-- execution/coordinator.py: ExecutionConfig with the checks of `load` on the parsed values, the
-- check of an intent, and the steps before the broker is called.
use investing_agents.Prelude.{
  ◌+◌, ⊤, Bool, false, not, ◌||◌, String, str_eq, none, some, List, [], ◌∷◌, ◌==◌, any, all,
  is_empty, if◌then◌else◌,
}
use investing_agents.Result.{
  Result, ok, err, Action, raise_if, lift, query, pure, ◌>>=◌, ◌>>◌, execution_disabled,
  intent_import, domain_validation,
}
use investing_agents.Decimal.{Decimal, whole, eq}
use investing_agents.Domain.Types.{
  Uuid, Digest, Instant, Environment, real, OrderSide, buy, sell, BrokerOperation, approved,
  same_environment, same_state,
}
use investing_agents.Domain.Evidence.{OrderIntent, RiskDecision, Approval, same_intent}
use investing_agents.Domain.Command.{BrokerCommand, create}
use investing_agents.Registry.{Instrument, InstrumentTables, registered}
use investing_agents.Risk.Limits.{RiskLimits, seconds}
use investing_agents.Risk.KillSwitch.{KillSwitchStatus}
use investing_agents.Risk.Gate.{GovernanceWritePolicy, authorize}
use investing_agents.Store.Tables.{ExecutionStore, find_intent}
use investing_agents.Store.Intents.{save_intent}
use investing_agents.Store.Commands.{save_risk_bound_command}
use investing_agents.Store.Submission.{authorize_submission, approve_command, earlier}

pub record ExecutionConfig : Type 0 where
  pub schema_version : String
  pub intent_import_enabled : Bool
  pub broker_writes_enabled : Bool
  pub adapter : String
  pub environment : Environment
  pub require_internal_instrument_id : Bool
  pub allowed_asset_types : List String
  pub allowed_sides : List String
  pub allowed_leverage : Decimal

abbrev pub is_in : List String → String → Bool
is_in texts text = any (λ t. str_eq t text) texts

-- The checks of `ExecutionConfig.load`, in order.
unfoldable pub validate_config : ExecutionConfig → Result ExecutionConfig
validate_config c =
    if same_environment c.environment real
    then err (execution_disabled "Real execution is outside the authorized scope")
    else if not
        (is_in ("offline" ∷ "fake" ∷ "etoro_demo_read_only" ∷ "etoro_demo_manual" ∷ []) c.adapter)
    then err (execution_disabled "unapproved execution adapter")
    else if not (all (is_in ("equity" ∷ "etf" ∷ [])) c.allowed_asset_types)
    then err (execution_disabled "only equities and ETFs are supported")
    else if is_empty c.allowed_sides || not (all (str_eq "buy") c.allowed_sides)
    then err (execution_disabled "initial Demo scope is buy/long only")
    else if not (eq c.allowed_leverage (whole 1))
    then err (execution_disabled "only unleveraged intents are supported")
    else if not c.require_internal_instrument_id
    then err (execution_disabled "ticker-only identity is forbidden")
    else ok c

-- `str(side)`
abbrev pub side_text : OrderSide → String
side_text buy = "buy"
side_text sell = "sell"

-- The tests of `_validate_intent` on the instrument that was found.
unfoldable pub check_intent : ExecutionConfig → Instrument → OrderIntent → Result ⊤
check_intent c n i =
    if not (same_environment i.environment c.environment)
    then err (intent_import "intent environment does not match coordinator")
    else if not (is_in c.allowed_asset_types n.asset_type)
    then err (intent_import "asset type is outside the long-only Demo scope")
    else if not (is_in c.allowed_sides (side_text i.side))
    then err (intent_import "side is outside the long-only Demo scope")
    else if not (eq i.target_leverage c.allowed_leverage)
    then err (intent_import "leverage must be exactly 1")
    else if not (str_eq n.currency i.currency)
    then err (intent_import "intent currency conflicts with instrument registry")
    else ok tt

-- `_validate_intent`
unfoldable pub check_scope : ExecutionConfig → InstrumentTables → OrderIntent → Result ⊤
check_scope c registry i = elim (registered i.internal_instrument_id registry) [
  | err e ↦ err e
  | ok n ↦ check_intent c n i
]

unfoldable pub prepare_intent :
    ExecutionConfig → InstrumentTables → OrderIntent → Action ExecutionStore OrderIntent
prepare_intent c registry i = do lift (check_scope c registry i); save_intent i; pure i

-- `self.store.get_intent(intent.intent_hash) != intent`
abbrev pub is_persisted : OrderIntent → ExecutionStore → Bool
is_persisted i s = elim (find_intent s i.intent_hash) [
  | none ↦ false
  | some stored ↦ same_intent stored i
]

-- The identities that `BrokerCommand.create` draws and the digest of the payload are arguments.
unfoldable pub record_risk_decision :
    ExecutionConfig
    → InstrumentTables
    → OrderIntent
    → RiskDecision
    → BrokerOperation
    → String
    → Uuid
    → Uuid
    → Digest
    → Action ExecutionStore BrokerCommand
record_risk_decision c registry i d operation broker command_id request_id payload = do
  lift (check_scope c registry i)
  same ← query (λ s. ok (is_persisted i s))
  raise_if (not same) (domain_validation "intent differs from persisted evidence")
  raise_if (not (d.intent_hash == i.intent_hash))
      (domain_validation "risk decision does not bind to this intent")
  command ← lift (create command_id request_id i.intent_hash operation broker i.environment payload)
  save_risk_bound_command command d

unfoldable pub record_approval :
    BrokerCommand → Approval → Instant → Action ExecutionStore BrokerCommand
record_approval command a now = approve_command command a now

-- The end of the window in which the send may be claimed.
abbrev pub valid_until : RiskLimits → OrderIntent → RiskDecision → Approval → Instant
valid_until l i d a = earlier (earlier i.expires_at a.expires_at) (
    earlier (d.decided_at + seconds l.account_max_age_seconds)
      (d.quote_observed_at + seconds l.quote_max_age_seconds))

unfoldable pub mark_submission_pending :
    (OrderIntent → Digest)
    → ExecutionConfig
    → InstrumentTables
    → RiskLimits
    → BrokerCommand
    → OrderIntent
    → RiskDecision
    → Approval
    → KillSwitchStatus
    → Bool
    → GovernanceWritePolicy
    → Instant
    → Action ExecutionStore BrokerCommand
mark_submission_pending hash c registry l command i d a k session_open g now = do
  raise_if (not (same_state command.state approved)) (domain_validation "command is not approved")
  lift (check_scope c registry i)
  lift (authorize hash l i d a k session_open c.broker_writes_enabled g now)
  authorize_submission command i d a now (valid_until l i d a)
