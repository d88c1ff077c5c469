-- ===== src/Tests/Samples.antt =====
-- One order from its intent to the send claim.
use investing_agents.Prelude.{none, List, [], ◌∷◌, true, String}
use investing_agents.Decimal.{whole}
use investing_agents.Domain.Types.{
  demo, buy, market, fixed_notional, accepted, submit_order, proposed, awaiting_approval, approved,
  CommandState,
}
use investing_agents.Domain.Evidence.{
  OrderIntent, RiskCheck, RiskDecision, Approval, uuid_text, plain, LimitValue,
}
use investing_agents.Domain.Command.{BrokerCommand, CommandAttempt}
use investing_agents.Store.Trace.{Call}

abbrev pub intent : OrderIntent
intent = record {
  intent_id = 1;
  strategy_id = "momentum";
  run_id = "run-1";
  internal_instrument_id = 7;
  environment = demo;
  side = buy;
  order_type = market;
  sizing_method = fixed_notional;
  sizing_value = whole 100;
  currency = "USD";
  expires_at = 1000000000;
  intent_hash = 11;
  target_leverage = whole 1;
  limit_price = none;
  schema_version = "1.0";
}

abbrev pub check : RiskCheck
check = record { name = "long_only"; passed = true; observed = "buy"; limit_text = "buy" }

abbrev pub decision : RiskDecision
decision = record {
  decision_id = 21;
  intent_hash = 11;
  account_snapshot_id = "snap";
  quote_id = "quote";
  quote_observed_at = 100000000;
  computed_exposures = [];
  checks = check ∷ [];
  outcome = accepted;
  reasons = [];
  decided_at = 101000000;
  schema_version = "1.0";
}

abbrev pub bound_limits : List (String × LimitValue)
bound_limits =
    ("account_snapshot_id", plain "snap")
    ∷ ("quote_id", plain "quote")
    ∷ ("risk_decision_id", uuid_text 21)
    ∷ []

abbrev pub approval : Approval
approval = record {
  approval_id = 31;
  intent_hash = 11;
  approver = "human";
  environment = demo;
  limits = bound_limits;
  issued_at = 102000000;
  expires_at = 900000000;
  schema_version = "1.0";
}

abbrev pub command_in : CommandState → BrokerCommand
command_in state = record {
  command_id = 41;
  logical_request_id = 51;
  intent_hash = 11;
  operation = submit_order;
  broker = "etoro";
  environment = demo;
  payload_hash = 61;
  state = state;
  attempt_history = [];
  broker_order_id = none;
  broker_reference_id = none;
  broker_position_id = none;
  schema_version = "1.0";
}

abbrev pub attempt : CommandAttempt
attempt = record {
  attempt_number = 1;
  request_id = 51;
  attempted_at = 104000000;
  outcome = "send_started";
}

-- The calls up to the pending submission.
abbrev pub preparation : List Call
preparation =
    Call.saves_intents (intent ∷ [])
    ∷ Call.opens (command_in proposed) decision
    ∷ Call.approves (command_in awaiting_approval) approval 103000000
    ∷ Call.authorizes (command_in approved) intent decision approval 103500000 110000000
    ∷ []
