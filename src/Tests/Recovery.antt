-- ===== src/Tests/Recovery.antt =====
-- A send whose outcome was lost is reconciled by a lookup.
use investing_agents.Prelude.{◌≡◌, refl, true, false, some, [], ◌∷◌, ◌++◌, String, Option}
use investing_agents.Result.{ok}
use investing_agents.Table.{find, update}
use investing_agents.Int.{◌*ℤ◌}
use investing_agents.Domain.Types.{
  demo, submission_pending, unknown, filled, reconciled, allowed_transitions, or_else,
}
use investing_agents.Domain.Evidence.{same_intent, same_decision, same_approval, limit_of}
use investing_agents.Domain.Command.{
  BrokerCommand, no_ids, transition, with_attempt, same_command, same_identity, same_progress,
  validate_command,
}
use investing_agents.Store.Tables.{ExecutionStore, empty_store}
use investing_agents.Store.Intents.{
  all_distinct, insert_intent, insert_intents, save_intents, insert_decision, insert_approval,
  mark_consumed,
}
use investing_agents.Store.Checks.{
  command_in_transaction, bound_risk, validate_approval_binding, persisted_intent,
}
use investing_agents.Store.Commands.{
  insert_command, update_command, insert_binding, check_new_command, save_risk_bound_command,
}
use investing_agents.Store.Submission.{
  approve_command, check_evidence, check_deadline, consume_and_open, authorize_submission,
  check_claim, consumed_approval, claim_submission, transition_command, get_command,
}
use investing_agents.Store.Trace.{Call, perform, run}
use investing_agents.Coordinator.Recover.{
  LookupAdapter, BrokerReconciliationResult, begin_lookup, check_lookup, recovered_reference,
  record_lookup, reconcile_command,
}
use investing_agents.Coordinator.RecoverLaws.{RestsOnLookup, reconciled_by_lookup}
use investing_agents.Tests.Samples.{intent, command_in, attempt, preparation}

abbrev lost : ExecutionStore
lost =
    run
      (preparation
        ++ Call.claims (command_in submission_pending) intent attempt
          ∷ Call.transitions 41 unknown [] no_ids
          ∷ [])
      empty_store

abbrev answer : BrokerReconciliationResult
answer = record {
  command_id = 41;
  is_reconciled = true;
  lifecycle_state = some filled;
  broker_order_id = some "order-1";
  broker_position_id = some "position-1";
  details = [];
  execution_references = [];
}

abbrev broker : LookupAdapter
broker = record {
  broker_name = "etoro";
  environment = demo;
  external_reference_identity = false;
  lookup = λ c. ok answer;
}

abbrev canonical : String → Option String
canonical text = some text

abbrev settled : BrokerCommand
settled = record (command_in reconciled) {
  attempt_history = attempt ∷ [];
  broker_order_id = some "order-1";
  broker_position_id = some "position-1";
}

lookup-settled : (reconcile_command canonical broker 41 lost).0 ≡ ok (settled, answer)
unfolding run perform save_intents insert_intents insert_intent all_distinct find update
    save_risk_bound_command check_new_command insert_decision insert_command insert_binding
    command_in_transaction transition validate_command update_command approve_command bound_risk
    validate_approval_binding insert_approval authorize_submission persisted_intent check_evidence
    consume_and_open check_deadline mark_consumed check_claim consumed_approval claim_submission
    with_attempt same_command same_identity same_progress same_intent same_decision same_approval
    limit_of allowed_transitions or_else ◌*ℤ◌ transition_command get_command reconcile_command
    begin_lookup check_lookup recovered_reference record_lookup
lookup-settled = refl

reconciled_by_lookup_example :
    RestsOnLookup broker 41 lost (reconcile_command canonical broker 41 lost).1 settled answer
reconciled_by_lookup_example =
    reconciled_by_lookup canonical broker 41 lost settled answer lookup-settled
