-- ===== src/Tests/Ledger.antt =====
-- The ledger over a whole order.
use investing_agents.Prelude.{◌≡◌, refl, List, [], ◌∷◌}
use investing_agents.Result.{ok, err, Error}
use investing_agents.Table.{find, update}
use investing_agents.Domain.Types.{Instant, submission_pending, allowed_transitions, or_else}
use investing_agents.Domain.Evidence.{
  same_intent, same_decision, same_approval, limit_of, RiskDecision,
}
use investing_agents.Domain.Command.{
  BrokerCommand, transition, with_attempt, same_command, same_identity, same_progress,
  validate_command,
}
use investing_agents.Int.{◌*ℤ◌}
use investing_agents.Store.Tables.{ExecutionStore, CommandRow, Binding, ApprovalRow, empty_store}
use investing_agents.Store.Intents.{
  all_distinct, insert_intent, insert_intents, save_intents, insert_decision, insert_approval,
  mark_consumed,
}
use investing_agents.Store.Checks.{
  command_in_transaction, bound_risk, validate_approval_binding, persisted_intent,
}
use investing_agents.Store.Commands.{
  insert_command, update_command, insert_binding, check_new_command, save_risk_bound_command,
}
use investing_agents.Store.Submission.{
  approve_command, check_evidence, check_deadline, consume_and_open, authorize_submission,
  check_claim, consumed_approval, claim_submission,
}
use investing_agents.Store.Trace.{Call, perform, run}
use investing_agents.Store.Trace.Sends.{claim_granted_once, one_send_per_intent}
use investing_agents.Store.Trace.Evidence.{claim_rests_on_Evidence, Evidence}
use investing_agents.Tests.Samples.{intent, command_in, attempt, preparation}

abbrev sent : BrokerCommand
sent = record (command_in submission_pending) { attempt_history = attempt ∷ [] }

abbrev ready : ExecutionStore
ready = run preparation empty_store

claim-granted : (claim_submission (command_in submission_pending) intent attempt ready).0 ≡ ok sent
unfolding run perform save_intents insert_intents insert_intent all_distinct find update
    save_risk_bound_command check_new_command insert_decision insert_command insert_binding
    command_in_transaction transition validate_command update_command approve_command bound_risk
    validate_approval_binding insert_approval authorize_submission persisted_intent check_evidence
    consume_and_open check_deadline mark_consumed check_claim consumed_approval claim_submission
    with_attempt same_command same_identity same_progress same_intent same_decision same_approval
    limit_of allowed_transitions or_else ◌*ℤ◌
claim-granted = refl

-- After the first send, the order is lost sight of, and the same claim is tried again.
abbrev aftermath : List Call
aftermath = Call.claims (command_in submission_pending) intent attempt ∷ []

claim_granted_once_example :
    (x : Error) × ((claim_submission
        (command_in submission_pending)
        intent
        attempt
        (run aftermath (claim_submission (command_in submission_pending) intent attempt ready).1)).0
      ≡ err x)
claim_granted_once_example =
    claim_granted_once (command_in submission_pending) (command_in submission_pending) intent intent
      attempt attempt ready sent aftermath claim-granted refl

abbrev other_command : BrokerCommand
other_command = record (command_in submission_pending) { command_id = 42; logical_request_id = 52 }

one_send_per_intent_example :
    (x : Error) × ((claim_submission other_command intent attempt
        (run aftermath (claim_submission (command_in submission_pending) intent attempt ready).1)).0
      ≡ err x)
one_send_per_intent_example =
    one_send_per_intent preparation aftermath (command_in submission_pending) other_command intent
      intent attempt attempt sent claim-granted refl

claim_rests_on_Evidence_example :
    (row : CommandRow) × (b : Binding) × (d : RiskDecision) × (a : ApprovalRow) × (from : Instant)
    × (until : Instant) × (row.command.command_id ≡ 41)
    × Evidence row b d a from until attempt ready
claim_rests_on_Evidence_example =
    claim_rests_on_Evidence (command_in submission_pending) intent attempt ready sent claim-granted
