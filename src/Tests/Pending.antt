-- ===== src/Tests/Pending.antt =====
-- The sample order becomes pending through the gate.
use investing_agents.Prelude.{◌≡◌, refl, true, some, [], ◌∷◌}
use investing_agents.Result.{ok}
use investing_agents.Table.{find, update}
use investing_agents.Int.{◌*ℤ◌}
use investing_agents.Domain.Types.{submission_pending, allowed_transitions, or_else}
use investing_agents.Domain.Evidence.{same_intent, same_decision, same_approval, limit_of}
use investing_agents.Domain.Command.{
  transition, same_command, same_identity, same_progress, validate_command,
}
use investing_agents.Store.Tables.{ExecutionStore, empty_store}
use investing_agents.Store.Intents.{
  all_distinct, insert_intent, insert_intents, save_intents, insert_decision, insert_approval,
  mark_consumed,
}
use investing_agents.Store.Checks.{
  command_in_transaction, bound_risk, validate_approval_binding, persisted_intent,
}
use investing_agents.Store.Commands.{
  insert_command, update_command, insert_binding, check_new_command, save_risk_bound_command,
}
use investing_agents.Store.Submission.{
  approve_command, check_evidence, check_deadline, consume_and_open, authorize_submission,
}
use investing_agents.Store.Trace.{Call, perform, run}
use investing_agents.Domain.Types.{Instant, awaiting_approval, approved, proposed}
use investing_agents.Prelude.{◌<◌, ◌≤◌, ◌+◌}
use investing_agents.Store.Tables.{Binding, find_binding}
use investing_agents.Registry.{registered, get_instrument}
use investing_agents.Risk.Limits.{seconds}
use investing_agents.Risk.Authority.{verify}
use investing_agents.Risk.Gate.{authorize, check_switches, check_decision}
use investing_agents.Risk.GateLaws.{MayAuthorize}
use investing_agents.Coordinator.Config.{mark_submission_pending, check_scope, check_intent}
use investing_agents.Coordinator.Window.{pending_is_authorized}
use investing_agents.Store.Trace.{Call}
use investing_agents.Tests.Samples.{intent, decision, approval, command_in}
use investing_agents.Tests.Gate.{limits, hash, released, manual}
use investing_agents.Tests.Broker.{config, registry}

abbrev approved_store : ExecutionStore
approved_store =
    run
      (Call.saves_intents (intent ∷ [])
        ∷ Call.opens (command_in proposed) decision
        ∷ Call.approves (command_in awaiting_approval) approval 103000000
        ∷ [])
      empty_store

becomes_pending :
    (mark_submission_pending hash config registry limits
      (command_in approved)
      intent
      decision
      approval
      released
      true
      manual
      103500000
      approved_store).0
    ≡ ok (command_in submission_pending)
unfolding run perform save_intents insert_intents insert_intent all_distinct find update
    save_risk_bound_command check_new_command insert_decision insert_command insert_binding
    command_in_transaction transition validate_command update_command approve_command bound_risk
    validate_approval_binding insert_approval authorize_submission persisted_intent check_evidence
    consume_and_open check_deadline mark_consumed same_command same_identity same_progress
    same_intent same_decision same_approval limit_of allowed_transitions or_else ◌*ℤ◌
    mark_submission_pending check_scope check_intent registered get_instrument authorize
    check_switches check_decision verify
becomes_pending = refl

pending_is_authorized_example :
    let s =
      (mark_submission_pending hash config registry limits
        (command_in approved)
        intent
        decision
        approval
        released
        true
        manual
        103500000
        approved_store).1 in
    MayAuthorize hash limits intent decision approval released true true manual 103500000
    × (submission_pending ≡ submission_pending)
    × (b : Binding) × (until : Instant) × (find_binding s 41 ≡ some b)
    × (b.authorized_at ≡ some 103500000)
    × (b.valid_until ≡ some until)
    × (103500000 < until)
    × (until ≤ 1000000000)
    × (until ≤ 900000000)
    × (until ≤ 101000000 + seconds 30)
    × (until ≤ 100000000 + seconds 15)
pending_is_authorized_example =
    pending_is_authorized hash config registry limits (command_in approved) intent decision approval
      released true manual 103500000 approved_store (command_in submission_pending) becomes_pending
