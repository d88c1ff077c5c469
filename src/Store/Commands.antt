-- ===== src/Store/Commands.antt =====
-- execution/store.py: the transactions on broker commands.
use investing_agents.Prelude.{
  ℕ, ◌+◌, ⊤, not, ◌&&◌, ◌||◌, none, some, List, [], ◌∷◌, ◌==◌, any, is_some, is_none, if◌then◌else◌,
  String, is_empty,
}
use investing_agents.Result.{
  Result, ok, err, Action, raise_if, lift, query, gets, transaction, ◌>>=◌, ◌>>◌, store_error,
  domain_validation, duplicate_request, integrity_error, submission_replay,
}
use investing_agents.Table.{has, update}
use investing_agents.Domain.Types.{
  Uuid, proposed, risk_rejected, awaiting_approval, same_state, is_accepted, is_submit_order,
  same_environment,
}
use investing_agents.Domain.Evidence.{RiskDecision, LimitValue}
use investing_agents.Domain.Command.{BrokerCommand, no_ids, transition}
use investing_agents.Store.Tables.{
  ExecutionStore, CommandRow, command_key, request_key, binding_key, binding_decision_key,
  find_command, find_intent, is_event, is_submission_of,
}
use investing_agents.Store.Intents.{insert_decision}
use investing_agents.Store.Checks.{command_in_transaction}

-- `_insert_command`: the command at revision 0 and its first event. Any constraint that fails is a
-- duplicate of the logical request.
unfoldable pub insert_command : BrokerCommand → Action ExecutionStore ⊤
insert_command c s =
    if has command_key c.command_id s.broker_commands
      || has request_key c.logical_request_id s.broker_commands
      || is_none (find_intent s c.intent_hash)
      || any (is_event c.command_id 0) s.command_events
    then (err duplicate_request, s)
    else (
      ok tt,
      record s {
        broker_commands = record { command = c; revision = 0 } ∷ s.broker_commands;
        command_events =
            record {
              command_id = c.command_id;
              revision = 0;
              previous_state = none;
              new_state = c.state;
              details = [];
            }
            ∷ s.command_events;
      },
    )

unfoldable pub save_command : BrokerCommand → Action ExecutionStore ⊤
save_command c = do
  known ← gets (λ s. is_some (find_intent s c.intent_hash))
  raise_if (not known) (store_error "command references an unknown intent")
  transaction (insert_command c)

-- `UPDATE broker_commands SET … WHERE command_id = ? AND revision = ?`
abbrev pub replaced : BrokerCommand → ℕ → CommandRow → CommandRow
replaced updated revision r = record { command = updated; revision = revision }

-- `_update_command`: the row moves to the next revision if it still has the one that was read, and
-- the move is recorded as an event.
unfoldable pub update_command :
    CommandRow → BrokerCommand → List (String × LimitValue) → Action ExecutionStore BrokerCommand
update_command row updated details s = elim (find_command s row.command.command_id) [
  | none ↦ (err (store_error "concurrent command transition rejected"), s)
  | some r ↦
      if not (r.revision == row.revision)
      then (err (store_error "concurrent command transition rejected"), s)
      else if any (is_event row.command.command_id (row.revision + 1)) s.command_events
      then (err integrity_error, s)
      else (
        ok updated,
        record s {
          broker_commands =
              update command_key row.command.command_id (replaced updated (row.revision + 1))
                s.broker_commands;
          command_events =
              record {
                command_id = row.command.command_id;
                revision = row.revision + 1;
                previous_state = some row.command.state;
                new_state = updated.state;
                details = details;
              }
              ∷ s.command_events;
        },
      )
]

-- The insert into command_authorizations: command_id is the primary key, risk_decision_id unique.
unfoldable pub insert_binding : Uuid → Uuid → Action ExecutionStore ⊤
insert_binding command_id decision_id s =
    if has binding_key command_id s.command_authorizations
      || has binding_decision_key decision_id s.command_authorizations
    then (err integrity_error, s)
    else (
      ok tt,
      record s {
        command_authorizations =
            record {
              command_id = command_id;
              risk_decision_id = decision_id;
              approval_id = none;
              authorized_at = none;
              valid_until = none;
              submission_claimed_at = none;
            }
            ∷ s.command_authorizations;
      },
    )

-- The first tests of `save_risk_bound_command` inside its transaction.
unfoldable pub check_new_command : BrokerCommand → ExecutionStore → Result ⊤
check_new_command c s = elim (find_intent s c.intent_hash) [
  | none ↦ err (store_error "command references an unknown intent")
  | some i ↦
      if not (same_environment c.environment i.environment)
      then err (domain_validation "command environment differs from intent")
      else if is_submit_order c.operation && any (is_submission_of c.intent_hash) s.broker_commands
      then err (submission_replay "intent already has a submission command; inspect/reconcile it")
      else ok tt
]

unfoldable pub save_risk_bound_command :
    BrokerCommand → RiskDecision → Action ExecutionStore BrokerCommand
save_risk_bound_command c d = do
  raise_if (not (same_state c.state proposed && is_empty c.attempt_history))
      (domain_validation "new command must be proposed without attempts")
  raise_if (not (c.intent_hash == d.intent_hash))
      (domain_validation "risk decision does not bind to command")
  transaction (do
    query (check_new_command c)
    insert_decision d
    insert_command c
    insert_binding c.command_id d.decision_id
    row ← query (command_in_transaction c.command_id none)
    updated ← lift (
        transition (if is_accepted d.outcome then awaiting_approval else risk_rejected) no_ids
          row.command)
    update_command row updated [])
