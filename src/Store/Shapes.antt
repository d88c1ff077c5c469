-- ===== src/Store/Shapes.antt =====
-- execution/store.py: what a command transaction that returned has read, and what it has written.
pub mod Claim
pub mod Approve
pub mod Authorize
pub mod Open
use investing_agents.Prelude.{
  ℕ, ◌+◌, ◌≡◌, refl, ◌⊎◌, inl, inr, Bool, true, false, not, Option, none, some, List, [], ◌∷◌, ◌==◌,
  arith, String,
}
use investing_agents.Result.{Result, ok, err, Action, query, lift, raise_if, Result-cases}
use investing_agents.Table.{find, update, find-key}
use investing_agents.Domain.Types.{Uuid, CommandState, state_in, allowed_transitions}
use investing_agents.Domain.Evidence.{LimitValue}
use investing_agents.Domain.Command.{BrokerCommand, BrokerIds, transition, same_command}
use investing_agents.Domain.Attempts.{Keeps, transition-shape}
use investing_agents.Store.Tables.{
  ExecutionStore, CommandRow, CommandEvent, command_key, find_command,
}
use investing_agents.Store.Checks.{command_in_transaction}
use investing_agents.Store.Commands.{update_command, replaced}
use investing_agents.Store.Submission.{transition_command}

pub command_in_transaction-found :
    (id : Uuid) (expected : Option BrokerCommand) (s : ExecutionStore) (row : CommandRow)
    → command_in_transaction id expected s ≡ ok row
    → (find_command s id ≡ some row) × (row.command.command_id ≡ id)
unfolding command_in_transaction
command_in_transaction-found id expected s row h =
    let e : find_command s id ≡ some row = ground arith in
    (e, find-key command_key id s.broker_commands row e)

-- The row of a command moved on by one revision, and one event was appended.
pub record Advanced (row : CommandRow) (c' : BrokerCommand) (s s' : ExecutionStore) : Type 0 where
  pub commands :
      s'.broker_commands
      ≡ update command_key row.command.command_id (replaced c' (row.revision + 1)) s.broker_commands
  pub event : CommandEvent
  pub events : s'.command_events ≡ event ∷ s.command_events
  pub event_command : event.command_id ≡ row.command.command_id
  pub event_revision : event.revision ≡ row.revision + 1
  pub event_previous : event.previous_state ≡ some row.command.state
  pub event_state : event.new_state ≡ c'.state
  pub intents : s'.order_intents ≡ s.order_intents
  pub decisions : s'.risk_decisions ≡ s.risk_decisions
  pub approvals : s'.approvals ≡ s.approvals
  pub bindings : s'.command_authorizations ≡ s.command_authorizations

pub update_command-Advanced :
    (row : CommandRow) (updated : BrokerCommand) (details : List (String × LimitValue))
    → (s : ExecutionStore) (c' : BrokerCommand) (s' : ExecutionStore)
    → update_command row updated details s ≡ (ok c', s')
    → (c' ≡ updated) × Advanced row c' s s'
unfolding update_command
update_command-Advanced row updated details s c' s' h = (
  ground arith,
  record {
    event = record {
      command_id = row.command.command_id;
      revision = row.revision + 1;
      previous_state = some row.command.state;
      new_state = updated.state;
      details = details;
    };
    commands = ground arith;
    events = ground arith;
    event_command = refl;
    event_revision = refl;
    event_previous = refl;
    event_state = ground arith;
    intents = ground arith;
    decisions = ground arith;
    approvals = ground arith;
    bindings = ground arith;
  },
)

pub transition_command-shape :
    (id : Uuid) (target : CommandState) (details : List (String × LimitValue)) (ids : BrokerIds)
    → (s : ExecutionStore) (c' : BrokerCommand) (s' : ExecutionStore)
    → transition_command id target details ids s ≡ (ok c', s')
    → (row : CommandRow) × (find_command s id ≡ some row)
      × (row.command.command_id ≡ id)
      × (transition target ids row.command ≡ ok c')
      × Advanced row c' s s'
unfolding transition_command
transition_command-shape id target details ids s c' s' h =
    elim (Result-cases (command_in_transaction id none s)) [
      | inr (e, p) ↦ absurd (ground arith)
      | inl (row, p) ↦ elim (Result-cases (transition target ids row.command)) [
        | inr (e, q) ↦ absurd (ground arith)
        | inl (u, q) ↦
            let (same, adv) = update_command-Advanced row u details s c' s' (ground arith) in
            let (found, named) = command_in_transaction-found id none s row p in
            (row, found, named, ground arith, adv)
      ]
    ]
