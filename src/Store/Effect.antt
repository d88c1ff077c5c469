-- ===== src/Store/Effect.antt =====
-- execution/store.py: the effect of a transaction on commands, events and authorizations, in the
-- four forms that the code has.
pub mod Rows
pub mod Operations
use investing_agents.Prelude.{
  ℕ, ◌+◌, ◌≡◌, ◌⊎◌, Bool, true, false, Option, none, some, List, [], ◌∷◌, is_some,
}
use investing_agents.Result.{ok}
use investing_agents.Domain.Types.{
  Uuid, CommandState, state_in, allowed_transitions, is_submit_order,
}
use investing_agents.Domain.Command.{BrokerCommand}
use investing_agents.Domain.Attempts.{Keeps}
use investing_agents.Store.Tables.{
  ExecutionStore, CommandRow, CommandEvent, Binding, find_command, find_binding,
}
use investing_agents.Store.Commands.{check_new_command}
use investing_agents.Store.Shapes.{Advanced}

abbrev pub is_claimed : Binding → Bool
is_claimed b = is_some b.submission_claimed_at

-- Authorizations are neither made nor lost, no claim is undone, and a new claim is that of the
-- submission command `row`.
pub record BindingsKept (row : CommandRow) (s s' : ExecutionStore) : Type 0 where
  pub forth :
      (j : Uuid) (b : Binding)
      → find_binding s j ≡ some b
      → (b' : Binding) × (find_binding s' j ≡ some b')
        × (is_claimed b ≡ true → is_claimed b' ≡ true)
  pub back :
      (j : Uuid) (b' : Binding)
      → find_binding s' j ≡ some b'
      → (b : Binding) × (find_binding s j ≡ some b)
        × ((is_claimed b' ≡ true → is_claimed b ≡ true)
            ⊎ ((j ≡ row.command.command_id) × (is_submit_order row.command.operation ≡ true)))

-- A new command at revision 0, with its first event.
pub record Inserted (c : BrokerCommand) (s s' : ExecutionStore) : Type 0 where
  pub fresh : find_command s c.command_id ≡ none
  pub commands : s'.broker_commands ≡ record { command = c; revision = 0 } ∷ s.broker_commands
  pub event : CommandEvent
  pub events : s'.command_events ≡ event ∷ s.command_events
  pub event_command : event.command_id ≡ c.command_id
  pub event_revision : event.revision ≡ 0
  pub event_previous : event.previous_state ≡ none
  pub event_state : event.new_state ≡ c.state

-- A new unclaimed authorization of the command.
pub record Bound (c : BrokerCommand) (s s' : ExecutionStore) : Type 0 where
  pub fresh : find_binding s c.command_id ≡ none
  pub binding : Binding
  pub bindings : s'.command_authorizations ≡ binding ∷ s.command_authorizations
  pub binding_command : binding.command_id ≡ c.command_id
  pub unclaimed : binding.submission_claimed_at ≡ none
  pub commands : s'.broker_commands ≡ s.broker_commands
  pub events : s'.command_events ≡ s.command_events

pub record Moved (row : CommandRow) (c' : BrokerCommand) (s s' : ExecutionStore) : Type 0 where
  pub found : find_command s row.command.command_id ≡ some row
  pub keeps : Keeps row.command c'
  pub step :
      (state_in c'.state (allowed_transitions row.command.state) ≡ true)
      ⊎ (c'.state ≡ row.command.state)
  pub before : ExecutionStore
  pub before_commands : before.broker_commands ≡ s.broker_commands
  pub before_events : before.command_events ≡ s.command_events
  pub advanced : Advanced row c' before s'
  pub kept : BindingsKept row s s'

pub data Effect (s s' : ExecutionStore) : Type 0 where
  unchanged :
      s'.broker_commands ≡ s.broker_commands
      → s'.command_events ≡ s.command_events
      → s'.command_authorizations ≡ s.command_authorizations
      → Effect s s'
  inserted :
      (c : BrokerCommand)
      → Inserted c s s'
      → s'.command_authorizations ≡ s.command_authorizations
      → Effect s s'
  opened :
      (c : BrokerCommand) (row : CommandRow) (c' : BrokerCommand) (s1 s2 : ExecutionStore)
      → check_new_command c s ≡ ok tt
      → Inserted c s s1
      → s1.command_authorizations ≡ s.command_authorizations
      → Bound c s1 s2
      → Moved row c' s2 s'
      → Effect s s'
  moved : (row : CommandRow) (c' : BrokerCommand) → Moved row c' s s' → Effect s s'
