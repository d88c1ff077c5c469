-- ===== src/Coordinator/Stored.antt =====
-- execution/store.py as the coordinator calls it: transitions that cannot fail, and the command that a
-- claim leaves.
use investing_agents.Prelude.{
  true, false, ℕ, ◌+◌, ◌≡◌, inl, inr, true, false, String, some, List, arith, ap, ◌∙◌, subst, any,
}
use investing_agents.Result.{ok, Result-cases}
use investing_agents.Table.{find, update, find-update}
use investing_agents.Domain.Types.{
  Uuid, CommandState, submission_pending, state_in, allowed_transitions,
}
use investing_agents.Domain.Evidence.{OrderIntent, LimitValue}
use investing_agents.Domain.Command.{
  BrokerCommand, BrokerIds, CommandAttempt, transition, with_attempt, validate_command,
}
use investing_agents.Store.Trace.Claims.{same_command-ids}
use investing_agents.Domain.Attempts.{
  transition-shape, IsWellFormed, TransitionSpec, transition_exact, with_attempt-shape,
}
use investing_agents.Store.Tables.{ExecutionStore, CommandRow, command_key, find_command, is_event}
use investing_agents.Store.Commands.{update_command, replaced}
use investing_agents.Store.Checks.{command_in_transaction}
use investing_agents.Store.Submission.{claim_submission, transition_command}
use investing_agents.Store.Shapes.Claim.{claim_submission-Granted}

-- An allowed transition of a well-formed command is made.
transition-returns :
    (target : CommandState) (ids : BrokerIds) (c : BrokerCommand)
    → IsWellFormed c
    → state_in target (allowed_transitions c.state) ≡ true
    → (c' : BrokerCommand) × (transition target ids c ≡ ok c')
      × (c'.state ≡ target)
      × (c'.command_id ≡ c.command_id)
transition-returns target ids c valid allowed =
    let exact = transition_exact target ids c valid in
    elim (Result-cases (transition target ids c)) [
      | inl (c', p) ↦ let shape = transition-shape target ids c p in (c', p, shape.1, shape.3.0)
      | inr (e, p) ↦ absurd (ground (arith, subst (TransitionSpec target ids c) p exact))
    ]

update_command-returns :
    (row : CommandRow) (updated : BrokerCommand) (details : List (String × LimitValue))
    → (s : ExecutionStore) → find_command s row.command.command_id ≡ some row
    → any (is_event row.command.command_id (row.revision + 1)) s.command_events ≡ false
    → ((update_command row updated details s).0 ≡ ok updated)
      × ((update_command row updated details s).1.broker_commands
          ≡ update command_key row.command.command_id
              (replaced updated (row.revision + 1))
              s.broker_commands)
unfolding update_command
update_command-returns row updated details s found fresh = (ground arith, ground arith)

transition_command-unfolded :
    (id : Uuid) (target : CommandState) (details : List (String × LimitValue)) (ids : BrokerIds)
    → (s : ExecutionStore) (row : CommandRow) (c' : BrokerCommand) → find_command s id ≡ some row
    → transition target ids row.command ≡ ok c'
    → (update_command row c' details s).0 ≡ ok c'
    → transition_command id target details ids s ≡ (ok c', (update_command row c' details s).1)
unfolding transition_command command_in_transaction
transition_command-unfolded id target details ids s row c' found moved done = ground arith

-- An allowed transition of a stored, well-formed command is made, and stored, unless the log has
-- its next event already.
pub transition_command-returns :
    (target : CommandState) (details : List (String × LimitValue)) (ids : BrokerIds)
    → (s : ExecutionStore) (row : CommandRow) → find_command s row.command.command_id ≡ some row
    → IsWellFormed row.command
    → state_in target (allowed_transitions row.command.state) ≡ true
    → any (is_event row.command.command_id (row.revision + 1)) s.command_events ≡ false
    → (c' : BrokerCommand) × (c'.state ≡ target)
      × ((transition_command row.command.command_id target details ids s).0 ≡ ok c')
      × (find_command
            (transition_command row.command.command_id target details ids s).1
            row.command.command_id
          ≡ some (record { command = c'; revision = row.revision + 1 }))
transition_command-returns target details ids s row found valid allowed fresh =
    let id = row.command.command_id in
    let (c', moved, at_target, same) = transition-returns target ids row.command valid allowed in
    let (done, rows) = update_command-returns row c' details s found fresh in
    let whole = transition_command-unfolded id target details ids s row c' found moved done in
    (
      c',
      at_target,
      ap (λ x. x.0) whole,
      ap (λ x. find_command x.1 id) whole
          ∙ ap (find command_key id) rows
          ∙ find-update command_key id id (replaced c' (row.revision + 1)) s.broker_commands
              (λ r e. same)
          ∙ ground (arith, found),
    )

with_attempt-IsWellFormed :
    (a : CommandAttempt) (c c' : BrokerCommand) → with_attempt a c ≡ ok c' → IsWellFormed c'
unfolding with_attempt validate_command
with_attempt-IsWellFormed a c c' h = ground arith

-- The command that a claim returns is stored, pending, well formed, and keeps its identities.
pub claimed-stored :
    (c : BrokerCommand) (i : OrderIntent) (t : CommandAttempt) (s : ExecutionStore)
    → (c' : BrokerCommand) → (claim_submission c i t s).0 ≡ ok c'
    → (n : ℕ) × (find_command (claim_submission c i t s).1 c'.command_id
        ≡ some (record { command = c'; revision = n }))
      × IsWellFormed c'
      × (c'.state ≡ submission_pending)
      × (c'.command_id ≡ c.command_id)
      × (c'.intent_hash ≡ c.intent_hash)
claimed-stored c i t s c' h =
    let g = claim_submission-Granted c i t s c' (claim_submission c i t s).1 (ground arith) in
    let id = g.row.command.command_id in
    let (history, state, keeps) = with_attempt-shape t g.row.command g.attempted in
    let ids = same_command-ids g.row.command c g.snapshot in
    let stored =
      find-update command_key id id (replaced c' (g.row.revision + 1)) s.broker_commands
        (λ r e. keeps.0) in
    (
      g.row.revision + 1,
      rw keeps.0 (ap (find command_key id) g.advanced.commands ∙ stored ∙ ground (arith, g.found)),
      with_attempt-IsWellFormed t g.row.command c' g.attempted,
      state ∙ g.pending,
      keeps.0 ∙ ids.0,
      keeps.2 ∙ ids.1,
    )
