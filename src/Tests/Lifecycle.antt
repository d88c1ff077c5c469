-- ===== src/Tests/Lifecycle.antt =====
-- Histories of states, and commands.
use investing_agents.Prelude.{◌≤◌, ◌≡◌, refl, true, false, List, [], ◌∷◌}
use investing_agents.Domain.Types.{
  CommandState, proposed, awaiting_approval, approved, submission_pending, filled, unknown,
  reconciling, reconciled, state_in, allowed_transitions,
}
use investing_agents.Domain.Command.{no_ids, transition, with_attempt, validate_command}
use investing_agents.Domain.Attempts.{
  TransitionSpec, transition_exact, AttemptSpec, with_attempt_exact,
}
use investing_agents.Domain.Lifecycle.{
  is_history, last_state, visits, settle, broker_side_was_approved_and_sent, pending_at_most_once,
  settles_and_stays, is_broker_side,
}
use investing_agents.Tests.Samples.{command_in, attempt}

abbrev filled_history : List CommandState
filled_history =
    awaiting_approval ∷ approved ∷ submission_pending ∷ unknown ∷ reconciling ∷ filled ∷ []

broker_side_was_approved_and_sent_example :
    (state_in approved filled_history ≡ true) × (state_in submission_pending filled_history ≡ true)
unfolding is_history last_state is_broker_side allowed_transitions
broker_side_was_approved_and_sent_example =
    broker_side_was_approved_and_sent filled_history refl refl

pending_at_most_once_example : visits submission_pending filled_history ≤ 1
unfolding is_history allowed_transitions
pending_at_most_once_example = pending_at_most_once filled_history refl

settles_and_stays_example :
    (is_history unknown (settle unknown) ≡ true)
    × (last_state unknown (settle unknown) ≡ reconciled)
    × (state_in proposed (allowed_transitions reconciled) ≡ false)
settles_and_stays_example = settles_and_stays unknown proposed

transition_exact_example :
    TransitionSpec unknown no_ids
      (command_in submission_pending)
      (transition unknown no_ids (command_in submission_pending))
unfolding validate_command
transition_exact_example = transition_exact unknown no_ids (command_in submission_pending) refl

with_attempt_exact_example :
    AttemptSpec attempt
      (command_in submission_pending)
      (with_attempt attempt (command_in submission_pending))
unfolding validate_command
with_attempt_exact_example = with_attempt_exact attempt (command_in submission_pending) refl
