-- ===== src/Domain/Attempts.antt =====
-- execution/domain.py: what `transition` and `with_attempt` do to a command.
use investing_agents.Prelude.{
  ℕ, suc, ◌+◌, ◌≡◌, true, false, List, [], ◌∷◌, ◌++◌, arith, length, ◌==◌, subst, sym, ◌⊎◌, inl,
  inr, refl, String, str_eq, Option, none, some, Bool-cases,
}
use investing_agents.Result.{Result, ok, err, domain_validation, invalid_transition}
use investing_agents.Domain.Types.{CommandState, state_in, allowed_transitions, or_else}
use investing_agents.Domain.Command.{
  BrokerCommand, BrokerIds, CommandAttempt, numbered_from, transition, with_attempt,
  validate_command,
}

numbered_from-append :
    (n : ℕ) (xs : List CommandAttempt) (a : CommandAttempt)
    → numbered_from n xs ≡ true
    → a.attempt_number ≡ n + length xs
    → numbered_from n (xs ++ a ∷ []) ≡ true
numbered_from-append n [] a h e = ground arith
numbered_from-append n (x ∷ xs) a h e = ground (arith, numbered_from-append (suc n) xs a)

-- The constructor's checks, which `transition` and `with_attempt` run again, pass on every command
-- that passed them before: the only failure left is the method's own, and what comes out is valid.
abbrev pub IsWellFormed : BrokerCommand → Type 0
IsWellFormed c = validate_command c ≡ ok c

abbrev pub Keeps : BrokerCommand → BrokerCommand → Type 0
Keeps c c' =
    (c'.command_id ≡ c.command_id)
    × (c'.logical_request_id ≡ c.logical_request_id)
    × (c'.intent_hash ≡ c.intent_hash)
    × (c'.operation ≡ c.operation)
    × (c'.environment ≡ c.environment)
    × (c'.payload_hash ≡ c.payload_hash)

-- A broker id that is given and not blank takes the place of the old one; else the old one stays.
abbrev pub IsTaken : Option String → Option String → Option String → Type 0
IsTaken none old new = new ≡ old
IsTaken (some text) old new =
    ((str_eq text "" ≡ false) × (new ≡ some text)) ⊎ ((str_eq text "" ≡ true) × (new ≡ old))

or_else-IsTaken : (given old : Option String) → IsTaken given old (or_else given old)
unfolding or_else
or_else-IsTaken none old = refl
or_else-IsTaken (some text) old = elim (Bool-cases (str_eq text "")) [
  | inl blank ↦ inr (blank, ground arith)
  | inr given ↦ inl (given, ground arith)
]

-- What a transition yields: every field of the new command is accounted for.
abbrev pub TransitionSpec : CommandState → BrokerIds → BrokerCommand → Result BrokerCommand → Type 0
TransitionSpec target ids c (ok c') =
    (state_in target (allowed_transitions c.state) ≡ true)
    × IsWellFormed c'
    × (c'.state ≡ target)
    × (c'.attempt_history ≡ c.attempt_history)
    × (c'.broker ≡ c.broker)
    × (c'.schema_version ≡ c.schema_version)
    × IsTaken ids.order_id c.broker_order_id c'.broker_order_id
    × IsTaken ids.reference_id c.broker_reference_id c'.broker_reference_id
    × IsTaken ids.position_id c.broker_position_id c'.broker_position_id
    × Keeps c c'
TransitionSpec target ids c (err e) =
    (state_in target (allowed_transitions c.state) ≡ false) × (e ≡ invalid_transition)

-- From a well-formed command, a transition succeeds exactly if the table allows the target; the
-- new command is then well formed, in that state, with the same ids, hashes, operation,
-- environment, broker, schema version and attempts, and each of the three broker ids is the one
-- given, or the old one where none or a blank one is given. The only error is the invalid
-- transition.
pub transition_exact :
    (target : CommandState) (ids : BrokerIds) (c : BrokerCommand)
    → IsWellFormed c
    → TransitionSpec target ids c (transition target ids c)
unfolding transition validate_command
transition_exact target ids c h = ground (
  arith,
  or_else-IsTaken ids.order_id c.broker_order_id,
  or_else-IsTaken ids.reference_id c.broker_reference_id,
  or_else-IsTaken ids.position_id c.broker_position_id,
)

abbrev pub AttemptSpec : CommandAttempt → BrokerCommand → Result BrokerCommand → Type 0
AttemptSpec a c (ok c') =
    (a.attempt_number ≡ length c.attempt_history + 1)
    × IsWellFormed c'
    × (c' ≡ record c { attempt_history = c.attempt_history ++ a ∷ [] })
AttemptSpec a c (err e) =
    ((a.attempt_number == length c.attempt_history + 1) ≡ false)
    × (e ≡ domain_validation "attempt number is not the next contiguous value")

-- From a well-formed command, an attempt is recorded exactly if its number is the next one; the
-- new command is then well formed, so its attempts are still numbered without a gap, and it is the
-- old command but for the attempt at the end of its history. Any other number raises.
pub with_attempt_exact :
    (a : CommandAttempt) (c : BrokerCommand) → IsWellFormed c → AttemptSpec a c (with_attempt a c)
unfolding with_attempt validate_command
with_attempt_exact a c h = ground (arith, numbered_from-append 1 c.attempt_history a)

-- The moves that the store makes, without the assumption on the command it starts from.
pub transition-shape :
    (target : CommandState) (ids : BrokerIds) (c : BrokerCommand) {c' : BrokerCommand}
    → transition target ids c ≡ ok c'
    → (state_in target (allowed_transitions c.state) ≡ true)
      × (c'.state ≡ target)
      × (c'.attempt_history ≡ c.attempt_history)
      × Keeps c c'
unfolding transition validate_command
transition-shape target ids c h = ground arith

pub with_attempt-shape :
    (a : CommandAttempt) (c : BrokerCommand) {c' : BrokerCommand}
    → with_attempt a c ≡ ok c'
    → (c'.attempt_history ≡ c.attempt_history ++ a ∷ []) × (c'.state ≡ c.state) × Keeps c c'
unfolding with_attempt validate_command
with_attempt-shape a c h = ground arith

pub transition-step :
    (target : CommandState) (ids : BrokerIds) (c : BrokerCommand) (c' : BrokerCommand)
    → transition target ids c ≡ ok c'
    → state_in c'.state (allowed_transitions c.state) ≡ true
transition-step target ids c c' h =
    let shape = transition-shape target ids c h in
    subst (λ t. state_in t (allowed_transitions c.state) ≡ true) (sym shape.1) shape.0
