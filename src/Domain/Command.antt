-- ===== src/Domain/Command.antt =====
-- execution/domain.py: CommandAttempt and BrokerCommand with its two state-changing methods.
use investing_agents.Prelude.{
  ℕ, suc, ◌+◌, Bool, true, not, ◌&&◌, String, str_eq, Option, none, List, [], ◌∷◌, ◌++◌, ◌==◌,
  if◌then◌else◌, length, same_list, same_option,
}
use investing_agents.Result.{Result, ok, err, domain_validation, invalid_transition}
use investing_agents.Domain.Types.{
  Uuid, Digest, Instant, Environment, BrokerOperation, CommandState, proposed, state_in,
  allowed_transitions, or_else, same_environment, same_state, operation_index,
}

pub record CommandAttempt : Type 0 where
  pub attempt_number : ℕ
  pub request_id : Uuid
  pub attempted_at : Instant
  pub outcome : String

pub record BrokerCommand : Type 0 where
  pub command_id : Uuid
  pub logical_request_id : Uuid
  pub intent_hash : Digest
  pub operation : BrokerOperation
  pub broker : String
  pub environment : Environment
  pub payload_hash : Digest
  pub state : CommandState
  pub attempt_history : List CommandAttempt
  pub broker_order_id : Option String
  pub broker_reference_id : Option String
  pub broker_position_id : Option String
  pub schema_version : String

-- `[a.attempt_number for a in attempts] == list(range(n, n + len(attempts)))`
abbrev pub numbered_from : ℕ → List CommandAttempt → Bool
numbered_from n [] = true
numbered_from n (a ∷ rest) = a.attempt_number == n && numbered_from (suc n) rest

-- `BrokerCommand.__post_init__`
unfoldable pub validate_command : BrokerCommand → Result BrokerCommand
validate_command c =
    if str_eq c.broker ""
    then err (domain_validation "broker command identity fields must not be blank")
    else if not (numbered_from 1 c.attempt_history)
    then err (domain_validation "attempt history must be contiguous and ordered")
    else ok c

-- `BrokerCommand.create`, at the identifiers that `uuid4` and `payload_hash` gave.
unfoldable pub create :
    Uuid → Uuid → Digest → BrokerOperation → String → Environment → Digest → Result BrokerCommand
unfolding validate_command
create command_id logical_request_id intent_hash operation broker environment payload_hash =
    validate_command (record {
      command_id = command_id;
      logical_request_id = logical_request_id;
      intent_hash = intent_hash;
      operation = operation;
      broker = broker;
      environment = environment;
      payload_hash = payload_hash;
      state = proposed;
      attempt_history = [];
      broker_order_id = none;
      broker_reference_id = none;
      broker_position_id = none;
      schema_version = "1.0";
    })

-- What the broker may have told about a command; `none` where the call leaves it out.
pub record BrokerIds : Type 0 where
  pub order_id : Option String
  pub reference_id : Option String
  pub position_id : Option String

abbrev pub no_ids : BrokerIds
no_ids = record { order_id = none; reference_id = none; position_id = none }

-- `BrokerCommand.transition`; `replace` runs the constructor's checks again.
unfoldable pub transition : CommandState → BrokerIds → BrokerCommand → Result BrokerCommand
transition target ids c =
    if not (state_in target (allowed_transitions c.state))
    then err invalid_transition
    else validate_command (record c {
      state = target;
      broker_order_id = or_else ids.order_id c.broker_order_id;
      broker_reference_id = or_else ids.reference_id c.broker_reference_id;
      broker_position_id = or_else ids.position_id c.broker_position_id;
    })

-- `BrokerCommand.with_attempt`
unfoldable pub with_attempt : CommandAttempt → BrokerCommand → Result BrokerCommand
with_attempt a c =
    if not (a.attempt_number == length c.attempt_history + 1)
    then err (domain_validation "attempt number is not the next contiguous value")
    else validate_command (record c { attempt_history = c.attempt_history ++ a ∷ [] })

abbrev pub same_attempt : CommandAttempt → CommandAttempt → Bool
same_attempt a b =
    a.attempt_number == b.attempt_number
    && a.request_id == b.request_id
    && a.attempted_at == b.attempted_at
    && str_eq a.outcome b.outcome

unfoldable pub same_identity : BrokerCommand → BrokerCommand → Bool
same_identity a b =
    a.command_id == b.command_id
    && a.logical_request_id == b.logical_request_id
    && a.intent_hash == b.intent_hash
    && operation_index a.operation == operation_index b.operation
    && str_eq a.broker b.broker
    && same_environment a.environment b.environment
    && a.payload_hash == b.payload_hash

unfoldable pub same_progress : BrokerCommand → BrokerCommand → Bool
same_progress a b =
    same_state a.state b.state
    && same_list same_attempt a.attempt_history b.attempt_history
    && same_option str_eq a.broker_order_id b.broker_order_id
    && same_option str_eq a.broker_reference_id b.broker_reference_id
    && same_option str_eq a.broker_position_id b.broker_position_id
    && str_eq a.schema_version b.schema_version

-- The dataclass's `==`: every field is equal.
unfoldable pub same_command : BrokerCommand → BrokerCommand → Bool
same_command a b = same_identity a b && same_progress a b
