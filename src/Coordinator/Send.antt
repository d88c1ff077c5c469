-- ===== src/Coordinator/Send.antt =====
-- execution/coordinator.py: `submit_pending_command`, with the adapter of brokers/base.py as a
-- parameter. The answers of the broker may depend on everything that it was sent before.
use investing_agents.Prelude.{
  ⊤, Bool, not, ◌||◌, String, str_eq, Option, none, some, List, [], ◌∷◌, ◌==◌, if◌then◌else◌,
}
use investing_agents.Result.{
  Result, ok, err, Action, lift, ◌>>=◌, ◌>>◌, execution_disabled, domain_validation,
}
use investing_agents.Domain.Types.{
  Uuid, Instant, Environment, real, submission_pending, acknowledged, unknown, same_environment,
  same_state, CommandState, or_else,
}
use investing_agents.Domain.Evidence.{OrderIntent, LimitValue, plain}
use investing_agents.Domain.Command.{BrokerCommand, BrokerIds, CommandAttempt}
use investing_agents.Registry.{InstrumentTables}
use investing_agents.Store.Tables.{ExecutionStore}
use investing_agents.Store.Submission.{claim_submission, transition_command}
use investing_agents.Coordinator.Config.{ExecutionConfig, check_scope}

pub record BrokerSubmissionResult : Type 0 where
  pub request_id : Uuid
  pub accepted_for_processing : Bool
  pub broker_order_id : Option String
  pub broker_reference_id : Option String
  pub raw_status : String
  pub ambiguous : Bool

abbrev pub Send : Type 0
Send = OrderIntent × BrokerCommand

-- The part of BrokerAdapter that a submission uses.
pub record BrokerAdapter : Type 0 where
  pub broker_name : String
  pub environment : Environment
  pub read_only : Bool
  pub external_reference_identity : Bool
  pub submit_order : List Send → OrderIntent → BrokerCommand → Result BrokerSubmissionResult

-- The ledger, and what was sent to the broker, the last one first.
pub record World : Type 0 where
  pub store : ExecutionStore
  pub sends : List Send

-- A method of the store, called by the coordinator.
abbrev pub on_store : {A : Type 0} → Action ExecutionStore A → Action World A
on_store m w = let (r, s) = m w.store in (r, record w { store = s })

-- The tests of `submit_pending_command` before the claim.
unfoldable pub check_submit :
    ExecutionConfig → InstrumentTables → BrokerAdapter → BrokerCommand → OrderIntent → Result ⊤
check_submit c registry adapter command i =
    if not (same_state command.state submission_pending)
    then err (domain_validation "command is not submission_pending")
    else if not c.broker_writes_enabled
    then err (execution_disabled "broker writes are disabled by configuration")
    else elim (check_scope c registry i) [
      | err e ↦ err e
      | ok x ↦
          if same_environment command.environment real
          then err (execution_disabled "Real execution is outside the authorized scope")
          else if adapter.read_only
          then err (execution_disabled "selected broker adapter is read-only")
          else if not (same_environment adapter.environment command.environment)
          then err (execution_disabled "broker adapter environment mismatch")
          else if not (str_eq adapter.broker_name command.broker)
          then err (execution_disabled "broker adapter identity mismatch")
          else ok tt
    ]

abbrev pub first_attempt : BrokerCommand → Instant → CommandAttempt
first_attempt command now = record {
  attempt_number = 1;
  request_id = command.logical_request_id;
  attempted_at = now;
  outcome = "send_started";
}

-- What is recorded of an answer, or of an exception: the state, and the broker's identities. `text`
-- prints a UUID.
unfoldable pub outcome_of_send :
    (Uuid → String)
    → BrokerAdapter
    → BrokerCommand
    → Result BrokerSubmissionResult
    → CommandState × BrokerIds × List (String × LimitValue)
outcome_of_send text adapter command answer =
    let fallback =
      if adapter.external_reference_identity
      then none
      else some (text command.logical_request_id) in
    elim answer [
      | err e ↦ (
        unknown,
        record { order_id = none; reference_id = fallback; position_id = none },
        ("error_type", plain "exception") ∷ [],
      )
      | ok r ↦
          if not (r.request_id == command.logical_request_id) || r.ambiguous
          then (
            unknown,
            record {
              order_id = r.broker_order_id;
              reference_id = or_else r.broker_reference_id fallback;
              position_id = none;
            },
            ("broker_status", plain r.raw_status)
                ∷ ("reason", plain "ambiguous_or_mismatched_response")
                ∷ [],
          )
          else (
            if r.accepted_for_processing then acknowledged else CommandState.rejected,
            record {
              order_id = r.broker_order_id;
              reference_id = r.broker_reference_id;
              position_id = none;
            },
            ("broker_status", plain r.raw_status) ∷ [],
          )
    ]

-- `adapter.submit_order`: whatever it answers, the send was made.
abbrev pub call_broker :
    BrokerAdapter → OrderIntent → BrokerCommand → World → Result BrokerSubmissionResult × World
call_broker adapter i command w =
    (adapter.submit_order w.sends i command, record w { sends = (i, command) ∷ w.sends })

-- The exception is raised again after the state was recorded.
abbrev pub or_reraise : Result BrokerSubmissionResult → BrokerCommand → Action World BrokerCommand
or_reraise answer updated w = elim answer [ ok r ↦ (ok updated, w) | err e ↦ (err e, w) ]

-- The call of the broker and what follows it, for the command that `claim_submission` returned.
unfoldable pub send :
    (Uuid → String) → BrokerAdapter → OrderIntent → BrokerCommand → Action World BrokerCommand
send text adapter i command w =
    let (answer, w') = call_broker adapter i command w in
    let (state, ids, details) = outcome_of_send text adapter command answer in
    (on_store (transition_command command.command_id state details ids) >>= or_reraise answer) w'

unfoldable pub submit_pending_command :
    (Uuid → String)
    → ExecutionConfig
    → InstrumentTables
    → BrokerAdapter
    → BrokerCommand
    → OrderIntent
    → Instant
    → Action World BrokerCommand
submit_pending_command text c registry adapter command i now = do
  lift (check_submit c registry adapter command i)
  claimed ← on_store (claim_submission command i (first_attempt command now))
  send text adapter i claimed
