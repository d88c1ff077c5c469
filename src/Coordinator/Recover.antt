-- ===== src/Coordinator/Recover.antt =====
-- execution/coordinator.py: `reconcile_command`. The broker's lookup is a parameter.
use investing_agents.Prelude.{
  Bool, true, false, not, ◌&&◌, ◌||◌, String, str_eq, Option, none, some, List, [], ◌∷◌, ◌==◌, any,
  is_empty, map, if◌then◌else◌, same_option,
}
use investing_agents.Result.{
  Result, ok, err, Action, raise_if, lift, query, pure, or_raise, ◌>>=◌, ◌>>◌, execution_disabled,
  domain_validation, value_error,
}
use investing_agents.Domain.Types.{
  Uuid, Environment, CommandState, submission_pending, acknowledged, partially_filled,
  cancel_pending, unknown, reconciling, reconciled, same_environment, same_state, state_in,
  state_text,
}
use investing_agents.Domain.Evidence.{LimitValue, plain}
use investing_agents.Domain.Command.{BrokerCommand, no_ids}
use investing_agents.Store.Tables.{ExecutionStore}
use investing_agents.Store.Submission.{get_command, transition_command}

-- The fields of BrokerReconciliationResult; of each execution the reference, which is all that the
-- coordinator reads. A lifecycle text that is no CommandState is `none`.
pub record BrokerReconciliationResult : Type 0 where
  pub command_id : Uuid
  pub is_reconciled : Bool
  pub lifecycle_state : Option CommandState
  pub broker_order_id : Option String
  pub broker_position_id : Option String
  pub details : List (String × String)
  pub execution_references : List String

-- The part of BrokerAdapter that a reconciliation uses.
pub record LookupAdapter : Type 0 where
  pub broker_name : String
  pub environment : Environment
  pub external_reference_identity : Bool
  pub lookup : BrokerCommand → Result BrokerReconciliationResult

-- `dict(pairs).get(key)`, where None and "" count as absent.
unfoldable pub detail_of : String → List (String × String) → Option String
detail_of key [] = none
detail_of key ((k, v) ∷ rest) =
    let later = detail_of key rest in
    if any (λ (p : String × String). str_eq p.0 key) rest
    then later
    else if str_eq k key && not (str_eq v "")
    then some v
    else none

-- `stored and value != stored`
abbrev pub conflicts : Option String → Option String → Bool
conflicts none value = false
conflicts (some stored) value =
    not (str_eq stored "") && not (same_option str_eq value (some stored))

-- The reference identity that an external lookup proves; `canonical` is `str(UUID(text))`.
unfoldable pub recovered_reference :
    (String → Option String)
    → LookupAdapter
    → BrokerCommand
    → BrokerReconciliationResult
    → Result (Option String)
recovered_reference canonical adapter c r =
    if not adapter.external_reference_identity
    then ok none
    else elim (detail_of "connector_broker_reference_id" r.details) [
      | none ↦
          if is_empty r.execution_references
          then ok none
          else err (domain_validation "external broker execution reference identity unproven")
      | some candidate ↦ elim (canonical candidate) [
        | none ↦ err (domain_validation "broker lookup reference identity invalid")
        | some reference ↦
            if conflicts c.broker_reference_id (some reference)
              || any (λ x. not (str_eq x reference)) r.execution_references
            then err (domain_validation "broker lookup returned a conflicting reference identity")
            else ok (some reference)
      ]
    ]

-- The tests on the answer of the lookup, up to the transition: the reference and the target.
unfoldable pub check_lookup :
    (String → Option String)
    → LookupAdapter
    → BrokerCommand
    → BrokerReconciliationResult
    → Result (Option String × CommandState)
check_lookup canonical adapter c r =
    if not (r.command_id == c.command_id)
    then err (domain_validation "broker lookup returned another command identity")
    else if conflicts c.broker_order_id r.broker_order_id
    then err (domain_validation "broker lookup returned a conflicting order identity")
    else elim (recovered_reference canonical adapter c r) [
      | err e ↦ err e
      | ok reference ↦ elim r.lifecycle_state [
        | none ↦ err value_error
        | some target ↦ ok (reference, target)
      ]
    ]

abbrev pub plain_details : List (String × String) → List (String × LimitValue)
plain_details details = map (λ (p : String × String). (p.0, plain p.1)) details

-- `if current.state in states: current = self.store.transition_command(...)`
abbrev pub move_from :
    List CommandState → CommandState → BrokerCommand → Action ExecutionStore BrokerCommand
move_from states target c s =
    if state_in c.state states
    then transition_command c.command_id target [] no_ids s
    else (ok c, s)

-- The moves to `reconciling` before the broker is asked.
unfoldable pub begin_lookup : BrokerCommand → Action ExecutionStore BrokerCommand
begin_lookup c = do
  first ← move_from (submission_pending ∷ []) unknown c
  second ← move_from (acknowledged ∷ partially_filled ∷ cancel_pending ∷ []) unknown first
  third ← move_from (unknown ∷ []) reconciling second
  raise_if (not (same_state third.state reconciling))
      (domain_validation "command state cannot be reconciled")
  pure third

-- The transition to `reconciled`, after a state that the broker calls final.
abbrev pub close_if : Bool → CommandState → BrokerCommand → Action ExecutionStore BrokerCommand
close_if true target c =
    transition_command c.command_id reconciled
      (("terminal_broker_state", plain (state_text target)) ∷ []) no_ids
close_if false target c = pure c

-- What is recorded of an answer that passed the tests.
unfoldable pub record_lookup :
    BrokerCommand
    → BrokerReconciliationResult
    → Option String
    → CommandState
    → Action ExecutionStore BrokerCommand
record_lookup c r reference target = do
  moved ← transition_command c.command_id target (plain_details r.details) (record {
    order_id = r.broker_order_id;
    reference_id = reference;
    position_id = r.broker_position_id;
  })
  close_if (r.is_reconciled && not (same_state moved.state reconciled)) target moved

unfoldable pub reconcile_command :
    (String → Option String)
    → LookupAdapter
    → Uuid
    → Action ExecutionStore (BrokerCommand × BrokerReconciliationResult)
reconcile_command canonical adapter id = do
  c ← query (λ s. or_raise (get_command id s) (domain_validation "command is not persisted"))
  raise_if
      (not (same_environment adapter.environment c.environment)
        || not (str_eq adapter.broker_name c.broker))
      (execution_disabled "reconciliation adapter identity mismatch")
  current ← begin_lookup c
  answer ← lift (adapter.lookup current)
  found ← lift (check_lookup canonical adapter current answer)
  updated ← record_lookup current answer found.0 found.1
  pure (updated, answer)
