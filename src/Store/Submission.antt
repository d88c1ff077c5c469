-- ===== src/Store/Submission.antt =====
-- execution/store.py: approval, authorization and the send claim, each one transaction; and the
-- other transactions and reads on commands.
use investing_agents.Prelude.{
  ⊤, Bool, false, not, ◌&&◌, ◌||◌, Option, none, some, List, [], ◌∷◌, ◌==◌, leb, ltb, any, is_some,
  is_empty, if◌then◌else◌, String, str_eq,
}
use mathlib.Core.Option
use investing_agents.Result.{
  Result, ok, err, Action, raise_if, lift, query, gets, modify, transaction, ◌>>=◌, ◌>>◌,
  store_error, domain_validation, integrity_error, approval_replay, submission_replay, type_error,
  or_raise,
}
use investing_agents.Table.{update}
use investing_agents.Domain.Types.{
  Uuid, Instant, CommandState, awaiting_approval, approved, submission_pending, same_state,
  is_submit_order,
}
use investing_agents.Domain.Evidence.{
  OrderIntent, RiskDecision, Approval, same_decision, same_approval, LimitValue, uuid_text, plain,
}
use investing_agents.Domain.Command.{
  BrokerCommand, BrokerIds, CommandAttempt, no_ids, transition, with_attempt,
}
use investing_agents.Store.Tables.{
  ExecutionStore, CommandRow, Binding, binding_key, find_command, find_intent, find_approval,
  is_bound_to,
}
use investing_agents.Store.Intents.{insert_approval, mark_consumed}
use investing_agents.Store.Checks.{
  command_in_transaction, bound_risk, validate_approval_binding, persisted_intent,
}
use investing_agents.Store.Commands.{update_command}

-- `UPDATE command_authorizations SET … WHERE command_id = ?`
abbrev pub set_binding : Uuid → (Binding → Binding) → ExecutionStore → ExecutionStore
set_binding id change s = record s {
  command_authorizations = update binding_key id change s.command_authorizations;
}

abbrev pub with_approval : Uuid → Binding → Binding
with_approval id b = record b { approval_id = some id }

abbrev pub with_window : Instant → Instant → Binding → Binding
with_window from until b = record b { authorized_at = some from; valid_until = some until }

abbrev pub with_claim : Instant → Binding → Binding
with_claim at b = record b { submission_claimed_at = some at }

-- The insert into approvals, where an integrity error is an approval replay.
abbrev pub insert_new_approval : Approval → Action ExecutionStore ⊤
insert_new_approval a s =
    let (r, s') = insert_approval a s in
    elim r [ ok x ↦ (ok x, s') | err e ↦ (err (approval_replay "approval already stored"), s') ]

unfoldable pub approve_command :
    BrokerCommand → Approval → Instant → Action ExecutionStore BrokerCommand
approve_command c a now = transaction (do
  row ← query (command_in_transaction c.command_id (some c))
  raise_if (not (same_state row.command.state awaiting_approval))
      (domain_validation "command is not awaiting approval")
  bound ← query (bound_risk row.command)
  lift (validate_approval_binding row.command bound.1 a now)
  raise_if (is_some bound.0.approval_id) (approval_replay "command already has an approval")
  insert_new_approval a
  taken ← gets (λ s. any (is_bound_to a.approval_id) s.command_authorizations)
  raise_if taken integrity_error
  modify (set_binding row.command.command_id (with_approval a.approval_id))
  updated ← lift (transition approved no_ids row.command)
  update_command row updated (("approval_id", uuid_text a.approval_id) ∷ []))

abbrev pub earlier : Instant → Instant → Instant
earlier a b = if leb a b then a else b

abbrev pub names_approval : Approval → Binding → Bool
names_approval a b = elim b.approval_id [ none ↦ false | some id ↦ id == a.approval_id ]

-- The supplied decision and approval must be the ones that the command is bound to, as stored.
unfoldable pub check_evidence :
    Binding → RiskDecision → RiskDecision → Approval → ExecutionStore → Result ⊤
check_evidence b persisted d a s =
    if not (same_decision persisted d) || not (names_approval a b)
    then err (domain_validation "supplied evidence differs from command authorization")
    else elim (find_approval s a.approval_id) [
      | none ↦ err type_error
      | some stored ↦
          if same_approval stored.approval a
          then ok tt
          else err (domain_validation "approval differs from persisted evidence")
    ]

unfoldable pub check_deadline : Instant → OrderIntent → Approval → Result ⊤
check_deadline deadline i a =
    if not (leb deadline (earlier i.expires_at a.expires_at))
    then err (domain_validation "authorization exceeds intent or approval expiry")
    else ok tt

-- The second half of the transaction: the approval is consumed, the window is stored, and the
-- command becomes pending.
unfoldable pub consume_and_open :
    CommandRow
    → OrderIntent
    → RiskDecision
    → Approval
    → Instant
    → Instant
    → Action ExecutionStore BrokerCommand
consume_and_open row i d a moment deadline = do
  lift (validate_approval_binding row.command d a moment)
  lift (check_deadline deadline i a)
  mark_consumed a.approval_id moment
  modify (set_binding row.command.command_id (with_window moment deadline))
  updated ← lift (transition submission_pending no_ids row.command)
  update_command row updated (("approval_id", uuid_text a.approval_id) ∷ [])

unfoldable pub authorize_submission :
    BrokerCommand
    → OrderIntent
    → RiskDecision
    → Approval
    → Instant
    → Instant
    → Action ExecutionStore BrokerCommand
authorize_submission c i d a moment deadline = do
  raise_if (leb deadline moment) (domain_validation "submission authorization has expired")
  transaction (do
    row ← query (command_in_transaction c.command_id (some c))
    raise_if (not (same_state row.command.state approved))
        (domain_validation "command is not approved")
    query (persisted_intent row.command i)
    bound ← query (bound_risk row.command)
    query (check_evidence bound.0 bound.1 d a)
    consume_and_open row i d a moment deadline)

-- `authorized_at <= attempted_at < valid_until`
abbrev pub in_window : Instant → Instant → Instant → Bool
in_window from until at = leb from at && ltb at until

-- The tests of `claim_submission` on the command and its binding, up to the window.
unfoldable pub check_claim : BrokerCommand → Binding → CommandAttempt → Result ⊤
check_claim c b t =
    if not (is_empty c.attempt_history) || is_some b.submission_claimed_at
    then err (submission_replay "submission already claimed; broker lookup is required")
    else if not (t.attempt_number == 1)
        || not (t.request_id == c.logical_request_id)
        || not (str_eq t.outcome "send_started")
    then err (domain_validation "submission attempt must use the original request identity")
    else elim b.authorized_at [
      | none ↦ err (domain_validation "command lacks a consumed submission authorization")
      | some from ↦ elim b.valid_until [
        | none ↦ err (domain_validation "command lacks a consumed submission authorization")
        | some until ↦
            if not (is_submit_order c.operation)
            then err (domain_validation "command lacks a consumed submission authorization")
            else if not (in_window from until t.attempted_at)
            then err (domain_validation "submission authorization is stale")
            else ok tt
      ]
    ]

-- The approval that the binding names, if it is stored and consumed.
unfoldable pub consumed_approval : Binding → ExecutionStore → Result Approval
consumed_approval b s = elim b.approval_id [
  | none ↦ err (domain_validation "submission approval has not been consumed")
  | some id ↦ elim (find_approval s id) [
    | none ↦ err (domain_validation "submission approval has not been consumed")
    | some r ↦
        if is_some r.consumed_at
        then ok r.approval
        else err (domain_validation "submission approval has not been consumed")
  ]
]

unfoldable pub claim_submission :
    BrokerCommand → OrderIntent → CommandAttempt → Action ExecutionStore BrokerCommand
claim_submission c i t = transaction (do
  row ← query (command_in_transaction c.command_id (some c))
  raise_if (not (same_state row.command.state submission_pending))
      (domain_validation "command is not submission_pending")
  query (persisted_intent row.command i)
  bound ← query (bound_risk row.command)
  lift (check_claim row.command bound.0 t)
  a ← query (consumed_approval bound.0)
  lift (validate_approval_binding row.command bound.1 a t.attempted_at)
  modify (set_binding row.command.command_id (with_claim t.attempted_at))
  updated ← lift (with_attempt t row.command)
  update_command row updated
      (("attempt_number", plain "1") ∷ ("submission_claim", plain "durable") ∷ []))

unfoldable pub transition_command :
    Uuid
    → CommandState
    → List (String × LimitValue)
    → BrokerIds
    → Action ExecutionStore BrokerCommand
transition_command id target details ids = transaction (do
  row ← query (command_in_transaction id none)
  updated ← lift (transition target ids row.command)
  update_command row updated details)

unfoldable pub get_command : Uuid → ExecutionStore → Option BrokerCommand
get_command id s = Option.map (λ (r : CommandRow). r.command) (find_command s id)

unfoldable pub record_attempt : Uuid → CommandAttempt → Action ExecutionStore BrokerCommand
unfolding get_command
record_attempt id t = do
  c ← query (λ s. or_raise (get_command id s) (store_error "unknown command"))
  i ← query (λ s.
      or_raise (find_intent s c.intent_hash) (store_error "command references an unknown intent"))
  claim_submission c i t
