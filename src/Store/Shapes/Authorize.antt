-- ===== src/Store/Shapes/Authorize.antt =====
-- execution/store.py: what an authorization that was granted has read and written.
use investing_agents.Prelude.{◌≡◌, inl, inr, false, some, ◌∷◌, [], arith, subst, sym, leb}
use investing_agents.Result.{ok, Result-cases}
use investing_agents.Domain.Types.{Instant, approved, submission_pending}
use investing_agents.Domain.Evidence.{OrderIntent, RiskDecision, Approval, uuid_text}
use investing_agents.Domain.Command.{BrokerCommand, no_ids, transition}
use investing_agents.Store.Tables.{ExecutionStore, CommandRow, Binding, find_command}
use investing_agents.Store.Intents.{mark_consumed}
use investing_agents.Store.Checks.{
  command_in_transaction, bound_risk, validate_approval_binding, persisted_intent,
}
use investing_agents.Store.Submission.{
  authorize_submission, consume_and_open, set_binding, with_window, check_evidence, check_deadline,
}
use investing_agents.Store.Shapes.{Advanced, command_in_transaction-found, update_command-Advanced}

-- What the second half of the transaction has tested and written.
pub record Opened (row : CommandRow) (i : OrderIntent) (d : RiskDecision) (a : Approval)
    (moment deadline : Instant) (c' : BrokerCommand) (s s' : ExecutionStore) : Type 0 where
  pub valid : validate_approval_binding row.command d a moment ≡ ok tt
  pub within : check_deadline deadline i a ≡ ok tt
  pub marked : (mark_consumed a.approval_id moment s).0 ≡ ok tt
  pub transitioned : transition submission_pending no_ids row.command ≡ ok c'
  pub advanced :
      Advanced row c'
        (set_binding row.command.command_id
          (with_window moment deadline)
          (mark_consumed a.approval_id moment s).1)
        s'

consume_and_open-Opened :
    (row : CommandRow) (i : OrderIntent) (d : RiskDecision) (a : Approval)
    → (moment deadline : Instant) (s : ExecutionStore) (c' : BrokerCommand) (s' : ExecutionStore)
    → consume_and_open row i d a moment deadline s ≡ (ok c', s')
    → Opened row i d a moment deadline c' s s'
unfolding consume_and_open
consume_and_open-Opened row i d a moment deadline s c' s' h =
    elim (Result-cases (transition submission_pending no_ids row.command)) [
      | inr (e, w) ↦ absurd (ground arith)
      | inl (u, w) ↦
          let tests : (validate_approval_binding row.command d a moment ≡ ok tt)
              × (check_deadline deadline i a ≡ ok tt)
              × ((mark_consumed a.approval_id moment s).0 ≡ ok tt) =
            ground arith in
          let (same, adv) =
            update_command-Advanced row u (("approval_id", uuid_text a.approval_id) ∷ [])
              (set_binding row.command.command_id (with_window moment deadline)
                (mark_consumed a.approval_id moment s).1)
              c' s' (ground arith) in
          record {
            valid = tests.0;
            within = tests.1;
            marked = tests.2;
            transitioned = rw same w;
            advanced = adv;
          }
    ]

pub record Authorizes (i : OrderIntent) (d : RiskDecision) (a : Approval)
    (moment deadline : Instant) (c' : BrokerCommand) (s s' : ExecutionStore) : Type 0 where
  pub row : CommandRow
  pub binding : Binding
  pub decision : RiskDecision
  pub found : find_command s row.command.command_id ≡ some row
  pub is_approved : row.command.state ≡ approved
  pub intent : persisted_intent row.command i s ≡ ok tt
  pub bound : bound_risk row.command s ≡ ok (binding, decision)
  pub evidence : check_evidence binding decision d a s ≡ ok tt
  pub open_window : leb deadline moment ≡ false
  pub opened : Opened row i d a moment deadline c' s s'

pub authorize_submission-Authorizes :
    (c : BrokerCommand) (i : OrderIntent) (d : RiskDecision) (a : Approval)
    → (moment deadline : Instant) (s : ExecutionStore) (c' : BrokerCommand) (s' : ExecutionStore)
    → authorize_submission c i d a moment deadline s ≡ (ok c', s')
    → Authorizes i d a moment deadline c' s s'
unfolding authorize_submission
authorize_submission-Authorizes c i d a moment deadline s c' s' h =
    elim (Result-cases (command_in_transaction c.command_id (some c) s)) [
      | inr (e, p) ↦ absurd (ground arith)
      | inl (row, p) ↦ elim (Result-cases (bound_risk row.command s)) [
        | inr (e, q) ↦ absurd (ground arith)
        | inl (bound, q) ↦
            let (is_approved, intent, evidence, open_window, rest) : (row.command.state ≡ approved)
                × (persisted_intent row.command i s ≡ ok tt)
                × (check_evidence bound.0 bound.1 d a s ≡ ok tt)
                × (leb deadline moment ≡ false)
                × (consume_and_open row i d a moment deadline s ≡ (ok c', s')) =
              ground arith in
            let opened = consume_and_open-Opened row i d a moment deadline s c' s' rest in
            let (found, named) = command_in_transaction-found c.command_id (some c) s row p in
            record {
              row = row;
              binding = bound.0;
              decision = bound.1;
              found = subst (λ k. find_command s k ≡ some row) (sym named) found;
              is_approved = is_approved;
              intent = intent;
              bound = q;
              evidence = evidence;
              open_window = open_window;
              opened = opened;
            }
      ]
    ]
