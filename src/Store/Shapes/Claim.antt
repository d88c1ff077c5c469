-- ===== src/Store/Shapes/Claim.antt =====
-- execution/store.py: what a send claim that was granted has read and written.
use investing_agents.Prelude.{◌≡◌, inl, inr, true, some, ◌∷◌, [], arith, subst, sym}
use investing_agents.Result.{ok, Result-cases}
use investing_agents.Domain.Types.{submission_pending}
use investing_agents.Domain.Evidence.{OrderIntent, RiskDecision, Approval, plain}
use investing_agents.Domain.Command.{BrokerCommand, CommandAttempt, with_attempt, same_command}
use investing_agents.Store.Tables.{ExecutionStore, CommandRow, Binding, find_command}
use investing_agents.Store.Checks.{
  command_in_transaction, bound_risk, validate_approval_binding, persisted_intent,
}
use investing_agents.Store.Submission.{
  claim_submission, check_claim, consumed_approval, set_binding, with_claim,
}
use investing_agents.Store.Shapes.{Advanced, command_in_transaction-found, update_command-Advanced}

-- The evidence that a granted claim rests on, and its effect.
pub record Granted (c : BrokerCommand) (i : OrderIntent) (t : CommandAttempt) (c' : BrokerCommand)
    (s s' : ExecutionStore) : Type 0 where
  pub row : CommandRow
  pub binding : Binding
  pub decision : RiskDecision
  pub approval : Approval
  pub found : find_command s row.command.command_id ≡ some row
  pub snapshot : same_command row.command c ≡ true
  pub pending : row.command.state ≡ submission_pending
  pub intent : persisted_intent row.command i s ≡ ok tt
  pub bound : bound_risk row.command s ≡ ok (binding, decision)
  pub checked : check_claim row.command binding t ≡ ok tt
  pub consumed : consumed_approval binding s ≡ ok approval
  pub valid : validate_approval_binding row.command decision approval t.attempted_at ≡ ok tt
  pub attempted : with_attempt t row.command ≡ ok c'
  pub advanced :
      Advanced row c' (set_binding row.command.command_id (with_claim t.attempted_at) s) s'

-- `ok tt` is the only way for a check to pass.
pub claim_submission-Granted :
    (c : BrokerCommand) (i : OrderIntent) (t : CommandAttempt)
    → (s : ExecutionStore) (c' : BrokerCommand) (s' : ExecutionStore)
    → claim_submission c i t s ≡ (ok c', s')
    → Granted c i t c' s s'
unfolding claim_submission
claim_submission-Granted c i t s c' s' h =
    elim (Result-cases (command_in_transaction c.command_id (some c) s)) [
      | inr (e, p) ↦ absurd (ground arith)
      | inl (row, p) ↦ elim (Result-cases (bound_risk row.command s)) [
        | inr (e, q) ↦ absurd (ground arith)
        | inl (bound, q) ↦ elim (Result-cases (consumed_approval bound.0 s)) [
          | inr (e, r) ↦ absurd (ground arith)
          | inl (a, r) ↦ elim (Result-cases (with_attempt t row.command)) [
            | inr (e, w) ↦ absurd (ground arith)
            | inl (u, w) ↦
                let (found, named) = command_in_transaction-found c.command_id (some c) s row p in
                let (same, adv) =
                  update_command-Advanced row u
                    (("attempt_number", plain "1") ∷ ("submission_claim", plain "durable") ∷ [])
                    (set_binding row.command.command_id (with_claim t.attempted_at) s) c' s'
                    (ground arith) in
                record {
                  row = row;
                  binding = bound.0;
                  decision = bound.1;
                  approval = a;
                  found = subst (λ k. find_command s k ≡ some row) (sym named) found;
                  snapshot = unfold command_in_transaction in ground arith;
                  pending = ground arith;
                  intent = ground arith;
                  bound = q;
                  checked = ground arith;
                  consumed = r;
                  valid = ground arith;
                  attempted = rw same w;
                  advanced = adv;
                }
          ]
        ]
      ]
    ]
