-- ===== src/Store/Shapes/Approve.antt =====
-- execution/store.py: what an approval that was recorded has read and written.
use investing_agents.Prelude.{◌≡◌, inl, inr, none, some, ◌∷◌, [], arith, subst, sym}
use investing_agents.Result.{ok, Result-cases}
use investing_agents.Domain.Types.{Instant, awaiting_approval, approved}
use investing_agents.Domain.Evidence.{RiskDecision, Approval, uuid_text}
use investing_agents.Domain.Command.{BrokerCommand, no_ids, transition}
use investing_agents.Store.Tables.{ExecutionStore, CommandRow, Binding, find_command}
use investing_agents.Store.Intents.{insert_approval}
use investing_agents.Store.Checks.{command_in_transaction, bound_risk, validate_approval_binding}
use investing_agents.Store.Submission.{approve_command, set_binding, with_approval}
use investing_agents.Store.Shapes.{Advanced, command_in_transaction-found, update_command-Advanced}

pub record Approves (a : Approval) (now : Instant) (c' : BrokerCommand) (s s' : ExecutionStore)
    : Type 0 where
  pub row : CommandRow
  pub binding : Binding
  pub decision : RiskDecision
  pub found : find_command s row.command.command_id ≡ some row
  pub awaiting : row.command.state ≡ awaiting_approval
  pub bound : bound_risk row.command s ≡ ok (binding, decision)
  pub valid : validate_approval_binding row.command decision a now ≡ ok tt
  pub first_approval : binding.approval_id ≡ none
  pub inserted : (insert_approval a s).0 ≡ ok tt
  pub transitioned : transition approved no_ids row.command ≡ ok c'
  pub advanced :
      Advanced row c'
        (set_binding row.command.command_id (with_approval a.approval_id) (insert_approval a s).1)
        s'

pub approve_command-Approves :
    (c : BrokerCommand) (a : Approval) (now : Instant)
    → (s : ExecutionStore) (c' : BrokerCommand) (s' : ExecutionStore)
    → approve_command c a now s ≡ (ok c', s')
    → Approves a now c' s s'
unfolding approve_command
approve_command-Approves c a now s c' s' h =
    elim (Result-cases (command_in_transaction c.command_id (some c) s)) [
      | inr (e, p) ↦ absurd (ground arith)
      | inl (row, p) ↦ elim (Result-cases (bound_risk row.command s)) [
        | inr (e, q) ↦ absurd (ground arith)
        | inl (bound, q) ↦ elim (Result-cases (transition approved no_ids row.command)) [
          | inr (e, w) ↦ absurd (ground arith)
          | inl (u, w) ↦
              let (found, named) = command_in_transaction-found c.command_id (some c) s row p in
              let (same, adv) =
                update_command-Advanced row u (("approval_id", uuid_text a.approval_id) ∷ [])
                  (set_binding row.command.command_id (with_approval a.approval_id)
                    (insert_approval a s).1)
                  c' s' (ground arith) in
              record {
                row = row;
                binding = bound.0;
                decision = bound.1;
                found = subst (λ k. find_command s k ≡ some row) (sym named) found;
                awaiting = ground arith;
                bound = q;
                valid = ground arith;
                first_approval = ground arith;
                inserted = ground arith;
                transitioned = rw same w;
                advanced = adv;
              }
        ]
      ]
    ]
