-- ===== src/Store/Shapes/Open.antt =====
-- execution/store.py: what `save_risk_bound_command` has read and written when it returns.
use investing_agents.Prelude.{◌≡◌, inl, inr, none, some, [], arith, subst, sym, if◌then◌else◌}
use investing_agents.Result.{ok, Result-cases}
use investing_agents.Domain.Types.{
  CommandState, proposed, awaiting_approval, risk_rejected, is_accepted,
}
use investing_agents.Domain.Evidence.{RiskDecision}
use investing_agents.Domain.Command.{BrokerCommand, no_ids, transition}
use investing_agents.Store.Tables.{ExecutionStore, CommandRow, find_command}
use investing_agents.Store.Intents.{insert_decision}
use investing_agents.Store.Checks.{command_in_transaction}
use investing_agents.Store.Commands.{
  save_risk_bound_command, check_new_command, insert_command, insert_binding,
}
use investing_agents.Store.Shapes.{Advanced, command_in_transaction-found, update_command-Advanced}

abbrev pub first_target : RiskDecision → CommandState
first_target d = if is_accepted d.outcome then awaiting_approval else risk_rejected

pub record Opens (c : BrokerCommand) (d : RiskDecision) (c' : BrokerCommand) (s s' : ExecutionStore)
    : Type 0 where
  pub is_proposed : c.state ≡ proposed
  pub no_attempts : c.attempt_history ≡ []
  pub same_intent : c.intent_hash ≡ d.intent_hash
  pub checked : check_new_command c s ≡ ok tt
  pub decided : (insert_decision d s).0 ≡ ok tt
  pub inserted : (insert_command c (insert_decision d s).1).0 ≡ ok tt
  pub bound :
      (insert_binding c.command_id d.decision_id (insert_command c (insert_decision d s).1).1).0
      ≡ ok tt
  pub row : CommandRow
  pub found :
      find_command
        (insert_binding c.command_id d.decision_id (insert_command c (insert_decision d s).1).1).1
        row.command.command_id
      ≡ some row
  pub named : row.command.command_id ≡ c.command_id
  pub transitioned : transition (first_target d) no_ids row.command ≡ ok c'
  pub advanced :
      Advanced row c'
        (insert_binding c.command_id d.decision_id (insert_command c (insert_decision d s).1).1).1
        s'

pub save_risk_bound_command-Opens :
    (c : BrokerCommand) (d : RiskDecision)
    → (s : ExecutionStore) (c' : BrokerCommand) (s' : ExecutionStore)
    → save_risk_bound_command c d s ≡ (ok c', s')
    → Opens c d c' s s'
unfolding save_risk_bound_command
save_risk_bound_command-Opens c d s c' s' h =
    let s1 = (insert_decision d s).1 in
    let s2 = (insert_command c s1).1 in
    let s3 = (insert_binding c.command_id d.decision_id s2).1 in
    elim (Result-cases (command_in_transaction c.command_id none s3)) [
      | inr (e, p) ↦ absurd (ground arith)
      | inl (row, p) ↦ elim (Result-cases (transition (first_target d) no_ids row.command)) [
        | inr (e, w) ↦ absurd (ground arith)
        | inl (u, w) ↦
            let (found, named) = command_in_transaction-found c.command_id none s3 row p in
            let (same, adv) = update_command-Advanced row u [] s3 c' s' (ground arith) in
            record {
              is_proposed = ground arith;
              no_attempts = ground arith;
              same_intent = ground arith;
              checked = ground arith;
              decided = ground arith;
              inserted = ground arith;
              bound = ground arith;
              row = row;
              found = subst (λ k. find_command s3 k ≡ some row) (sym named) found;
              named = named;
              transitioned = rw same w;
              advanced = adv;
            }
      ]
    ]
