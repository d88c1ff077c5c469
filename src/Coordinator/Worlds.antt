-- ===== src/Coordinator/Worlds.antt =====
-- execution/coordinator.py: what a submission does to the ledger and the broker.
use investing_agents.Prelude.{◌≡◌, inl, inr, ◌⊎◌, String, arith, ap, ◌∙◌}
use investing_agents.Result.{ok, Result-cases}
use investing_agents.Domain.Types.{Uuid, Instant}
use investing_agents.Domain.Evidence.{OrderIntent}
use investing_agents.Domain.Command.{BrokerCommand}
use investing_agents.Registry.{InstrumentTables}
use investing_agents.Store.Submission.{claim_submission, transition_command}
use investing_agents.Coordinator.Config.{ExecutionConfig}
use investing_agents.Coordinator.Send.{
  World, BrokerAdapter, check_submit, first_attempt, outcome_of_send, send, submit_pending_command,
}
use investing_agents.Coordinator.Stored.{claimed-stored}
use investing_agents.Coordinator.SendLaws.{world_after, claim-raised, submit-sends}

send-World :
    (text : Uuid → String) (adapter : BrokerAdapter) (i : OrderIntent) (c : BrokerCommand)
    (w : World)
    → (send text adapter i c w).1 ≡ world_after text adapter i c w
unfolding send
send-World text adapter i c w =
    let out = outcome_of_send text adapter c (adapter.submit_order w.sends i c) in
    elim (Result-cases (transition_command c.command_id out.0 out.2 out.1 w.store).0) [
      | inl (u, p) ↦ elim (Result-cases (adapter.submit_order w.sends i c)) [
        | inl (r, q) ↦ ground arith
        | inr (e, q) ↦ ground arith
      ]
      | inr (e, p) ↦ ground arith
    ]

-- What a submission does to the world, without an assumption on the ledger.
pub submit-World :
    (text : Uuid → String) (config : ExecutionConfig) (registry : InstrumentTables)
    → (adapter : BrokerAdapter) (c : BrokerCommand) (i : OrderIntent) (now : Instant) (w : World)
    → let w' = (submit_pending_command text config registry adapter c i now w).1 in
      let t = first_attempt c now in
      (w' ≡ w)
      ⊎ ((claimed : BrokerCommand) × ((claim_submission c i t w.store).0 ≡ ok claimed)
          × (claimed.command_id ≡ c.command_id)
          × (claimed.intent_hash ≡ c.intent_hash)
          × (w'
              ≡ world_after text adapter i claimed
                  (record w { store = (claim_submission c i t w.store).1 })))
unfolding submit_pending_command
submit-World text config registry adapter c i now w =
    elim (Result-cases (check_submit config registry adapter c i)) [
      | inr (e, p) ↦ inl (ground arith)
      | inl (x, p) ↦ elim (Result-cases (claim_submission c i (first_attempt c now) w.store).0) [
        | inr (e, q) ↦ inl (ground (arith, claim-raised c i (first_attempt c now) w.store e q))
        | inl (claimed, q) ↦
            let (n, stored, valid, pending, same, intent) =
              claimed-stored c i (first_attempt c now) w.store claimed q in
            inr (
              claimed,
              q,
              same,
              intent,
              ap (λ y. y.1) (submit-sends text config registry adapter c i now w claimed p q)
                  ∙ send-World text adapter i claimed _,
            )
      ]
    ]
