-- ===== src/Coordinator/SendLaws.antt =====
-- execution/coordinator.py: what a submission leaves behind.
use investing_agents.Prelude.{
  Bool-cases, ==→eq, ◌==◌, true, false, ℕ, ◌+◌, ◌≡◌, inl, inr, ◌⊎◌, true, false, String, some, ◌∷◌,
  arith, ap, sym, ◌∙◌, subst, any,
}
use investing_agents.Result.{Result, ok, err, Error, Result-cases}
use investing_agents.Domain.Types.{
  unknown, acknowledged, Uuid, Instant, CommandState, submission_pending, state_in,
  allowed_transitions,
}
use investing_agents.Domain.Evidence.{OrderIntent}
use investing_agents.Domain.Command.{BrokerCommand, CommandAttempt}
use investing_agents.Store.Trace.Audit.{IsAudited, IsAudited-next, Effect-IsAudited}
use investing_agents.Store.Effect.Operations.{claim_submission-Effect}
use investing_agents.Domain.Attempts.{IsWellFormed}
use investing_agents.Registry.{InstrumentTables}
use investing_agents.Store.Tables.{ExecutionStore, CommandRow, find_command, is_event}
use investing_agents.Store.Submission.{claim_submission, transition_command}
use investing_agents.Coordinator.Config.{ExecutionConfig}
use investing_agents.Coordinator.Send.{
  World, BrokerAdapter, BrokerSubmissionResult, check_submit, first_attempt, outcome_of_send, send,
  submit_pending_command,
}
use investing_agents.Coordinator.Stored.{transition_command-returns, claimed-stored}

-- Whatever the adapter answers, the state that is recorded may follow a pending submission.
outcome-allowed :
    (text : Uuid → String) (adapter : BrokerAdapter) (c : BrokerCommand)
    → (answer : Result BrokerSubmissionResult)
    → state_in (outcome_of_send text adapter c answer).0 (allowed_transitions submission_pending)
      ≡ true
unfolding outcome_of_send allowed_transitions
outcome-allowed text adapter c answer = ground arith

-- The updated command, or the exception that the adapter raised.
abbrev pub answer_of : BrokerCommand → Result BrokerSubmissionResult → Result BrokerCommand
answer_of updated (ok r) = ok updated
answer_of updated (err e) = err e

-- The state that is right after an answer, or an exception, of the broker.
pub data Outcome (c : BrokerCommand) : Result BrokerSubmissionResult → CommandState → Type 0 where
  raised : (e : Error) → Outcome c (err e) unknown
  mismatched :
      (r : BrokerSubmissionResult)
      → (r.request_id == c.logical_request_id) ≡ false
      → Outcome c (ok r) unknown
  unclear : (r : BrokerSubmissionResult) → r.ambiguous ≡ true → Outcome c (ok r) unknown
  taken :
      (r : BrokerSubmissionResult)
      → r.request_id ≡ c.logical_request_id
      → r.ambiguous ≡ false
      → r.accepted_for_processing ≡ true
      → Outcome c (ok r) acknowledged
  refused :
      (r : BrokerSubmissionResult)
      → r.request_id ≡ c.logical_request_id
      → r.ambiguous ≡ false
      → r.accepted_for_processing ≡ false
      → Outcome c (ok r) CommandState.rejected

outcome_of_send-Outcome :
    (text : Uuid → String) (adapter : BrokerAdapter) (c : BrokerCommand)
    → (answer : Result BrokerSubmissionResult)
    → Outcome c answer (outcome_of_send text adapter c answer).0
unfolding outcome_of_send
outcome_of_send-Outcome text adapter c (err e) = raised e
outcome_of_send-Outcome text adapter c (ok r) =
    elim (Bool-cases (r.request_id == c.logical_request_id)) [
      | inr other ↦ subst (Outcome c (ok r)) (ground arith) (mismatched r other)
      | inl same ↦ elim (Bool-cases r.ambiguous) [
        | inl lost ↦ subst (Outcome c (ok r)) (ground arith) (unclear r lost)
        | inr clear ↦ elim (Bool-cases r.accepted_for_processing) [
          | inl agreed ↦
              subst (Outcome c (ok r)) (ground arith) (taken r (==→eq _ _ same) clear agreed)
          | inr denied ↦
              subst (Outcome c (ok r)) (ground arith) (refused r (==→eq _ _ same) clear denied)
        ]
      ]
    ]

-- How a send ends: with the answer of the adapter for the claimed command recorded.
pub record Recorded (text : Uuid → String) (adapter : BrokerAdapter) (c : BrokerCommand)
    (i : OrderIntent) (now : Instant) (w : World) (r : Result BrokerCommand) (w' : World)
    : Type 0 where
  pub claimed : BrokerCommand
  pub granted : (claim_submission c i (first_attempt c now) w.store).0 ≡ ok claimed
  pub sent : w'.sends ≡ (i, claimed) ∷ w.sends
  pub updated : BrokerCommand
  pub revision : ℕ
  pub stored :
      find_command w'.store claimed.command_id
      ≡ some (record { command = updated; revision = revision })
  pub outcome : Outcome claimed (adapter.submit_order w.sends i claimed) updated.state
  pub returned : answer_of updated (adapter.submit_order w.sends i claimed) ≡ r

-- The world that a send leaves, once its outcome was recorded.
abbrev pub world_after :
    (Uuid → String) → BrokerAdapter → OrderIntent → BrokerCommand → World → World
world_after text adapter i c w =
    let out = outcome_of_send text adapter c (adapter.submit_order w.sends i c) in
    record {
      store = (transition_command c.command_id out.0 out.2 out.1 w.store).1;
      sends = (i, c) ∷ w.sends;
    }

send-ends :
    (text : Uuid → String) (adapter : BrokerAdapter) (i : OrderIntent) (c : BrokerCommand)
    (w : World)
    → (updated : BrokerCommand)
    → let out = outcome_of_send text adapter c (adapter.submit_order w.sends i c) in
      (transition_command c.command_id out.0 out.2 out.1 w.store).0 ≡ ok updated
      → send text adapter i c w
        ≡ (answer_of updated (adapter.submit_order w.sends i c), world_after text adapter i c w)
unfolding send
send-ends text adapter i c w updated h = elim (Result-cases (adapter.submit_order w.sends i c)) [
  | inl (r, p) ↦ ground arith
  | inr (e, p) ↦ ground arith
]

send-recorded :
    (text : Uuid → String) (adapter : BrokerAdapter) (i : OrderIntent) (w : World)
    → (c : BrokerCommand) (n : ℕ)
    → find_command w.store c.command_id ≡ some (record { command = c; revision = n })
    → IsWellFormed c
    → c.state ≡ submission_pending
    → any (is_event c.command_id (n + 1)) w.store.command_events ≡ false
    → let (r, w') = send text adapter i c w in
      let answer = adapter.submit_order w.sends i c in
      (updated : BrokerCommand) × (updated.state ≡ (outcome_of_send text adapter c answer).0)
      × (w'.sends ≡ (i, c) ∷ w.sends)
      × (find_command w'.store c.command_id ≡ some (record { command = updated; revision = n + 1 }))
      × (r ≡ answer_of updated answer)
send-recorded text adapter i w c n found valid pending fresh =
    let answer = adapter.submit_order w.sends i c in
    let out = outcome_of_send text adapter c answer in
    let allowed : state_in out.0 (allowed_transitions c.state) ≡ true =
      subst (λ k. state_in out.0 (allowed_transitions k) ≡ true) (sym pending)
        (outcome-allowed text adapter c answer) in
    let (updated, at, done, stored) =
      transition_command-returns out.0 out.2 out.1 w.store (record { command = c; revision = n })
        found valid allowed fresh in
    let ends = send-ends text adapter i c w updated done in
    (
      updated,
      at,
      ap (λ x. x.1.sends) ends,
      ap (λ x. find_command x.1.store c.command_id) ends ∙ stored,
      ap (λ x. x.0) ends,
    )

pub claim-raised :
    (c : BrokerCommand) (i : OrderIntent) (t : CommandAttempt) (s : ExecutionStore) (e : Error)
    → (claim_submission c i t s).0 ≡ err e
    → (claim_submission c i t s).1 ≡ s
unfolding claim_submission
claim-raised c i t s e h = ground arith

pub submit-sends :
    (text : Uuid → String) (config : ExecutionConfig) (registry : InstrumentTables)
    → (adapter : BrokerAdapter) (c : BrokerCommand) (i : OrderIntent) (now : Instant) (w : World)
    → (claimed : BrokerCommand) → check_submit config registry adapter c i ≡ ok tt
    → (claim_submission c i (first_attempt c now) w.store).0 ≡ ok claimed
    → submit_pending_command text config registry adapter c i now w
      ≡ send text adapter i claimed
          (record w { store = (claim_submission c i (first_attempt c now) w.store).1 })
unfolding submit_pending_command
submit-sends text config registry adapter c i now w claimed p q = ground arith

-- A submission either raises with nothing sent and the ledger as it was, or sends the claimed
-- command to the broker once, and then the state that the answer calls for is stored: `unknown` if
-- the adapter raised, or answered ambiguously or for another request, else `acknowledged` or
-- `rejected`. It returns the updated command, or raises what the adapter raised. This holds of
-- every ledger whose event log is its history.
pub every_send_is_Recorded :
    (text : Uuid → String) (config : ExecutionConfig) (registry : InstrumentTables)
    → (adapter : BrokerAdapter) (c : BrokerCommand) (i : OrderIntent) (now : Instant) (w : World)
    → IsAudited w.store
    → let (r, w') = submit_pending_command text config registry adapter c i now w in
      ((e : Error) × (r ≡ err e) × (w' ≡ w)) ⊎ Recorded text adapter c i now w r w'
unfolding submit_pending_command
every_send_is_Recorded text config registry adapter c i now w audited =
    elim (Result-cases (check_submit config registry adapter c i)) [
      | inr (e, p) ↦ inl (e, ground arith, ground arith)
      | inl (x, p) ↦ elim (Result-cases (claim_submission c i (first_attempt c now) w.store).0) [
        | inr (e, q) ↦
            inl
              (e, ground arith, ground (arith, claim-raised c i (first_attempt c now) w.store e q))
        | inl (claimed, q) ↦
            let t = first_attempt c now in
            let s1 = (claim_submission c i t w.store).1 in
            let (n, stored, valid, pending, same, intent) =
              claimed-stored c i t w.store claimed q in
            let w1 = record w { store = s1 } in
            let row : CommandRow = record { command = claimed; revision = n } in
            let fresh =
              IsAudited-next s1 claimed.command_id row
                (Effect-IsAudited w.store s1
                  (claim_submission-Effect c i t w.store claimed s1 (ground arith)) audited)
                stored in
            let (updated, at, sent, kept, returned) =
              send-recorded text adapter i w1 claimed n stored valid pending fresh in
            let whole = submit-sends text config registry adapter c i now w claimed p q in
            inr (record {
              claimed = claimed;
              granted = q;
              sent = ap (λ y. y.1.sends) whole ∙ sent;
              updated = updated;
              revision = n + 1;
              stored = ap (λ y. find_command y.1.store claimed.command_id) whole ∙ kept;
              outcome = subst (Outcome claimed (adapter.submit_order w.sends i claimed)) (sym at) (
                  outcome_of_send-Outcome text adapter claimed
                    (adapter.submit_order w.sends i claimed));
              returned = sym (ap (λ y. y.0) whole ∙ returned);
            })
      ]
    ]
