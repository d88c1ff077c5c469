-- ===== src/Store/Trace.antt =====
-- execution/store.py: a run of the ledger as a sequence of calls of its methods, failed or not.
pub mod Progress
pub mod Consistency
pub mod Claims
pub mod Sends
pub mod Audit
pub mod Evidence
use investing_agents.Prelude.{
  ℕ, ⊤, ◌≡◌, refl, inl, inr, Option-cases, Bool, true, false, Option, none, some, List, [], ◌∷◌,
  String, arith,
}
use investing_agents.Result.{Result, ok, err, Action, Error, Result-cases, transaction-raised}
use investing_agents.Domain.Types.{Uuid, Instant, CommandState}
use investing_agents.Domain.Evidence.{OrderIntent, RiskDecision, Approval, LimitValue}
use investing_agents.Domain.Command.{BrokerCommand, BrokerIds, CommandAttempt}
use investing_agents.Store.Tables.{ExecutionStore, find_intent}
use investing_agents.Store.Intents.{
  insert_intent, insert_intents, save_intents, insert_decision, save_risk_decision, insert_approval,
  save_approval, mark_consumed, consume_approval,
}
use investing_agents.Store.Commands.{save_command, insert_command, save_risk_bound_command}
use investing_agents.Store.Submission.{
  approve_command, authorize_submission, claim_submission, transition_command, record_attempt,
  get_command,
}
use investing_agents.Store.Effect.{Effect, unchanged, inserted}
use investing_agents.Store.Effect.Operations.{
  insert_command-Inserted, approve_command-Effect, authorize_submission-Effect,
  claim_submission-Effect, transition_command-Effect, save_risk_bound_command-Effect,
}

-- The methods that write, each with its arguments.
pub data Call : Type 0 where
  saves_intents : List OrderIntent → Call
  saves_decision : RiskDecision → Call
  saves_approval : Approval → Call
  consumes : Uuid → Instant → Call
  saves_command : BrokerCommand → Call
  opens : BrokerCommand → RiskDecision → Call
  approves : BrokerCommand → Approval → Instant → Call
  authorizes : BrokerCommand → OrderIntent → RiskDecision → Approval → Instant → Instant → Call
  claims : BrokerCommand → OrderIntent → CommandAttempt → Call
  transitions : Uuid → CommandState → List (String × LimitValue) → BrokerIds → Call
  records : Uuid → CommandAttempt → Call

unfoldable pub perform : Call → ExecutionStore → ExecutionStore
perform (saves_intents is) s = (save_intents is s).1
perform (saves_decision d) s = (save_risk_decision d s).1
perform (saves_approval a) s = (save_approval a s).1
perform (consumes id at) s = (consume_approval id at s).1
perform (saves_command c) s = (save_command c s).1
perform (opens c d) s = (save_risk_bound_command c d s).1
perform (approves c a now) s = (approve_command c a now s).1
perform (authorizes c i d a from until) s = (authorize_submission c i d a from until s).1
perform (claims c i t) s = (claim_submission c i t s).1
perform (transitions id target details ids) s = (transition_command id target details ids s).1
perform (records id t) s = (record_attempt id t s).1

unfoldable pub run : List Call → ExecutionStore → ExecutionStore
run [] s = s
run (call ∷ rest) s = run rest (perform call s)

abbrev SameTables : ExecutionStore → ExecutionStore → Type 0
SameTables s' s =
    (s'.broker_commands ≡ s.broker_commands)
    × (s'.command_events ≡ s.command_events)
    × (s'.command_authorizations ≡ s.command_authorizations)

-- An action whose returns have an effect, and whose raises change nothing, has an effect.
Effect-of :
    {A : Type 0} (m : Action ExecutionStore A) (s : ExecutionStore)
    → ((a : A) → (m s).0 ≡ ok a → Effect s (m s).1)
    → ((e : Error) → (m s).0 ≡ err e → (m s).1 ≡ s)
    → Effect s (m s).1
Effect-of m s returned raised = elim (Result-cases (m s).0) [
  | inl (a, p) ↦ returned a p
  | inr (e, p) ↦ rw (raised e p) (unchanged refl refl refl)
]

insert_intent-same : (i : OrderIntent) (s : ExecutionStore) → SameTables (insert_intent i s).1 s
unfolding insert_intent
insert_intent-same i s = ground arith

insert_intents-same :
    (is : List OrderIntent) (s : ExecutionStore) → SameTables (insert_intents is s).1 s
unfolding insert_intents
insert_intents-same [] s = (refl, refl, refl)
insert_intents-same (i ∷ is) s =
    ground (arith, insert_intent-same i s, insert_intents-same is (insert_intent i s).1)

save_intents-same :
    (is : List OrderIntent) (s : ExecutionStore) → SameTables (save_intents is s).1 s
unfolding save_intents
save_intents-same is s = ground (arith, insert_intents-same is s)

save_risk_decision-same :
    (d : RiskDecision) (s : ExecutionStore) → SameTables (save_risk_decision d s).1 s
unfolding save_risk_decision insert_decision
save_risk_decision-same d s = ground arith

save_approval-same : (a : Approval) (s : ExecutionStore) → SameTables (save_approval a s).1 s
unfolding save_approval insert_approval
save_approval-same a s = ground arith

consume_approval-same :
    (id : Uuid) (at : Instant) (s : ExecutionStore) → SameTables (consume_approval id at s).1 s
unfolding consume_approval mark_consumed
consume_approval-same id at s = ground arith

same-Effect : (s s' : ExecutionStore) → SameTables s' s → Effect s s'
same-Effect s s' (p, q, r) = unchanged p q r

save_command-Effect : (c : BrokerCommand) (s : ExecutionStore) → Effect s (save_command c s).1
save_command-Effect c s =
    Effect-of (save_command c) s
      (λ a p.
        let (done, same) : ((insert_command c s).0 ≡ ok tt)
            × ((save_command c s).1 ≡ (insert_command c s).1) =
          unfold save_command in ground arith in
        let (new, kept) = insert_command-Inserted c s done in rw same (inserted c new kept))
      (λ e p. unfold save_command in ground arith)

claims-Effect :
    (c : BrokerCommand) (i : OrderIntent) (t : CommandAttempt) (s : ExecutionStore)
    → Effect s (claim_submission c i t s).1
claims-Effect c i t s =
    Effect-of (claim_submission c i t) s
      (λ c' p. claim_submission-Effect c i t s c' _ (ground arith))
      (λ e p. unfold claim_submission in ground arith)

records-Effect :
    (id : Uuid) (t : CommandAttempt) (s : ExecutionStore) → Effect s (record_attempt id t s).1
records-Effect id t s =
    Effect-of (record_attempt id t) s
      (λ c' p. elim (Option-cases (get_command id s)) [
        | inl missing ↦ absurd (unfold record_attempt in ground arith)
        | inr (c, e) ↦ elim (Option-cases (find_intent s c.intent_hash)) [
          | inl missing ↦ absurd (unfold record_attempt in ground arith)
          | inr (i, f) ↦
              let same : (record_attempt id t s).1 ≡ (claim_submission c i t s).1 =
                unfold record_attempt in ground arith in
              rw same (claims-Effect c i t s)
        ]
      ])
      (λ e p. unfold record_attempt claim_submission in ground arith)

-- Each call, whether it returns or raises, has one of the four effects.
pub perform-Effect : (call : Call) (s : ExecutionStore) → Effect s (perform call s)
unfolding perform
perform-Effect (saves_intents is) s = same-Effect s _ (save_intents-same is s)
perform-Effect (saves_decision d) s = same-Effect s _ (save_risk_decision-same d s)
perform-Effect (saves_approval a) s = same-Effect s _ (save_approval-same a s)
perform-Effect (consumes id at) s = same-Effect s _ (consume_approval-same id at s)
perform-Effect (saves_command c) s = save_command-Effect c s
perform-Effect (opens c d) s =
    Effect-of (save_risk_bound_command c d) s
      (λ c' p. save_risk_bound_command-Effect c d s c' _ (ground arith))
      (λ e p. unfold save_risk_bound_command in ground arith)
perform-Effect (approves c a now) s =
    Effect-of (approve_command c a now) s
      (λ c' p. approve_command-Effect c a now s c' _ (ground arith))
      (λ e p. unfold approve_command in ground arith)
perform-Effect (authorizes c i d a from until) s =
    Effect-of (authorize_submission c i d a from until) s
      (λ c' p. authorize_submission-Effect c i d a from until s c' _ (ground arith))
      (λ e p. unfold authorize_submission in ground arith)
perform-Effect (claims c i t) s = claims-Effect c i t s
perform-Effect (transitions id target details ids) s =
    Effect-of (transition_command id target details ids) s
      (λ c' p. transition_command-Effect id target details ids s c' _ (ground arith))
      (λ e p. unfold transition_command in ground arith)
perform-Effect (records id t) s = records-Effect id t s

-- What every effect preserves, every run does.
pub run-preserves :
    (P : ExecutionStore → Type 0)
    → ((s s' : ExecutionStore) → Effect s s' → P s → P s')
    → (calls : List Call) (s : ExecutionStore) → P s
    → P (run calls s)
unfolding run
run-preserves P keeps [] s h = h
run-preserves P keeps (call ∷ rest) s h =
    run-preserves P keeps rest (perform call s) (keeps s (perform call s) (perform-Effect call s) h)
