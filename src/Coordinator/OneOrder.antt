-- ===== src/Coordinator/OneOrder.antt =====
-- execution/coordinator.py: the orders that reach the broker.
use investing_agents.Prelude.{
  ⊤, ◌≡◌, refl, inl, inr, Bool, true, false, String, List, [], ◌∷◌, arith, map, any, subst, sym,
  ◌==◌, Bool-cases, ==→eq,
}
use investing_agents.Result.{ok}
use investing_agents.Domain.Types.{Uuid, Digest, Instant}
use investing_agents.Domain.Evidence.{OrderIntent}
use investing_agents.Domain.Command.{BrokerCommand, CommandAttempt}
use investing_agents.Registry.{InstrumentTables}
use investing_agents.Store.Tables.{ExecutionStore, empty_store}
use investing_agents.Store.Intents.{all_distinct}
use investing_agents.Store.Submission.{claim_submission}
use investing_agents.Store.Effect.{Effect}
use investing_agents.Store.Effect.Operations.{claim_submission-Effect}
use investing_agents.Store.Trace.{Call, perform, run, perform-Effect}
use investing_agents.Store.Trace.Claims.{
  IsClaimed, IsStored, Effect-IsClaimed, Effect-IsStored, granted-claims,
}
use investing_agents.Store.Trace.Consistency.{IsConsistent, Effect-IsConsistent}
use investing_agents.Store.Trace.Sends.{run-IsConsistent, claimed_intent-refuses}
use investing_agents.Coordinator.Config.{ExecutionConfig}
use investing_agents.Coordinator.Send.{
  World, Send, BrokerAdapter, first_attempt, outcome_of_send, submit_pending_command,
}
use investing_agents.Coordinator.Worlds.{submit-World}

-- The worlds that calls of the ledger and submissions lead to, in any order, from an empty ledger
-- and a broker that was sent nothing. Configuration, adapter and instruments may change in between.
pub data Reached : World → Type 0 where
  start : Reached (record { store = empty_store; sends = [] })
  stores :
      (w : World) (call : Call)
      → Reached w
      → Reached (record { store = perform call w.store; sends = w.sends })
  submits :
      (w : World) (text : Uuid → String) (config : ExecutionConfig) (registry : InstrumentTables)
      → (adapter : BrokerAdapter) (c : BrokerCommand) (i : OrderIntent) (now : Instant) → Reached w
      → Reached (submit_pending_command text config registry adapter c i now w).1

abbrev pub sent_intent : Send → Digest
sent_intent (i, c) = c.intent_hash

-- Every command that was sent is claimed, and stored with its intent.
abbrev AllClaimed : List Send → ExecutionStore → Type 0
AllClaimed [] s = ⊤
AllClaimed ((i, c) ∷ rest) s =
    IsClaimed c.command_id s × IsStored c.command_id c.intent_hash s × AllClaimed rest s

abbrev is_intent : Digest → Digest → Bool
is_intent h k = k == h

record IsSound (w : World) : Type 0 where
  consistent : IsConsistent w.store
  claimed : AllClaimed w.sends w.store
  distinct : all_distinct (map sent_intent w.sends) ≡ true

Effect-AllClaimed :
    (sends : List Send) (s s' : ExecutionStore)
    → Effect s s'
    → AllClaimed sends s
    → AllClaimed sends s'
Effect-AllClaimed [] s s' e h = tt
Effect-AllClaimed ((i, c) ∷ rest) s s' e (a, b, more) = (
  Effect-IsClaimed c.command_id s s' e a,
  Effect-IsStored c.command_id c.intent_hash s s' e b,
  Effect-AllClaimed rest s s' e more,
)

Effect-IsSound :
    (sends : List Send) (s s' : ExecutionStore)
    → Effect s s'
    → IsSound (record { store = s; sends = sends })
    → IsSound (record { store = s'; sends = sends })
Effect-IsSound sends s s' e sound = record {
  consistent = Effect-IsConsistent s s' e sound.consistent;
  claimed = Effect-AllClaimed sends s s' e sound.claimed;
  distinct = sound.distinct;
}

-- A claim that is granted is for an intent that was not sent yet.
granted-unsent :
    (sends : List Send) (c : BrokerCommand) (i : OrderIntent) (t : CommandAttempt)
    → (s : ExecutionStore) (c' : BrokerCommand) → IsConsistent s
    → AllClaimed sends s
    → (claim_submission c i t s).0 ≡ ok c'
    → any (is_intent c.intent_hash) (map sent_intent sends) ≡ false
granted-unsent [] c i t s c' k h g = refl
granted-unsent ((j, d) ∷ rest) c i t s c' k (a, b, more) g =
    elim (Bool-cases (d.intent_hash == c.intent_hash)) [
      | inl same ↦ absurd (
          claimed_intent-refuses d.command_id d.intent_hash c i t s c' k a b (sym (==→eq _ _ same))
            g)
      | inr other ↦ ground (arith, granted-unsent rest c i t s c' k more g)
    ]

-- A send that was claimed keeps the world sound.
sent-IsSound :
    (w : World) (c : BrokerCommand) (i : OrderIntent) (t : CommandAttempt) (claimed : BrokerCommand)
    → IsSound w
    → (claim_submission c i t w.store).0 ≡ ok claimed
    → claimed.command_id ≡ c.command_id
    → claimed.intent_hash ≡ c.intent_hash
    → IsSound
        (record { store = (claim_submission c i t w.store).1; sends = (i, claimed) ∷ w.sends })
unfolding all_distinct
sent-IsSound w c i t claimed sound g same intent =
    let s1 = (claim_submission c i t w.store).1 in
    let e : Effect w.store s1 = claim_submission-Effect c i t w.store claimed s1 (ground arith) in
    let (now_claimed, now_stored) = granted-claims c i t w.store claimed g in
    let new = granted-unsent w.sends c i t w.store claimed sound.consistent sound.claimed g in
    record {
      consistent = Effect-IsConsistent w.store s1 e sound.consistent;
      claimed = (
        subst (λ k. IsClaimed k s1) (sym same) now_claimed,
        subst (λ k. IsStored k claimed.intent_hash s1) (sym same)
            (subst (λ k. IsStored c.command_id k s1) (sym intent) now_stored),
        Effect-AllClaimed w.sends w.store s1 e sound.claimed,
      );
      distinct = ground (arith, sound.distinct, intent, new);
    }

Reached-IsSound : (w : World) → Reached w → IsSound w
unfolding all_distinct perform run
Reached-IsSound _ start = record { consistent = run-IsConsistent []; claimed = tt; distinct = refl }
Reached-IsSound _ (stores w call r) =
    Effect-IsSound w.sends w.store (perform call w.store) (perform-Effect call w.store)
      (Reached-IsSound w r)
Reached-IsSound _ (submits w text config registry adapter c i now r) =
    elim (submit-World text config registry adapter c i now w) [
      | inl same ↦ subst IsSound (sym same) (Reached-IsSound w r)
      | inr (claimed, g, id, intent, after) ↦
          let t = first_attempt c now in
          let s1 = (claim_submission c i t w.store).1 in
          let out = outcome_of_send text adapter claimed (adapter.submit_order w.sends i claimed) in
          subst IsSound (sym after) (
            Effect-IsSound ((i, claimed) ∷ w.sends) s1 _
              (perform-Effect (Call.transitions claimed.command_id out.0 out.2 out.1) s1)
              (sent-IsSound w c i t claimed (Reached-IsSound w r) g id intent))
    ]

-- However calls of the ledger and submissions follow each other, whatever the adapters answer or
-- raise, and with any change of configuration in between: no two orders that were sent to the
-- broker are for the same intent.
pub one_order_per_intent : (w : World) → Reached w → all_distinct (map sent_intent w.sends) ≡ true
one_order_per_intent w r = (Reached-IsSound w r).distinct
