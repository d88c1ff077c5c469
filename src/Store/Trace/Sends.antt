-- ===== src/Store/Trace/Sends.antt =====
-- execution/store.py: claims of a send, and the calls between them.
use investing_agents.Prelude.{◌≡◌, inl, inr, List, arith, sym, ◌∙◌, subst, ap}
use investing_agents.Result.{ok, err, Error, Result-cases}
use investing_agents.Table.{find}
use investing_agents.Domain.Types.{Uuid, Digest}
use investing_agents.Domain.Evidence.{OrderIntent}
use investing_agents.Domain.Command.{BrokerCommand, CommandAttempt}
use investing_agents.Store.Tables.{ExecutionStore, find_binding, empty_store}
use investing_agents.Store.Submission.{claim_submission}
use investing_agents.Store.Shapes.Claim.{claim_submission-Granted}
use investing_agents.Store.Effect.Operations.{claim_submission-Effect}
use investing_agents.Store.Trace.{Call, run, run-preserves}
use investing_agents.Store.Trace.Claims.{
  IsClaimed, IsStored, Effect-IsClaimed, Effect-IsStored, same_command-ids, bound_risk-binding,
  check_claim-unclaimed, claimed-refuses, granted-claims,
}
use investing_agents.Store.Trace.Consistency.{IsConsistent, Effect-IsConsistent}

-- Once a claim was granted, whatever calls follow, every further claim on a command with that
-- identity raises: a send is claimed at most once.
pub claim_granted_once :
    (c e : BrokerCommand) (i j : OrderIntent) (t u : CommandAttempt)
    → (s : ExecutionStore) (c' : BrokerCommand) (calls : List Call)
    → (claim_submission c i t s).0 ≡ ok c'
    → e.command_id ≡ c.command_id
    → (x : Error) × ((claim_submission e j u (run calls (claim_submission c i t s).1)).0 ≡ err x)
claim_granted_once c e i j t u s c' calls h same =
    let s1 = (claim_submission c i t s).1 in
    let claimed =
      run-preserves (IsClaimed c.command_id) (Effect-IsClaimed c.command_id) calls s1
        (granted-claims c i t s c' h).0 in
    elim (Result-cases (claim_submission e j u (run calls s1)).0) [
      | inr failed ↦ failed
      | inl (c2, granted) ↦ absurd (
          claimed-refuses e j u (run calls s1) c2
            (subst (λ k. IsClaimed k (run calls s1)) (sym same) claimed) granted)
    ]

empty-IsConsistent : IsConsistent empty_store
unfolding find
empty-IsConsistent = record {
  bound_known = λ j b e. absurd (ground arith);
  claimed_submits = λ j b r e f g. absurd (ground arith);
  one_submission = λ i j a b p q e f g k m n o. absurd (ground arith);
}

pub run-IsConsistent : (calls : List Call) → IsConsistent (run calls empty_store)
run-IsConsistent calls =
    run-preserves IsConsistent Effect-IsConsistent calls empty_store empty-IsConsistent

-- In a ledger that be-- In a consistent ledger no claim is granted for the intent of a command that is claimed.
pub claimed_intent-refuses :
    (j : Uuid) (h : Digest) (e : BrokerCommand) (i : OrderIntent) (u : CommandAttempt)
    → (s : ExecutionStore) (e' : BrokerCommand) → IsConsistent s
    → IsClaimed j s
    → IsStored j h s
    → e.intent_hash ≡ h
    → (claim_submission e i u s).0 ≡ ok e'
    → ⊥
claimed_intent-refuses j h e i u s e' consistent (b, bound, is_claimed_now) (r, found, its_intent)
      same granted =
    let g = claim_submission-Granted e i u s e' (claim_submission e i u s).1 (ground arith) in
    let ids = same_command-ids g.row.command e g.snapshot in
    let free = check_claim-unclaimed g.row.command g.binding u g.checked in
    let its_binding = bound_risk-binding g.row.command s g.binding g.decision g.bound in
    let same_id : j ≡ g.row.command.command_id =
      consistent.one_submission j g.row.command.command_id b g.binding r g.row bound its_binding
        found g.found (consistent.claimed_submits j b r bound found is_claimed_now) free.1
        (its_intent ∙ sym same ∙ sym ids.1) in
    ground (arith, bound, is_claimed_now, free.0, its_binding, ap (find_binding s) same_id)

-- In a ledger that began empty, after a claim was granted for an intent and whatever calls
-- followed, no claim is granted for a command of the same intent: neither for the same command nor
-- for another one.
pub one_send_per_intent :
    (before between : List Call) (c e : BrokerCommand) (i j : OrderIntent) (t u : CommandAttempt)
    → (c' : BrokerCommand) → (claim_submission c i t (run before empty_store)).0 ≡ ok c'
    → e.intent_hash ≡ c.intent_hash
    → (x : Error) × ((claim_submission e j u
          (run between (claim_submission c i t (run before empty_store)).1)).0
        ≡ err x)
one_send_per_intent before between c e i j t u c' h same =
    let s = run before empty_store in
    let s1 = (claim_submission c i t s).1 in
    let s2 = run between s1 in
    let (claimed, stored) = granted-claims c i t s c' h in
    let consistent1 =
      Effect-IsConsistent s s1 (claim_submission-Effect c i t s c' s1 (ground arith))
        (run-IsConsistent before) in
    let consistent = run-preserves IsConsistent Effect-IsConsistent between s1 consistent1 in
    let claimed_then =
      run-preserves (IsClaimed c.command_id) (Effect-IsClaimed c.command_id) between s1 claimed in
    let stored_then =
      run-preserves (IsStored c.command_id c.intent_hash)
        (Effect-IsStored c.command_id c.intent_hash) between s1 stored in
    elim (Result-cases (claim_submission e j u s2).0) [
      | inr failed ↦ failed
      | inl (e', granted) ↦ absurd (
          claimed_intent-refuses c.command_id c.intent_hash e j u s2 e' consistent claimed_then
            stored_then same granted)
    ]
