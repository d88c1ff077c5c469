-- ===== src/Coordinator/RecoverLaws.antt =====
-- execution/coordinator.py: what a reconciliation that returned rests on.
use investing_agents.Prelude.{
  ⊤, none, str_eq, eq_iff, same_option, ◌≡◌, ◌⊎◌, inl, inr, true, false, String, Option, some,
  arith, Option-cases, Bool-cases, ap, sym, ◌∙◌, List, [], ◌∷◌, subst, ◌&&◌, not,
}
use investing_agents.Result.{ok, Result-cases}
use investing_agents.Domain.Types.{
  Uuid, CommandState, same_environment, same_environment-eq, reconciling, reconciled, same_state,
  state_text,
}
use investing_agents.Domain.Evidence.{LimitValue, plain}
use investing_agents.Domain.Command.{BrokerCommand, BrokerIds, no_ids}
use investing_agents.Domain.Attempts.{transition-shape}
use investing_agents.Store.Tables.{ExecutionStore, CommandRow, command_key, find_command}
use investing_agents.Table.{find-key}
use investing_agents.Coordinator.Carried.{
  IsInLedger, transition_command-IsInLedger, begin_lookup-Carried,
}
use investing_agents.Store.Submission.{get_command, transition_command}
use investing_agents.Store.Shapes.{transition_command-shape}
use investing_agents.Coordinator.Recover.{
  LookupAdapter, BrokerReconciliationResult, begin_lookup, check_lookup, recovered_reference,
  record_lookup, reconcile_command, conflicts, plain_details,
}

check_lookup-tests :
    (canonical : String → Option String) (adapter : LookupAdapter) (c : BrokerCommand)
    → (r : BrokerReconciliationResult) (reference : Option String) (target : CommandState)
    → check_lookup canonical adapter c r ≡ ok (reference, target)
    → (r.command_id ≡ c.command_id)
      × (conflicts c.broker_order_id r.broker_order_id ≡ false)
      × (recovered_reference canonical adapter c r ≡ ok reference)
      × (r.lifecycle_state ≡ some target)
unfolding check_lookup
check_lookup-tests canonical adapter c r reference target h =
    elim (Result-cases (recovered_reference canonical adapter c r)) [
      | inr (e, p) ↦ absurd (ground arith)
      | inl (x, p) ↦ elim (Option-cases r.lifecycle_state) [
        | inl missing ↦ absurd (ground arith)
        | inr (y, q) ↦ (ground arith, ground arith, ground arith, ground arith)
      ]
    ]

begin_lookup-Reconciling :
    (c : BrokerCommand) (s : ExecutionStore) (current : BrokerCommand)
    → (begin_lookup c s).0 ≡ ok current
    → current.state ≡ reconciling
unfolding begin_lookup
begin_lookup-Reconciling c s current h = ground arith

transition_command-target :
    (id : Uuid) (target : CommandState) (details : List (String × LimitValue)) (ids : BrokerIds)
    → (s : ExecutionStore) (u : BrokerCommand)
    → (transition_command id target details ids s).0 ≡ ok u
    → u.state ≡ target
transition_command-target id target details ids s u h =
    let (row, found, named, moved, advanced) =
      transition_command-shape id target details ids s u
        (transition_command id target details ids s).1 (ground arith) in
    (transition-shape target ids row.command moved).1

record_lookup-target :
    (c : BrokerCommand) (r : BrokerReconciliationResult) (reference : Option String)
    → (target : CommandState) (s : ExecutionStore) (u : BrokerCommand)
    → (record_lookup c r reference target s).0 ≡ ok u
    → (u.state ≡ target) ⊎ ((r.is_reconciled ≡ true) × (u.state ≡ reconciled))
unfolding record_lookup
record_lookup-target c r reference target s u h =
    let ids : BrokerIds = record {
      order_id = r.broker_order_id;
      reference_id = reference;
      position_id = r.broker_position_id;
    } in
    let first = transition_command c.command_id target (plain_details r.details) ids s in
    elim (Result-cases first.0) [
      | inr (e, p) ↦ absurd (ground arith)
      | inl (moved, p) ↦
          let at =
            transition_command-target c.command_id target (plain_details r.details) ids s moved p in
          elim (Bool-cases (r.is_reconciled && not (same_state moved.state reconciled))) [
            | inl closes ↦ inr (
              ground arith,
              transition_command-target moved.command_id reconciled
                  (("terminal_broker_state", plain (state_text target)) ∷ []) no_ids first.1 u
                  (ground arith),
            )
            | inr rests ↦ inl (ground (arith, at))
          ]
    ]

-- What was recorded last is in the ledger.
record_lookup-IsInLedger :
    (c : BrokerCommand) (r : BrokerReconciliationResult) (reference : Option String)
    → (target : CommandState) (s : ExecutionStore) (u : BrokerCommand)
    → (record_lookup c r reference target s).0 ≡ ok u
    → IsInLedger (record_lookup c r reference target s).1 c.command_id u
unfolding record_lookup
record_lookup-IsInLedger c r reference target s u h =
    let ids : BrokerIds = record {
      order_id = r.broker_order_id;
      reference_id = reference;
      position_id = r.broker_position_id;
    } in
    let details = plain_details r.details in
    let s' = (record_lookup c r reference target s).1 in
    let first = transition_command c.command_id target details ids s in
    elim (Result-cases first.0) [
      | inr (e, p) ↦ absurd (ground arith)
      | inl (moved, p) ↦
          let there = transition_command-IsInLedger c.command_id target details ids s moved p in
          let final : List (String × LimitValue) =
            ("terminal_broker_state", plain (state_text target)) ∷ [] in
          elim (Bool-cases (r.is_reconciled && not (same_state moved.state reconciled))) [
            | inl closes ↦
                let last = transition_command moved.command_id reconciled final no_ids first.1 in
                let left : last.1 ≡ s' = ground arith in
                subst (λ k. IsInLedger s' k u) there.named
                  (subst (λ t. IsInLedger t moved.command_id u) left
                    (transition_command-IsInLedger moved.command_id reconciled final no_ids first.1
                      u (ground arith)))
            | inr rests ↦
                let same : moved ≡ u = ground arith in
                let left : first.1 ≡ s' = ground arith in
                subst (λ t. IsInLedger t c.command_id u) left
                  (subst (IsInLedger first.1 c.command_id) same there)
          ]
    ]

-- A recorded order id that is not blank is the one that the broker named.
abbrev pub AgreesOnOrder : Option String → Option String → Type 0
AgreesOnOrder none value = ⊤
AgreesOnOrder (some stored) value = (str_eq stored "" ≡ true) ⊎ (value ≡ some stored)

conflicts-AgreesOnOrder :
    (stored value : Option String) → conflicts stored value ≡ false → AgreesOnOrder stored value
conflicts-AgreesOnOrder none value h = tt
conflicts-AgreesOnOrder (some stored) value h = elim (Bool-cases (str_eq stored "")) [
  | inl blank ↦ inl blank
  | inr given ↦ inr (same_text value stored (ground (arith, h, given)))
]
  where
    same_text : (v : Option String) (t : String) → same_option str_eq v (some t) ≡ true → v ≡ some t
    same_text none t e = absurd (ground arith)
    same_text (some x) t e = ap some ((eq_iff x t).0 e)

-- What a reconciliation of one identity found in the ledger, asked, was answered, and left.
pub record RestsOnLookup (adapter : LookupAdapter) (id : Uuid) (s s' : ExecutionStore)
    (u : BrokerCommand) (r : BrokerReconciliationResult) : Type 0 where
  pub stored : CommandRow
  pub found : find_command s id ≡ some stored
  pub adapter_environment : adapter.environment ≡ stored.command.environment
  pub adapter_broker : adapter.broker_name ≡ stored.command.broker
  pub asked : BrokerCommand
  pub asked_id : asked.command_id ≡ id
  pub asked_intent : asked.intent_hash ≡ stored.command.intent_hash
  pub asked_order : asked.broker_order_id ≡ stored.command.broker_order_id
  pub asked_state : asked.state ≡ reconciling
  pub answered : adapter.lookup asked ≡ ok r
  pub answer_id : r.command_id ≡ id
  pub agreed : AgreesOnOrder stored.command.broker_order_id r.broker_order_id
  pub target : CommandState
  pub target_named : r.lifecycle_state ≡ some target
  pub reached : (u.state ≡ target) ⊎ ((r.is_reconciled ≡ true) × (u.state ≡ reconciled))
  pub after : IsInLedger s' id u

stored-IsInLedger :
    (id : Uuid) (s : ExecutionStore) (c : BrokerCommand)
    → get_command id s ≡ some c
    → IsInLedger s id c
unfolding get_command
stored-IsInLedger id s c p = elim (Option-cases (find_command s id)) [
  | inl missing ↦ absurd (ground (arith, p, missing))
  | inr (row, found) ↦
      let same : row.command ≡ c = ground (arith, p, found) in
      record {
        row = row;
        found = found;
        holds = same;
        named =
            ap (λ x. x.command_id) (sym same) ∙ find-key command_key id s.broker_commands row found;
      }
]

looked_up :
    (canonical : String → Option String) (adapter : LookupAdapter) (id : Uuid) (s : ExecutionStore)
    → (c current : BrokerCommand) (answer : BrokerReconciliationResult) (reference : Option String)
    → (target : CommandState) (updated : BrokerCommand) → get_command id s ≡ some c
    → same_environment adapter.environment c.environment ≡ true
    → str_eq adapter.broker_name c.broker ≡ true
    → (begin_lookup c s).0 ≡ ok current
    → adapter.lookup current ≡ ok answer
    → check_lookup canonical adapter current answer ≡ ok (reference, target)
    → (record_lookup current answer reference target (begin_lookup c s).1).0 ≡ ok updated
    → RestsOnLookup adapter id s
        (record_lookup current answer reference target (begin_lookup c s).1).1
        updated
        answer
looked_up canonical adapter id s c current answer reference target updated p place broker q w t v =
    let before = stored-IsInLedger id s c p in
    let carried = begin_lookup-Carried c s id current before q in
    let (same, order, proven, named) =
      check_lookup-tests canonical adapter current answer reference target t in
    let is_c = sym before.holds in
    let is_id = carried.there.named in
    record {
      stored = before.row;
      found = before.found;
      adapter_environment =
          same_environment-eq adapter.environment c.environment place
          ∙ ap (λ (x : BrokerCommand). x.environment) is_c;
      adapter_broker =
          (eq_iff adapter.broker_name c.broker).0 broker
          ∙ ap (λ (x : BrokerCommand). x.broker) is_c;
      asked = current;
      asked_id = is_id;
      asked_intent = carried.same_intent_hash ∙ ap (λ (x : BrokerCommand). x.intent_hash) is_c;
      asked_order = carried.same_order ∙ ap (λ (x : BrokerCommand). x.broker_order_id) is_c;
      asked_state = begin_lookup-Reconciling c s current q;
      answered = w;
      answer_id = same ∙ is_id;
      agreed =
          subst (λ x. AgreesOnOrder x answer.broker_order_id)
            (carried.same_order ∙ ap (λ (x : BrokerCommand). x.broker_order_id) is_c)
            (conflicts-AgreesOnOrder current.broker_order_id answer.broker_order_id order);
      target = target;
      target_named = named;
      reached = record_lookup-target current answer reference target (begin_lookup c s).1 updated v;
      after =
          subst
            (λ k.
              IsInLedger (record_lookup current answer reference target (begin_lookup c s).1).1 k
                updated)
            is_id
            (record_lookup-IsInLedger current answer reference target (begin_lookup c s).1 updated
              v);
    }

-- A reconciliation that returns a command rests on the ledger and on an answer of the broker's
-- lookup. The command was stored under the requested identity, for the adapter's environment and
-- broker; the lookup was asked about the command of that identity, intent hash and recorded order
-- id, in the state `reconciling`; the answer is for that identity, does not name another order than
-- a recorded one, and names a lifecycle state. The command that is returned is in that state, or in
-- `reconciled` if the answer says that it is, and is what the ledger then holds under the identity.
pub reconciled_by_lookup :
    (canonical : String → Option String) (adapter : LookupAdapter) (id : Uuid) (s : ExecutionStore)
    → (u : BrokerCommand) (r : BrokerReconciliationResult)
    → (reconcile_command canonical adapter id s).0 ≡ ok (u, r)
    → RestsOnLookup adapter id s (reconcile_command canonical adapter id s).1 u r
unfolding reconcile_command
reconciled_by_lookup canonical adapter id s u r h = elim (Option-cases (get_command id s)) [
  | inl missing ↦ absurd (ground arith)
  | inr (c, p) ↦ elim (Result-cases (begin_lookup c s).0) [
    | inr (e, q) ↦ absurd (ground arith)
    | inl (current, q) ↦ elim (Result-cases (adapter.lookup current)) [
      | inr (e, w) ↦ absurd (ground arith)
      | inl (answer, w) ↦ elim (Result-cases (check_lookup canonical adapter current answer)) [
        | inr (e, t) ↦ absurd (ground arith)
        | inl ((reference, target), t) ↦
            let s1 = (begin_lookup c s).1 in
            let s2 = (record_lookup current answer reference target s1).1 in
            elim (Result-cases (record_lookup current answer reference target s1).0) [
              | inr (e, v) ↦ absurd (ground arith)
              | inl (updated, v) ↦
                  let one : answer ≡ r = ground arith in
                  let two : updated ≡ u = ground arith in
                  let place : same_environment adapter.environment c.environment ≡ true =
                    ground arith in
                  let broker : str_eq adapter.broker_name c.broker ≡ true = ground arith in
                  let left : s2 ≡ (reconcile_command canonical adapter id s).1 = ground arith in
                  subst (RestsOnLookup adapter id s (reconcile_command canonical adapter id s).1 u)
                    one
                    (subst
                      (λ x.
                        RestsOnLookup adapter id s (reconcile_command canonical adapter id s).1 x
                          answer)
                      two
                      (subst (λ x. RestsOnLookup adapter id s x updated answer) left
                        (looked_up canonical adapter id s c current answer reference target updated
                          p place broker q w t v)))
            ]
      ]
    ]
  ]
]
