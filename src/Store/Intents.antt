-- ===== src/Store/Intents.antt =====
-- execution/store.py: intents, risk decisions and approvals on their own.
use investing_agents.Prelude.{
  ⊤, Bool, true, not, ◌&&◌, ◌||◌, none, some, List, [], ◌∷◌, ◌==◌, any, is_some, is_none, map,
  if◌then◌else◌,
}
use investing_agents.Result.{
  ok, err, Action, raise_if, pure, gets, transaction, ◌>>=◌, ◌>>◌, store_error, duplicate_intent,
  integrity_error, approval_replay,
}
use investing_agents.Table.{find, has, update}
use investing_agents.Domain.Types.{Uuid, Digest, Instant}
use investing_agents.Domain.Evidence.{OrderIntent, RiskDecision, Approval}
use investing_agents.Store.Tables.{
  ExecutionStore, ApprovalRow, intent_key, intent_id_key, decision_key, approval_key, find_intent,
}

-- `len({intent.intent_hash for intent in intents}) == len(intents)`
unfoldable pub all_distinct : List Digest → Bool
all_distinct [] = true
all_distinct (h ∷ rest) = not (any (λ k. k == h) rest) && all_distinct rest

-- The insert of one intent: intent_id is the primary key, intent_hash is unique.
unfoldable pub insert_intent : OrderIntent → Action ExecutionStore ⊤
insert_intent i s =
    if has intent_id_key i.intent_id s.order_intents || has intent_key i.intent_hash s.order_intents
    then (err duplicate_intent, s)
    else (ok tt, record s { order_intents = i ∷ s.order_intents })

unfoldable pub insert_intents : List OrderIntent → Action ExecutionStore ⊤
insert_intents [] = pure tt
insert_intents (i ∷ rest) = insert_intent i >> insert_intents rest

unfoldable pub save_intents : List OrderIntent → Action ExecutionStore ⊤
save_intents intents = do
  raise_if (not (all_distinct (map intent_key intents))) duplicate_intent
  transaction (insert_intents intents)

unfoldable pub save_intent : OrderIntent → Action ExecutionStore ⊤
save_intent i = save_intents (i ∷ [])

-- The insert into risk_decisions; decision_id is its primary key.
unfoldable pub insert_decision : RiskDecision → Action ExecutionStore ⊤
insert_decision d s =
    if has decision_key d.decision_id s.risk_decisions || is_none (find_intent s d.intent_hash)
    then (err integrity_error, s)
    else (ok tt, record s { risk_decisions = d ∷ s.risk_decisions })

unfoldable pub save_risk_decision : RiskDecision → Action ExecutionStore ⊤
save_risk_decision d = do
  known ← gets (λ s. is_some (find_intent s d.intent_hash))
  raise_if (not known) (store_error "risk decision references an unknown intent")
  transaction (insert_decision d)

-- The insert into approvals; approval_id is its primary key.
unfoldable pub insert_approval : Approval → Action ExecutionStore ⊤
insert_approval a s =
    if has approval_key a.approval_id s.approvals || is_none (find_intent s a.intent_hash)
    then (err integrity_error, s)
    else (ok tt, record s { approvals = record { approval = a; consumed_at = none } ∷ s.approvals })

unfoldable pub save_approval : Approval → Action ExecutionStore ⊤
save_approval a = do
  known ← gets (λ s. is_some (find_intent s a.intent_hash))
  raise_if (not known) (store_error "approval references an unknown intent")
  transaction (insert_approval a)

abbrev pub consumed : Instant → ApprovalRow → ApprovalRow
consumed at r = record r { consumed_at = some at }

-- `UPDATE approvals SET consumed_at = ? WHERE approval_id = ? AND consumed_at IS NULL`, and the
-- test that it changed one row.
unfoldable pub mark_consumed : Uuid → Instant → Action ExecutionStore ⊤
mark_consumed id at s = elim (find approval_key id s.approvals) [
  | none ↦ (err (approval_replay "not stored"), s)
  | some r ↦
      if is_some r.consumed_at
      then (err (approval_replay "already consumed"), s)
      else (ok tt, record s { approvals = update approval_key id (consumed at) s.approvals })
]

unfoldable pub consume_approval : Uuid → Instant → Action ExecutionStore ⊤
consume_approval id at = transaction (mark_consumed id at)
