-- ===== src/Coordinator/Carried.antt =====
-- execution/coordinator.py: the command in the ledger, through the transitions of a reconciliation.
use investing_agents.Prelude.{
  ◌≡◌, inl, inr, ◌+◌, String, some, arith, Bool-cases, ap, sym, ◌∙◌, List, [], ◌∷◌, subst, ==-refl,
  refl,
}
use investing_agents.Result.{ok, Result-cases}
use investing_agents.Table.{find, update, find-update}
use investing_agents.Domain.Types.{
  Uuid, CommandState, submission_pending, acknowledged, partially_filled, cancel_pending, unknown,
  reconciling, state_in, or_else,
}
use investing_agents.Domain.Evidence.{LimitValue}
use investing_agents.Domain.Command.{BrokerCommand, BrokerIds, no_ids, transition, validate_command}
use investing_agents.Domain.Attempts.{transition-shape}
use investing_agents.Store.Tables.{ExecutionStore, CommandRow, command_key, find_command}
use investing_agents.Store.Commands.{replaced}
use investing_agents.Store.Submission.{transition_command}
use investing_agents.Store.Shapes.{transition_command-shape}
use investing_agents.Coordinator.Recover.{move_from, begin_lookup}

-- The ledger's row of an identity holds the command, which has that identity.
pub record IsInLedger (s : ExecutionStore) (id : Uuid) (c : BrokerCommand) : Type 0 where
  pub row : CommandRow
  pub found : find_command s id ≡ some row
  pub holds : row.command ≡ c
  pub named : c.command_id ≡ id

-- The command of the ledger has moved, if at all, in its state.
pub record Carried (id : Uuid) (c c' : BrokerCommand) (s' : ExecutionStore) : Type 0 where
  pub there : IsInLedger s' id c'
  pub same_intent_hash : c'.intent_hash ≡ c.intent_hash
  pub same_order : c'.broker_order_id ≡ c.broker_order_id

order_kept :
    (target : CommandState) (c : BrokerCommand) {c' : BrokerCommand}
    → transition target no_ids c ≡ ok c'
    → c'.broker_order_id ≡ c.broker_order_id
unfolding transition validate_command or_else
order_kept target c h = ground arith

-- A transition that returned a command has put it in the ledger's row of its identity.
pub transition_command-IsInLedger :
    (id : Uuid) (target : CommandState) (details : List (String × LimitValue)) (ids : BrokerIds)
    → (s : ExecutionStore) (u : BrokerCommand)
    → (transition_command id target details ids s).0 ≡ ok u
    → IsInLedger (transition_command id target details ids s).1 id u
transition_command-IsInLedger id target details ids s u h =
    let s' = (transition_command id target details ids s).1 in
    let (row, found, named, moved, advanced) =
      transition_command-shape id target details ids s u s' (ground arith) in
    let shape = transition-shape target ids row.command moved in
    let new = replaced u (row.revision + 1) row in
    let is_id : u.command_id ≡ id = shape.3.0 ∙ named in
    let rows : s'.broker_commands
        ≡ update command_key id (replaced u (row.revision + 1)) s.broker_commands =
      advanced.commands
      ∙ ap (λ k. update command_key k (replaced u (row.revision + 1)) s.broker_commands) named in
    record {
      row = new;
      found =
          ap (find command_key id) rows
          ∙ find-update command_key id id (replaced u (row.revision + 1)) s.broker_commands
              (λ x e. is_id)
          ∙ ground (arith, found, ==-refl id);
      holds = refl;
      named = is_id;
    }

transition_command-Carried :
    (id : Uuid) (target : CommandState) (s : ExecutionStore) (c u : BrokerCommand)
    → IsInLedger s id c
    → (transition_command id target [] no_ids s).0 ≡ ok u
    → Carried id c u (transition_command id target [] no_ids s).1
transition_command-Carried id target s c u before h =
    let (row, found, named, moved, advanced) =
      transition_command-shape id target [] no_ids s u (transition_command id target [] no_ids s).1
        (ground arith) in
    let shape = transition-shape target no_ids row.command moved in
    let same_row : row ≡ before.row = ground (arith, found, before.found) in
    let same : row.command ≡ c = ap (λ x. x.command) same_row ∙ before.holds in
    record {
      there = transition_command-IsInLedger id target [] no_ids s u h;
      same_intent_hash = shape.3.2 ∙ ap (λ x. x.intent_hash) same;
      same_order = order_kept target row.command moved ∙ ap (λ x. x.broker_order_id) same;
    }

Carried-both :
    (id : Uuid) (c d e : BrokerCommand) (s' s'' : ExecutionStore)
    → Carried id c d s'
    → Carried id d e s''
    → Carried id c e s''
Carried-both id c d e s' s'' one two = record {
  there = two.there;
  same_intent_hash = two.same_intent_hash ∙ one.same_intent_hash;
  same_order = two.same_order ∙ one.same_order;
}

move_from-Carried :
    (states : List CommandState) (target : CommandState) (c : BrokerCommand) (s : ExecutionStore)
    → (id : Uuid) (u : BrokerCommand) → IsInLedger s id c
    → (move_from states target c s).0 ≡ ok u
    → Carried id c u (move_from states target c s).1
move_from-Carried states target c s id u before h = elim (Bool-cases (state_in c.state states)) [
  | inl moves ↦
      let made = transition_command c.command_id target [] no_ids s in
      let same : made ≡ move_from states target c s = ground (arith, moves) in
      let at = transition_command id target [] no_ids s in
      let named : at ≡ made =
        ap (λ k. transition_command k target [] no_ids s) (sym before.named) in
      subst (λ x. Carried id c u x.1) (named ∙ same)
        (transition_command-Carried id target s c u before (ap (λ x. x.0) (named ∙ same) ∙ h))
  | inr rests ↦
      let same : (ok c, s) ≡ move_from states target c s = ground (arith, rests) in
      let is_c : c ≡ u = ground (arith, ap (λ x. x.0) same, h) in
      subst (λ x. Carried id c u x.1) same
        (record {
          there = subst (IsInLedger s id) is_c before;
          same_intent_hash = ap (λ x. x.intent_hash) (sym is_c);
          same_order = ap (λ x. x.broker_order_id) (sym is_c);
        })
]

pub begin_lookup-Carried :
    (c : BrokerCommand) (s : ExecutionStore) (id : Uuid) (current : BrokerCommand)
    → IsInLedger s id c
    → (begin_lookup c s).0 ≡ ok current
    → Carried id c current (begin_lookup c s).1
unfolding begin_lookup
begin_lookup-Carried c s id current before h =
    let one = move_from (submission_pending ∷ []) unknown c s in
    elim (Result-cases one.0) [
      | inr (e, p) ↦ absurd (ground (arith, h, p))
      | inl (a, p) ↦
          let two =
            move_from (acknowledged ∷ partially_filled ∷ cancel_pending ∷ []) unknown a one.1 in
          elim (Result-cases two.0) [
            | inr (e, q) ↦ absurd (ground (arith, h, p, q))
            | inl (b, q) ↦
                let three = move_from (unknown ∷ []) reconciling b two.1 in
                elim (Result-cases three.0) [
                  | inr (e, v) ↦ absurd (ground (arith, h, p, q, v))
                  | inl (d, v) ↦
                      let first =
                        move_from-Carried (submission_pending ∷ []) unknown c s id a before p in
                      let second =
                        move_from-Carried (acknowledged ∷ partially_filled ∷ cancel_pending ∷ [])
                          unknown a one.1 id b first.there q in
                      let third =
                        move_from-Carried (unknown ∷ []) reconciling b two.1 id d second.there v in
                      let whole =
                        Carried-both id c b d two.1 three.1
                          (Carried-both id c a b one.1 two.1 first second) third in
                      let same : d ≡ current = ground (arith, h, p, q, v) in
                      let left : three.1 ≡ (begin_lookup c s).1 = ground (arith, h, p, q, v) in
                      subst (Carried id c current) left
                        (subst (λ x. Carried id c x three.1) same whole)
                ]
          ]
    ]
