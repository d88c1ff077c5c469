-- ===== src/Store/Effect/Operations.antt =====
-- Every transaction of execution/store.py has one of the four effects.
use investing_agents.Prelude.{
  ◌≡◌, refl, inl, inr, true, none, some, List, [], ◌∷◌, arith, sym, ◌∙◌, ap, subst, String,
}
use investing_agents.Result.{ok}
use investing_agents.Domain.Types.{Uuid, Instant, CommandState, is_submit_order}
use investing_agents.Domain.Evidence.{OrderIntent, RiskDecision, Approval, LimitValue}
use investing_agents.Domain.Command.{BrokerCommand, BrokerIds, CommandAttempt}
use investing_agents.Domain.Attempts.{transition-shape, transition-step, with_attempt-shape}
use investing_agents.Store.Tables.{ExecutionStore, Binding, find_command}
use investing_agents.Store.Intents.{insert_decision, insert_approval, mark_consumed}
use investing_agents.Store.Commands.{save_risk_bound_command, insert_command, insert_binding}
use investing_agents.Store.Submission.{
  approve_command, authorize_submission, claim_submission, transition_command, check_claim,
  set_binding, with_approval, with_window, with_claim,
}
use investing_agents.Store.Shapes.{transition_command-shape}
use investing_agents.Store.Shapes.Claim.{claim_submission-Granted}
use investing_agents.Store.Shapes.Approve.{approve_command-Approves}
use investing_agents.Store.Shapes.Authorize.{authorize_submission-Authorizes}
use investing_agents.Store.Shapes.Open.{save_risk_bound_command-Opens}
use investing_agents.Store.Effect.{Effect, opened, moved, Inserted, Bound}
use investing_agents.Store.Effect.Rows.{set_binding-kept, BindingsKept-through, BindingsKept-refl}

check_claim-submits :
    (c : BrokerCommand) (b : Binding) (t : CommandAttempt)
    → check_claim c b t ≡ ok tt
    → is_submit_order c.operation ≡ true
unfolding check_claim
check_claim-submits c b t h = ground arith

pub claim_submission-Effect :
    (c : BrokerCommand) (i : OrderIntent) (t : CommandAttempt)
    → (s : ExecutionStore) (c' : BrokerCommand) (s' : ExecutionStore)
    → claim_submission c i t s ≡ (ok c', s')
    → Effect s s'
claim_submission-Effect c i t s c' s' h =
    let g = claim_submission-Granted c i t s c' s' h in
    let shape = with_attempt-shape t g.row.command g.attempted in
    let submits = check_claim-submits g.row.command g.binding t g.checked in
    let before = set_binding g.row.command.command_id (with_claim t.attempted_at) s in
    moved g.row c' (record {
      found = g.found;
      keeps = shape.2;
      step = inr shape.1;
      before = before;
      before_commands = refl;
      before_events = refl;
      advanced = g.advanced;
      kept =
          BindingsKept-through g.row s s before s' refl
            (set_binding-kept g.row (with_claim t.attempted_at) s (λ b. refl) (λ b e. refl)
              (λ b. inr submits))
            g.advanced.bindings;
    })

insert_approval-keeps :
    (a : Approval) (s : ExecutionStore)
    → ((insert_approval a s).1.broker_commands ≡ s.broker_commands)
      × ((insert_approval a s).1.command_events ≡ s.command_events)
      × ((insert_approval a s).1.command_authorizations ≡ s.command_authorizations)
unfolding insert_approval
insert_approval-keeps a s = ground arith

pub approve_command-Effect :
    (c : BrokerCommand) (a : Approval) (now : Instant)
    → (s : ExecutionStore) (c' : BrokerCommand) (s' : ExecutionStore)
    → approve_command c a now s ≡ (ok c', s')
    → Effect s s'
approve_command-Effect c a now s c' s' h =
    let g = approve_command-Approves c a now s c' s' h in
    let shape = transition-shape _ _ g.row.command g.transitioned in
    let s1 = (insert_approval a s).1 in
    let before = set_binding g.row.command.command_id (with_approval a.approval_id) s1 in
    let same = insert_approval-keeps a s in
    moved g.row c' (record {
      found = g.found;
      keeps = shape.3;
      step = inl (transition-step _ _ g.row.command c' g.transitioned);
      before = before;
      before_commands = same.0;
      before_events = same.1;
      advanced = g.advanced;
      kept =
          BindingsKept-through g.row s s1 before s' same.2
            (set_binding-kept g.row (with_approval a.approval_id) s1 (λ b. refl) (λ b e. e)
              (λ b. inl (λ e. e)))
            g.advanced.bindings;
    })

pub mark_consumed-keeps :
    (id : Uuid) (at : Instant) (s : ExecutionStore)
    → ((mark_consumed id at s).1.broker_commands ≡ s.broker_commands)
      × ((mark_consumed id at s).1.command_events ≡ s.command_events)
      × ((mark_consumed id at s).1.command_authorizations ≡ s.command_authorizations)
unfolding mark_consumed
mark_consumed-keeps id at s = ground arith

pub authorize_submission-Effect :
    (c : BrokerCommand) (i : OrderIntent) (d : RiskDecision) (a : Approval)
    → (moment deadline : Instant) (s : ExecutionStore) (c' : BrokerCommand) (s' : ExecutionStore)
    → authorize_submission c i d a moment deadline s ≡ (ok c', s')
    → Effect s s'
authorize_submission-Effect c i d a moment deadline s c' s' h =
    let g = authorize_submission-Authorizes c i d a moment deadline s c' s' h in
    let shape = transition-shape _ _ g.row.command g.opened.transitioned in
    let s1 = (mark_consumed a.approval_id moment s).1 in
    let before = set_binding g.row.command.command_id (with_window moment deadline) s1 in
    let same = mark_consumed-keeps a.approval_id moment s in
    moved g.row c' (record {
      found = g.found;
      keeps = shape.3;
      step = inl (transition-step _ _ g.row.command c' g.opened.transitioned);
      before = before;
      before_commands = same.0;
      before_events = same.1;
      advanced = g.opened.advanced;
      kept =
          BindingsKept-through g.row s s1 before s' same.2
            (set_binding-kept g.row (with_window moment deadline) s1 (λ b. refl) (λ b e. e)
              (λ b. inl (λ e. e)))
            g.opened.advanced.bindings;
    })

pub transition_command-Effect :
    (id : Uuid) (target : CommandState) (details : List (String × LimitValue)) (ids : BrokerIds)
    → (s : ExecutionStore) (c' : BrokerCommand) (s' : ExecutionStore)
    → transition_command id target details ids s ≡ (ok c', s')
    → Effect s s'
transition_command-Effect id target details ids s c' s' h =
    let (row, found, named, moves, advanced) =
      transition_command-shape id target details ids s c' s' h in
    moved row c' (record {
      found = subst (λ k. find_command s k ≡ some row) (sym named) found;
      keeps = (transition-shape target ids row.command moves).3;
      step = inl (transition-step target ids row.command c' moves);
      before = s;
      before_commands = refl;
      before_events = refl;
      advanced = advanced;
      kept = BindingsKept-through row s s s s' refl (BindingsKept-refl row s) advanced.bindings;
    })

pub insert_command-Inserted :
    (c : BrokerCommand) (s : ExecutionStore)
    → (insert_command c s).0 ≡ ok tt
    → Inserted c s (insert_command c s).1
      × ((insert_command c s).1.command_authorizations ≡ s.command_authorizations)
unfolding insert_command
insert_command-Inserted c s h = (
  record {
    fresh = ground arith;
    event = record {
      command_id = c.command_id;
      revision = 0;
      previous_state = none;
      new_state = c.state;
      details = [];
    };
    commands = ground arith;
    events = ground arith;
    event_command = refl;
    event_revision = refl;
    event_previous = refl;
    event_state = refl;
  },
  ground arith,
)

Inserted-through :
    (c : BrokerCommand) (s r s' : ExecutionStore)
    → r.broker_commands ≡ s.broker_commands
    → r.command_events ≡ s.command_events
    → Inserted c r s'
    → Inserted c s s'
Inserted-through c s r s' p q i = record {
  fresh = rw p at i.fresh;
  commands = i.commands ∙ ap (λ rows. record { command = c; revision = 0 } ∷ rows) p;
  event = i.event;
  events = i.events ∙ ap (λ es. i.event ∷ es) q;
  event_command = i.event_command;
  event_revision = i.event_revision;
  event_previous = i.event_previous;
  event_state = i.event_state;
}

insert_decision-keeps :
    (d : RiskDecision) (s : ExecutionStore)
    → ((insert_decision d s).1.broker_commands ≡ s.broker_commands)
      × ((insert_decision d s).1.command_events ≡ s.command_events)
      × ((insert_decision d s).1.command_authorizations ≡ s.command_authorizations)
unfolding insert_decision
insert_decision-keeps d s = ground arith

insert_binding-Bound :
    (c : BrokerCommand) (d : Uuid) (s : ExecutionStore)
    → (insert_binding c.command_id d s).0 ≡ ok tt
    → Bound c s (insert_binding c.command_id d s).1
unfolding insert_binding
insert_binding-Bound c d s h = record {
  fresh = ground arith;
  binding = record {
    command_id = c.command_id;
    risk_decision_id = d;
    approval_id = none;
    authorized_at = none;
    valid_until = none;
    submission_claimed_at = none;
  };
  bindings = ground arith;
  binding_command = refl;
  unclaimed = refl;
  commands = ground arith;
  events = ground arith;
}

pub save_risk_bound_command-Effect :
    (c : BrokerCommand) (d : RiskDecision)
    → (s : ExecutionStore) (c' : BrokerCommand) (s' : ExecutionStore)
    → save_risk_bound_command c d s ≡ (ok c', s')
    → Effect s s'
save_risk_bound_command-Effect c d s c' s' h =
    let g = save_risk_bound_command-Opens c d s c' s' h in
    let r = (insert_decision d s).1 in
    let same = insert_decision-keeps d s in
    let s1 = (insert_command c r).1 in
    let (new, unbound) = insert_command-Inserted c r g.inserted in
    let s2 = (insert_binding c.command_id d.decision_id s1).1 in
    opened c g.row c' s1 s2 g.checked (Inserted-through c s r s1 same.0 same.1 new)
      (unbound ∙ same.2) (insert_binding-Bound c d.decision_id s1 g.bound)
      (record {
        found = g.found;
        keeps = (transition-shape _ _ g.row.command g.transitioned).3;
        step = inl (transition-step _ _ g.row.command c' g.transitioned);
        before = s2;
        before_commands = refl;
        before_events = refl;
        advanced = g.advanced;
        kept =
            BindingsKept-through g.row s2 s2 s2 s' refl (BindingsKept-refl g.row s2)
              g.advanced.bindings;
      })
