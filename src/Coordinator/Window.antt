-- ===== src/Coordinator/Window.antt =====
-- execution/coordinator.py: the gate and the window of a command that becomes pending.
use investing_agents.Prelude.{
  ◌+◌, ◌≤◌, ◌<◌, ◌≡◌, refl, Bool, some, arith, inl, inr, ap, sym, ◌∙◌, subst,
}
use investing_agents.Result.{ok, Result-cases}
use investing_agents.Table.{find, find-update}
use investing_agents.Domain.Types.{Digest, Instant, submission_pending}
use investing_agents.Domain.Evidence.{OrderIntent, RiskDecision, Approval}
use investing_agents.Domain.Command.{BrokerCommand, no_ids}
use investing_agents.Domain.Attempts.{transition-shape}
use investing_agents.Registry.{InstrumentTables}
use investing_agents.Risk.Limits.{RiskLimits, seconds}
use investing_agents.Risk.KillSwitch.{KillSwitchStatus}
use investing_agents.Risk.Gate.{GovernanceWritePolicy, authorize}
use investing_agents.Risk.GateLaws.{MayAuthorize, authorize-MayAuthorize}
use investing_agents.Store.Tables.{ExecutionStore, Binding, binding_key, find_binding}
use investing_agents.Store.Intents.{mark_consumed}
use investing_agents.Store.Submission.{authorize_submission, with_window}
use investing_agents.Store.Shapes.Authorize.{authorize_submission-Authorizes, Authorizes}
use investing_agents.Store.Effect.Operations.{mark_consumed-keeps}
use investing_agents.Store.Trace.Claims.{bound_risk-binding}
use investing_agents.Coordinator.Config.{ExecutionConfig, valid_until, mark_submission_pending}

valid_until-bounds :
    (l : RiskLimits) (i : OrderIntent) (d : RiskDecision) (a : Approval)
    → (valid_until l i d a ≤ i.expires_at)
      × (valid_until l i d a ≤ a.expires_at)
      × (valid_until l i d a ≤ d.decided_at + seconds l.account_max_age_seconds)
      × (valid_until l i d a ≤ d.quote_observed_at + seconds l.quote_max_age_seconds)
valid_until-bounds l i d a = ground arith

-- After an authorization the window is stored with the command's authorization.
window-stored :
    (i : OrderIntent) (d : RiskDecision) (a : Approval) (moment deadline : Instant)
    → (c' : BrokerCommand) (s s' : ExecutionStore) → Authorizes i d a moment deadline c' s s'
    → (b : Binding) × (find_binding s' c'.command_id ≡ some (with_window moment deadline b))
window-stored i d a moment deadline c' s s' g =
    let id = g.row.command.command_id in
    let shape = transition-shape submission_pending no_ids g.row.command g.opened.transitioned in
    let there = bound_risk-binding g.row.command s g.binding g.decision g.bound in
    let rows = (mark_consumed-keeps a.approval_id moment s).2 in
    let stored =
      find-update binding_key id id (with_window moment deadline)
        (mark_consumed a.approval_id moment s).1.command_authorizations (λ r e. e) in
    (
      g.binding,
      subst (λ k. find_binding s' k ≡ some (with_window moment deadline g.binding)) (sym shape.3.0)
          (ap (find binding_key id) g.opened.advanced.bindings
            ∙ stored
            ∙ ground (arith, ap (find binding_key id) rows, there)),
    )

-- If `mark_submission_pending` returns a command, that command is pending and the conditions of the
-- gate held at the time of the call; the window that is then stored with the command's
-- authorization begins at that time, is not empty, and ends no later than the intent and the
-- approval expire and the decision and its quote get too old.
pub pending_is_authorized :
    (hash : OrderIntent → Digest) (config : ExecutionConfig) (registry : InstrumentTables)
    → (l : RiskLimits) (c : BrokerCommand) (i : OrderIntent) (d : RiskDecision) (a : Approval)
    → (k : KillSwitchStatus) (session_open : Bool) (g : GovernanceWritePolicy) (now : Instant)
    → (s : ExecutionStore) (c' : BrokerCommand)
    → (mark_submission_pending hash config registry l c i d a k session_open g now s).0 ≡ ok c'
    → let s' = (mark_submission_pending hash config registry l c i d a k session_open g now s).1 in
      MayAuthorize hash l i d a k session_open config.broker_writes_enabled g now
      × (c'.state ≡ submission_pending)
      × (b : Binding) × (until : Instant) × (find_binding s' c'.command_id ≡ some b)
      × (b.authorized_at ≡ some now)
      × (b.valid_until ≡ some until)
      × (now < until)
      × (until ≤ i.expires_at)
      × (until ≤ a.expires_at)
      × (until ≤ d.decided_at + seconds l.account_max_age_seconds)
      × (until ≤ d.quote_observed_at + seconds l.quote_max_age_seconds)
unfolding mark_submission_pending
pending_is_authorized hash config registry l c i d a k session_open g now s c' h =
    let w = config.broker_writes_enabled in
    let until = valid_until l i d a in
    elim (Result-cases (authorize hash l i d a k session_open w g now)) [
      | inr (e, p) ↦ absurd (ground arith)
      | inl (x, p) ↦
          let s' = (authorize_submission c i d a now until s).1 in
          let authorized : (authorize_submission c i d a now until s).0 ≡ ok c' = ground arith in
          let same : (mark_submission_pending hash config registry l c i d a k session_open g now
                s).1
              ≡ s' =
            ground arith in
          let whole =
            authorize_submission-Authorizes c i d a now until s c' s'
              (ground (arith, authorized)) in
          let (b, stored) = window-stored i d a now until c' s s' whole in
          let (one, two, three, four) = valid_until-bounds l i d a in
          (
            authorize-MayAuthorize hash l i d a k session_open w g now x p,
            (transition-shape submission_pending no_ids whole.row.command
                whole.opened.transitioned).1,
            with_window now until b,
            until,
            ap (λ t. find_binding t c'.command_id) same ∙ stored,
            refl,
            refl,
            ground (arith, whole.open_window),
            one,
            two,
            three,
            four,
          )
    ]
