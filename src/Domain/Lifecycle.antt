-- ===== src/Domain/Lifecycle.antt =====
-- execution/domain.py: which histories of states `ALLOWED_TRANSITIONS` admits.
use investing_agents.Prelude.{
  ℕ, suc, ◌+◌, ◌≤◌, ◌≡◌, refl, Bool, true, false, ◌&&◌, List, [], ◌∷◌, arith, if◌then◌else◌,
}
use investing_agents.Domain.Types.{
  CommandState, proposed, risk_rejected, awaiting_approval, approved, submission_pending,
  acknowledged, partially_filled, filled, cancel_pending, cancelled, unknown, reconciling,
  reconciled, state_in, same_state, allowed_transitions,
}

-- Every step of the history is allowed from the state before it.
unfoldable pub is_history : CommandState → List CommandState → Bool
is_history s [] = true
is_history s (t ∷ rest) = state_in t (allowed_transitions s) && is_history t rest

unfoldable pub last_state : CommandState → List CommandState → CommandState
last_state s [] = s
last_state s (t ∷ rest) = last_state t rest

-- The states that only an answer of the broker, or its absence, can lead to.
unfoldable pub is_broker_side : CommandState → Bool
is_broker_side acknowledged = true
is_broker_side partially_filled = true
is_broker_side filled = true
is_broker_side CommandState.rejected = true
is_broker_side cancel_pending = true
is_broker_side cancelled = true
is_broker_side unknown = true
is_broker_side reconciling = true
is_broker_side _ = false

-- No broker state is reached from here but through `approved`.
before_approval : CommandState → Bool
before_approval proposed = true
before_approval awaiting_approval = true
before_approval risk_rejected = true
before_approval reconciled = true
before_approval _ = false

before_send : CommandState → Bool
before_send approved = true
before_send s = before_approval s

approval_step :
    (s t : CommandState)
    → before_approval s ≡ true
    → state_in t (allowed_transitions s) ≡ true
    → (if same_state approved t then true else before_approval t) ≡ true
unfolding before_approval allowed_transitions
approval_step s t p q = ground arith

history-has_approval :
    (s : CommandState) (xs : List CommandState)
    → before_approval s ≡ true
    → is_history s xs ≡ true
    → is_broker_side (last_state s xs) ≡ true
    → state_in approved xs ≡ true
unfolding is_history last_state
history-has_approval s [] p h b = unfold before_approval is_broker_side in ground arith
history-has_approval s (t ∷ xs) p h b =
    ground (arith, approval_step s t p, history-has_approval t xs)

send_step :
    (s t : CommandState)
    → before_send s ≡ true
    → state_in t (allowed_transitions s) ≡ true
    → (if same_state submission_pending t then true else before_send t) ≡ true
unfolding before_send before_approval allowed_transitions
send_step s t p q = ground arith

history-has_send :
    (s : CommandState) (xs : List CommandState)
    → before_send s ≡ true
    → is_history s xs ≡ true
    → is_broker_side (last_state s xs) ≡ true
    → state_in submission_pending xs ≡ true
unfolding is_history last_state
history-has_send s [] p h b = unfold before_send before_approval is_broker_side in ground arith
history-has_send s (t ∷ xs) p h b = ground (arith, send_step s t p, history-has_send t xs)

-- A command that begins as proposed reaches no state on the broker's side unless it was approved
-- and was pending submission on the way.
pub broker_side_was_approved_and_sent :
    (xs : List CommandState)
    → is_history proposed xs ≡ true
    → is_broker_side (last_state proposed xs) ≡ true
    → (state_in approved xs ≡ true) × (state_in submission_pending xs ≡ true)
broker_side_was_approved_and_sent xs h b = (
  history-has_approval proposed xs (unfold before_approval in refl) h b,
  history-has_send proposed xs (unfold before_send before_approval in refl) h b,
)

-- How often a history passes through `x`.
unfoldable pub visits : CommandState → List CommandState → ℕ
visits x [] = 0
visits x (t ∷ rest) = let later = visits x rest in if same_state x t then suc later else later

-- How often `submission_pending` can still come.
sends_left : CommandState → ℕ
sends_left proposed = 1
sends_left awaiting_approval = 1
sends_left approved = 1
sends_left _ = 0

sends_left_step :
    (s t : CommandState)
    → state_in t (allowed_transitions s) ≡ true
    → (if same_state submission_pending t then 1 else 0) + sends_left t ≤ sends_left s
unfolding sends_left allowed_transitions
sends_left_step s t h = ground arith

history-visits :
    (s : CommandState) (xs : List CommandState)
    → is_history s xs ≡ true
    → visits submission_pending xs ≤ sends_left s
unfolding is_history visits
history-visits s [] h = omega arith
history-visits s (t ∷ xs) h = ground (arith, sends_left_step s t, history-visits t xs)

-- Whatever a command goes through after it was proposed, it is pending submission at most once.
pub pending_at_most_once :
    (xs : List CommandState) → is_history proposed xs ≡ true → visits submission_pending xs ≤ 1
pending_at_most_once xs h = unfold sends_left in history-visits proposed xs h

-- A way to the final state from each state.
unfoldable pub settle : CommandState → List CommandState
settle proposed = risk_rejected ∷ reconciled ∷ []
settle risk_rejected = reconciled ∷ []
settle awaiting_approval = risk_rejected ∷ reconciled ∷ []
settle approved = submission_pending ∷ unknown ∷ reconciling ∷ reconciled ∷ []
settle submission_pending = unknown ∷ reconciling ∷ reconciled ∷ []
settle acknowledged = unknown ∷ reconciling ∷ reconciled ∷ []
settle partially_filled = reconciled ∷ []
settle filled = reconciled ∷ []
settle CommandState.rejected = reconciled ∷ []
settle cancel_pending = unknown ∷ reconciling ∷ reconciled ∷ []
settle cancelled = reconciled ∷ []
settle unknown = reconciling ∷ reconciled ∷ []
settle reconciling = reconciled ∷ []
settle reconciled = []

-- From every state there is an allowed history that ends as reconciled, and from reconciled there
-- is none but the empty one.
pub settles_and_stays :
    (s : CommandState) (t : CommandState)
    → (is_history s (settle s) ≡ true)
      × (last_state s (settle s) ≡ reconciled)
      × (state_in t (allowed_transitions reconciled) ≡ false)
unfolding is_history last_state settle allowed_transitions
settles_and_stays proposed t = (refl, refl, refl)
settles_and_stays _ t = (refl, refl, refl)
