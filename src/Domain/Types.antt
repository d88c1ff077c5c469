-- ===== src/Domain/Types.antt =====
-- execution/domain.py: the enumerations and the table of allowed lifecycle transitions. A UUID and
-- a SHA-256 digest are numbers, a UTC instant is a number of microseconds.
use investing_agents.Prelude.{
  ℕ, Bool, true, false, List, [], ◌∷◌, ◌==◌, String, Option, none, some, str_eq, if◌then◌else◌, any,
  ◌≡◌, arith,
}

abbrev pub Uuid : Type 0
Uuid = ℕ

abbrev pub Digest : Type 0
Digest = ℕ

abbrev pub Instant : Type 0
Instant = ℕ

pub data Environment : Type 0 where
  offline demo real : Environment

pub data OrderSide : Type 0 where
  buy sell : OrderSide

pub data OrderType : Type 0 where
  market limit : OrderType

pub data SizingMethod : Type 0 where
  fixed_notional percent_equity units : SizingMethod

pub data RiskOutcome : Type 0 where
  accepted rejected : RiskOutcome

pub data BrokerOperation : Type 0 where
  submit_order close_position partial_close cancel_order reconcile : BrokerOperation

pub data CommandState : Type 0 where
  proposed risk_rejected awaiting_approval approved submission_pending acknowledged : CommandState
  partially_filled filled rejected cancel_pending cancelled unknown : CommandState
  reconciling reconciled : CommandState

abbrev pub environment_index : Environment → ℕ
environment_index offline = 0
environment_index demo = 1
environment_index real = 2

abbrev pub same_environment : Environment → Environment → Bool
same_environment a b = environment_index a == environment_index b

pub same_environment-eq : (a b : Environment) → same_environment a b ≡ true → a ≡ b
same_environment-eq a b h = ground arith

pub same_environment_refl : (x : Environment) → same_environment x x ≡ true
same_environment_refl x = ground arith

abbrev pub same_side : OrderSide → OrderSide → Bool
same_side buy buy = true
same_side sell sell = true
same_side _ _ = false

abbrev pub same_order_type : OrderType → OrderType → Bool
same_order_type market market = true
same_order_type limit limit = true
same_order_type _ _ = false

abbrev pub sizing_index : SizingMethod → ℕ
sizing_index fixed_notional = 0
sizing_index percent_equity = 1
sizing_index units = 2

abbrev pub is_accepted : RiskOutcome → Bool
is_accepted accepted = true
is_accepted RiskOutcome.rejected = false

abbrev pub is_submit_order : BrokerOperation → Bool
is_submit_order submit_order = true
is_submit_order _ = false

abbrev pub operation_index : BrokerOperation → ℕ
operation_index submit_order = 0
operation_index close_position = 1
operation_index partial_close = 2
operation_index cancel_order = 3
operation_index reconcile = 4

abbrev pub state_index : CommandState → ℕ
state_index proposed = 0
state_index risk_rejected = 1
state_index awaiting_approval = 2
state_index approved = 3
state_index submission_pending = 4
state_index acknowledged = 5
state_index partially_filled = 6
state_index filled = 7
state_index CommandState.rejected = 8
state_index cancel_pending = 9
state_index cancelled = 10
state_index unknown = 11
state_index reconciling = 12
state_index reconciled = 13

-- `str(state)`
abbrev pub state_text : CommandState → String
state_text proposed = "proposed"
state_text risk_rejected = "risk_rejected"
state_text awaiting_approval = "awaiting_approval"
state_text approved = "approved"
state_text submission_pending = "submission_pending"
state_text acknowledged = "acknowledged"
state_text partially_filled = "partially_filled"
state_text filled = "filled"
state_text CommandState.rejected = "rejected"
state_text cancel_pending = "cancel_pending"
state_text cancelled = "cancelled"
state_text unknown = "unknown"
state_text reconciling = "reconciling"
state_text reconciled = "reconciled"

abbrev pub same_state : CommandState → CommandState → Bool
same_state a b = state_index a == state_index b

-- `target in states`
abbrev pub state_in : CommandState → List CommandState → Bool
state_in s states = any (same_state s) states

-- `ALLOWED_TRANSITIONS`
unfoldable pub allowed_transitions : CommandState → List CommandState
allowed_transitions proposed = risk_rejected ∷ awaiting_approval ∷ []
allowed_transitions risk_rejected = reconciled ∷ []
allowed_transitions awaiting_approval = approved ∷ risk_rejected ∷ []
allowed_transitions approved = submission_pending ∷ []
allowed_transitions submission_pending = acknowledged ∷ CommandState.rejected ∷ unknown ∷ []
allowed_transitions acknowledged =
    partially_filled ∷ filled ∷ CommandState.rejected ∷ cancel_pending ∷ unknown ∷ []
allowed_transitions partially_filled =
    partially_filled ∷ filled ∷ cancel_pending ∷ unknown ∷ reconciled ∷ []
allowed_transitions filled = reconciled ∷ []
allowed_transitions CommandState.rejected = reconciled ∷ []
allowed_transitions cancel_pending = cancelled ∷ partially_filled ∷ filled ∷ unknown ∷ []
allowed_transitions cancelled = reconciled ∷ []
allowed_transitions unknown = reconciling ∷ []
allowed_transitions reconciling =
    reconciled ∷ acknowledged ∷ partially_filled ∷ filled ∷ CommandState.rejected ∷ cancelled
    ∷ unknown ∷ []
allowed_transitions reconciled = []

-- `new or old` on optional text: an absent or empty value gives way.
unfoldable pub or_else : Option String → Option String → Option String
or_else none old = old
or_else (some text) old = if str_eq text "" then old else some text
