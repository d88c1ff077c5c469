-- ===== src/Domain/Evidence.antt =====
-- execution/domain.py: OrderIntent, RiskDecision and Approval with what `__post_init__` checks, and
-- their field-by-field equality. Canonical JSON and SHA-256 stand outside: the digest of a payload
-- is a parameter where the code recomputes it.
use investing_agents.Prelude.{
  Bool, true, false, not, ◌&&◌, String, str_eq, Option, none, some, List, [], ◌∷◌, ◌==◌, leb,
  if◌then◌else◌, is_some, is_none, all, same_list, same_option,
}
use investing_agents.Result.{Result, ok, err, domain_validation}
use investing_agents.Decimal.{Decimal, eq, is_positive}
use investing_agents.Domain.Types.{
  Uuid, Digest, Instant, Environment, OrderSide, OrderType, market, limit, SizingMethod,
  RiskOutcome, accepted, rejected, is_accepted, same_environment, same_side, same_order_type,
  sizing_index,
}

pub record OrderIntent : Type 0 where
  pub intent_id : Uuid
  pub strategy_id : String
  pub run_id : String
  pub internal_instrument_id : Uuid
  pub environment : Environment
  pub side : OrderSide
  pub order_type : OrderType
  pub sizing_method : SizingMethod
  pub sizing_value : Decimal
  pub currency : String
  pub expires_at : Instant
  pub intent_hash : Digest
  pub target_leverage : Decimal
  pub limit_price : Option Decimal
  pub schema_version : String

abbrev pub is_limit : OrderType → Bool
is_limit limit = true
is_limit market = false

-- The checks of `OrderIntent.__post_init__` in order; `hash` is `compute_hash`. The texts are
-- stripped already, so that blank is empty.
unfoldable pub validate_intent : (OrderIntent → Digest) → OrderIntent → Result OrderIntent
validate_intent hash i =
    if str_eq i.strategy_id ""
    then err (domain_validation "strategy_id must not be blank")
    else if str_eq i.run_id ""
    then err (domain_validation "run_id must not be blank")
    else if str_eq i.currency ""
    then err (domain_validation "currency must not be blank")
    else if not (is_positive i.sizing_value)
    then err (domain_validation "sizing_value must be positive")
    else if not (is_positive i.target_leverage)
    then err (domain_validation "target_leverage must be positive")
    else if is_limit i.order_type && is_none i.limit_price
    then err (domain_validation "limit orders require limit_price")
    else if not (is_limit i.order_type) && is_some i.limit_price
    then err (domain_validation "market orders must not include limit_price")
    else if not (i.intent_hash == hash i)
    then err (domain_validation "intent_hash does not match the immutable payload")
    else ok i

-- The dataclass's `==`, field by field.
unfoldable pub same_intent : OrderIntent → OrderIntent → Bool
same_intent a b =
    a.intent_id == b.intent_id
    && str_eq a.strategy_id b.strategy_id
    && str_eq a.run_id b.run_id
    && a.internal_instrument_id == b.internal_instrument_id
    && same_environment a.environment b.environment
    && same_side a.side b.side
    && same_order_type a.order_type b.order_type
    && sizing_index a.sizing_method == sizing_index b.sizing_method
    && eq a.sizing_value b.sizing_value
    && str_eq a.currency b.currency
    && a.expires_at == b.expires_at
    && a.intent_hash == b.intent_hash
    && eq a.target_leverage b.target_leverage
    && same_option eq a.limit_price b.limit_price
    && str_eq a.schema_version b.schema_version

pub record RiskCheck : Type 0 where
  pub name : String
  pub passed : Bool
  pub observed : String
  pub limit_text : String

pub record RiskDecision : Type 0 where
  pub decision_id : Uuid
  pub intent_hash : Digest
  pub account_snapshot_id : String
  pub quote_id : String
  pub quote_observed_at : Instant
  pub computed_exposures : List (String × String)
  pub checks : List RiskCheck
  pub outcome : RiskOutcome
  pub reasons : List String
  pub decided_at : Instant
  pub schema_version : String

abbrev pub check_passed : RiskCheck → Bool
check_passed c = c.passed

-- `all(check.passed for check in decision.checks)`
abbrev pub all_passed : List RiskCheck → Bool
all_passed checks = all check_passed checks

abbrev pub outcome_of : List RiskCheck → RiskOutcome
outcome_of checks = if all_passed checks then accepted else rejected

abbrev pub same_outcome : RiskOutcome → RiskOutcome → Bool
same_outcome accepted o = is_accepted o
same_outcome rejected o = not (is_accepted o)

-- `RiskDecision.__post_init__`: the outcome must be the one that the checks give.
unfoldable pub validate_decision : RiskDecision → Result RiskDecision
validate_decision d =
    if str_eq d.account_snapshot_id ""
    then err (domain_validation "account_snapshot_id must not be blank")
    else if str_eq d.quote_id ""
    then err (domain_validation "quote_id must not be blank")
    else if not (same_outcome d.outcome (outcome_of d.checks))
    then err (domain_validation "risk outcome conflicts with recorded checks")
    else ok d

abbrev pub same_pair : String × String → String × String → Bool
same_pair (a, b) (c, d) = str_eq a c && str_eq b d

abbrev pub same_bool : Bool → Bool → Bool
same_bool true b = b
same_bool false b = not b

abbrev pub same_check : RiskCheck → RiskCheck → Bool
same_check a b =
    str_eq a.name b.name
    && same_bool a.passed b.passed
    && str_eq a.observed b.observed
    && str_eq a.limit_text b.limit_text

unfoldable pub same_decision : RiskDecision → RiskDecision → Bool
same_decision a b =
    a.decision_id == b.decision_id
    && a.intent_hash == b.intent_hash
    && str_eq a.account_snapshot_id b.account_snapshot_id
    && str_eq a.quote_id b.quote_id
    && a.quote_observed_at == b.quote_observed_at
    && same_list same_pair a.computed_exposures b.computed_exposures
    && same_list same_check a.checks b.checks
    && same_outcome a.outcome b.outcome
    && same_list str_eq a.reasons b.reasons
    && a.decided_at == b.decided_at
    && str_eq a.schema_version b.schema_version

-- A value of an approval's `limits`: the text of a UUID, kept as the UUID, or other text.
pub data LimitValue : Type 0 where
  uuid_text : Uuid → LimitValue
  plain : String → LimitValue

abbrev pub same_value : LimitValue → LimitValue → Bool
same_value (uuid_text a) (uuid_text b) = a == b
same_value (uuid_text a) (plain t) = false
same_value (plain t) (uuid_text b) = false
same_value (plain a) (plain b) = str_eq a b

-- `dict(pairs).get(key)`: of equal keys the last one counts.
unfoldable pub limit_of : String → List (String × LimitValue) → Option LimitValue
limit_of key [] = none
limit_of key ((k, v) ∷ rest) =
    let later = limit_of key rest in
    if is_some later then later else if str_eq k key then some v else none

-- `limits.get(key) == value`
abbrev pub limit_is : String → LimitValue → List (String × LimitValue) → Bool
limit_is key value limits = same_option same_value (limit_of key limits) (some value)

pub record Approval : Type 0 where
  pub approval_id : Uuid
  pub intent_hash : Digest
  pub approver : String
  pub environment : Environment
  pub limits : List (String × LimitValue)
  pub issued_at : Instant
  pub expires_at : Instant
  pub schema_version : String

unfoldable pub validate_approval : Approval → Result Approval
validate_approval a =
    if str_eq a.approver ""
    then err (domain_validation "approval identity fields must not be blank")
    else if leb a.expires_at a.issued_at
    then err (domain_validation "approval expiry must be after issue time")
    else ok a

abbrev pub same_limit : String × LimitValue → String × LimitValue → Bool
same_limit (a, v) (b, w) = str_eq a b && same_value v w

unfoldable pub same_approval : Approval → Approval → Bool
same_approval a b =
    a.approval_id == b.approval_id
    && a.intent_hash == b.intent_hash
    && str_eq a.approver b.approver
    && same_environment a.environment b.environment
    && same_list same_limit a.limits b.limits
    && a.issued_at == b.issued_at
    && a.expires_at == b.expires_at
    && str_eq a.schema_version b.schema_version
