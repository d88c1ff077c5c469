-- ===== src/Risk/Account.antt =====
-- risk/pretrade.py: the evidence on account and quote. Texts are stripped and in their case already.
use investing_agents.Prelude.{
  Bool, not, ◌&&◌, ◌||◌, String, str_eq, Option, none, some, List, is_none, is_some, if◌then◌else◌,
}
use investing_agents.Result.{Result, ok, err, risk_evidence}
use investing_agents.Decimal.{Decimal, lt, is_positive, is_negative}
use investing_agents.Domain.Types.{Uuid, Instant, Environment, OrderSide}

pub record PositionEvidence : Type 0 where
  pub held_instrument : Uuid
  pub sector : String
  pub signed_market_value : Decimal

pub record PendingOrderEvidence : Type 0 where
  pub broker_order_id : String
  pub ordered_instrument : Uuid
  pub sector : String
  pub side : OrderSide
  pub remaining_notional : Decimal

unfoldable pub validate_pending : PendingOrderEvidence → Result PendingOrderEvidence
validate_pending p =
    if str_eq p.broker_order_id "" || is_negative p.remaining_notional
    then err (risk_evidence "pending order evidence is invalid")
    else ok p

-- `component_time` and `performance` are kept by whether they are there; what the evaluator finds
-- in them is an argument of it.
pub record AccountEvidence : Type 0 where
  pub snapshot_id : String
  pub environment : Environment
  pub observed_at : Option Instant
  pub currency : String
  pub equity : Decimal
  pub cash : Decimal
  pub daily_pnl : Option Decimal
  pub peak_equity : Option Decimal
  pub positions : List PositionEvidence
  pub pending_orders : List PendingOrderEvidence
  pub pending_orders_complete : Bool
  pub contract_version : String
  pub account_id : Option String
  pub has_component_time : Bool
  pub invested_amount : Option Decimal
  pub unrealised_pnl : Option Decimal
  pub estimated_order_costs : Decimal
  pub positions_complete : Bool
  pub issuer_by_instrument : List (Uuid × String)

abbrev pub is_legacy : AccountEvidence → Bool
is_legacy a = str_eq a.contract_version "legacy-fixture-v1"

abbrev pub is_versioned : AccountEvidence → Bool
is_versioned a = str_eq a.contract_version "account-risk-v2"

abbrev pub is_bad_peak : Option Decimal → Bool
is_bad_peak none = Bool.false
is_bad_peak (some peak) = not (is_positive peak)

-- `AccountEvidence.__post_init__`
unfoldable pub validate_account : AccountEvidence → Result AccountEvidence
validate_account a =
    if not (is_legacy a || is_versioned a)
    then err (risk_evidence "unsupported_account_risk_contract")
    else if is_none a.observed_at && (not (is_versioned a) || not a.has_component_time)
    then err (risk_evidence "whole_account_observation_time_required")
    else if a.has_component_time && is_some a.observed_at
    then err (risk_evidence "component_time_is_not_atomic_account_time")
    else if str_eq a.snapshot_id "" || str_eq a.currency ""
    then err (risk_evidence "account snapshot identity is incomplete")
    else if not (is_positive a.equity)
        || is_bad_peak a.peak_equity
        || is_negative a.cash
        || is_negative a.estimated_order_costs
    then err (risk_evidence "account balances are invalid")
    else if is_legacy a && (is_none a.daily_pnl || is_none a.peak_equity)
    then err (risk_evidence "legacy_fixture_performance_required")
    else ok a

pub record QuoteEvidence : Type 0 where
  pub quote_id : String
  pub quoted_instrument : Uuid
  pub observed_at : Instant
  pub bid : Decimal
  pub ask : Decimal
  pub regular_session_open : Bool

unfoldable pub validate_quote : QuoteEvidence → Result QuoteEvidence
validate_quote q =
    if str_eq q.quote_id "" || not (is_positive q.bid) || not (is_positive q.ask)
    then err (risk_evidence "quote evidence is invalid")
    else if lt q.ask q.bid
    then err (risk_evidence "quote ask is below bid")
    else ok q
