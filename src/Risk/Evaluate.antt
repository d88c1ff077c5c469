-- ===== src/Risk/Evaluate.antt =====
-- risk/pretrade.py: the pre-trade evaluator.
pub mod Admissible
pub mod Merged
pub mod Losses
pub mod Accepted
use investing_agents.Prelude.{
  ℕ, Bool, true, false, not, ◌&&◌, ◌||◌, ◌==◌, String, str_eq, Option, none, some, List, [], ◌∷◌,
  ◌++◌, map, any, all, keep, ltb, is_some, is_empty, if◌then◌else◌,
}
use investing_agents.Result.{Result, ok, err, risk_evidence, type_error}
use investing_agents.Decimal.{Decimal, zero_decimal, add, sub, absolute, le, eq}
use investing_agents.Domain.Types.{
  Uuid, Instant, Environment, same_environment, OrderSide, buy, same_side, RiskOutcome, accepted,
  rejected,
}
use investing_agents.Domain.Evidence.{OrderIntent, RiskCheck, RiskDecision, check_passed}
use investing_agents.Registry.{Instrument}
use investing_agents.Risk.Limits.{RiskLimits, is_fresh}
use investing_agents.Risk.Account.{
  PositionEvidence, PendingOrderEvidence, AccountEvidence, QuoteEvidence, is_versioned,
}
use investing_agents.Risk.Projection.{
  Basis, Ratio, finite, infinity, fraction, at_most, below, at_least, absolute_ratio, or_zero,
  loss_or_zero, merge_pending, order_notional, projected_issuer, projected_sector, projected_gross,
  projected_net, projected_cash,
}
use investing_agents.Risk.Versioned.{Findings, Rendering, check_named, versioned_checks}

-- `drawdown` and `daily_loss`; the fixture contract computes them and raises without its amounts.
unfoldable pub losses :
    Rendering → Findings → AccountEvidence → Result (Option Ratio × Option Ratio)
losses r f a = if is_versioned a then ok (f.found_loss, f.found_drawdown) else elim a.daily_pnl [
  | none ↦ err type_error
  | some pnl ↦ elim a.peak_equity [
    | none ↦ err type_error
    | some peak ↦ ok (
      some (loss_or_zero (fraction r.divide pnl a.equity)),
      some (or_zero (fraction r.divide (sub peak a.equity) peak)),
    )
  ]
]

abbrev pub below_stop : Option Ratio → Decimal → Bool
below_stop none stop = false
below_stop (some x) stop = below x stop

unfoldable pub account_fresh : Findings → AccountEvidence → Instant → ℕ → Bool
account_fresh f a now limit =
    if a.has_component_time
    then is_empty f.time_reasons
    else elim a.observed_at [ none ↦ false | some at ↦ is_fresh at now limit ]

-- The checks that every contract has, up to the versioned ones.
unfoldable pub common_checks :
    Rendering
    → RiskLimits
    → Findings
    → OrderIntent
    → Instrument
    → AccountEvidence
    → QuoteEvidence
    → Instant
    → Bool
    → List RiskCheck
common_checks r l f i k a q now contradictory =
    check_named r "environment"
      (same_environment i.environment a.environment && same_environment a.environment l.environment)
    ∷ check_named r "asset_type" (any (str_eq k.asset_type) l.allowed_asset_types)
    ∷ check_named r "long_only" (same_side i.side buy)
    ∷ check_named r "leverage" (eq i.target_leverage l.required_leverage)
    ∷ check_named r "currency" (str_eq i.currency a.currency && str_eq a.currency k.currency)
    ∷ check_named r "intent_expiry" (ltb now i.expires_at)
    ∷ check_named r "quote_freshness" (is_fresh q.observed_at now l.quote_max_age_seconds)
    ∷ check_named r "account_freshness" (account_fresh f a now l.account_max_age_seconds)
    ∷ check_named r "regular_hours" (not l.regular_hours_only || q.regular_session_open)
    ∷ check_named r "pending_orders_complete" a.pending_orders_complete
    ∷ check_named r "pending_orders_consistent" (not contradictory)
    ∷ []

-- The checks of the projected amounts against the limits.
unfoldable pub exposure_checks :
    Rendering → RiskLimits → Basis → Instrument → Option Ratio → Option Ratio → List RiskCheck
exposure_checks r l b k loss drawdown =
    let share = λ (d : Decimal). fraction r.divide d b.account.equity in
    check_named r "order_size" (at_most (share b.notional) l.max_order_equity_fraction)
    ∷ check_named r "issuer_exposure"
        (at_most (absolute_ratio (share (projected_issuer b k))) l.max_issuer_fraction)
    ∷ check_named r "sector_exposure" (at_most (share (projected_sector b k)) l.max_sector_fraction)
    ∷ check_named r "gross_exposure" (at_most (share (projected_gross b)) l.max_gross_fraction)
    ∷ check_named r "net_exposure"
        (at_most (absolute_ratio (share (projected_net b))) l.max_net_fraction)
    ∷ check_named r "cash_buffer" (at_least (share (projected_cash b)) l.min_cash_buffer_fraction)
    ∷ check_named r "daily_loss_stop" (below_stop loss l.daily_loss_stop_fraction)
    ∷ check_named r "drawdown_stop" (below_stop drawdown l.drawdown_stop_fraction)
    ∷ []

abbrev pub basis : OrderIntent → AccountEvidence → QuoteEvidence → Basis
basis i a q = record {
  account = a;
  pending = (merge_pending a.pending_orders [] false).0;
  notional = order_notional i a q;
  order_side = i.side;
}

-- The checks in the order in which they are added.
unfoldable pub all_checks :
    Rendering
    → RiskLimits
    → Findings
    → OrderIntent
    → Instrument
    → AccountEvidence
    → QuoteEvidence
    → Instant
    → Option Ratio
    → Option Ratio
    → List RiskCheck
all_checks r l f i k a q now loss drawdown =
    common_checks r l f i k a q now (merge_pending a.pending_orders [] false).1
    ++ (versioned_checks r l f (basis i a q) k ++ exposure_checks r l (basis i a q) k loss drawdown)

-- `tuple(check.name for check in checks if not check.passed)`
abbrev pub failed_names : List RiskCheck → List String
failed_names checks =
    map (λ (c : RiskCheck). c.name) (keep (λ (c : RiskCheck). not c.passed) checks)

abbrev pub decision_of :
    Rendering
    → OrderIntent
    → AccountEvidence
    → QuoteEvidence
    → Instant
    → Uuid
    → List RiskCheck
    → RiskDecision
decision_of r i a q now id checks = record {
  decision_id = id;
  intent_hash = i.intent_hash;
  account_snapshot_id = a.snapshot_id;
  quote_id = q.quote_id;
  quote_observed_at = q.observed_at;
  computed_exposures =
      map (λ name. (name, r.exposure_text name))
        ("order_notional" ∷ "projected_issuer" ∷ "projected_sector" ∷ "projected_gross"
          ∷ "projected_net" ∷ "projected_cash" ∷ "daily_loss_fraction" ∷ "drawdown_fraction" ∷ []);
  checks = checks;
  outcome = if is_empty (failed_names checks) then accepted else rejected;
  reasons = failed_names checks;
  decided_at = now;
  schema_version = "1.0";
}

-- `_evaluate`, up to the construction of the decision, which `validate_decision` checks.
unfoldable pub evaluate :
    Rendering
    → RiskLimits
    → Findings
    → OrderIntent
    → Instrument
    → AccountEvidence
    → QuoteEvidence
    → Instant
    → Uuid
    → Result RiskDecision
evaluate r l f i k a q now id =
    if not (q.quoted_instrument == k.internal_instrument_id)
    then err (risk_evidence "quote instrument identity mismatch")
    else if not (i.internal_instrument_id == k.internal_instrument_id)
    then err (risk_evidence "intent instrument identity mismatch")
    else elim (losses r f a) [
      | err e ↦ err e
      | ok (loss, drawdown) ↦
          ok (decision_of r i a q now id (all_checks r l f i k a q now loss drawdown))
    ]
