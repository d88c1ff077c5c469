-- ===== src/Strategy/Experiment.antt =====
-- strategy/domain.py: experiments, their metrics, and the decision on a promotion. A digest of JSON, and
-- the quotient of two decimals, are parameters.
pub mod Promotion
use investing_agents.Prelude.{
  ℕ, Bool, true, false, not, ◌&&◌, ◌||◌, ◌==◌, String, str_eq, List, [], ◌∷◌, map, keep, ltb,
  is_empty, if◌then◌else◌,
}
use investing_agents.Result.{Result, ok, err, strategy_validation}
use investing_agents.Int.{ℤ, pos, ltb_ℤ}
use investing_agents.Decimal.{Decimal, whole, add, mul, absolute, le, lt, is_negative}
use investing_agents.Domain.Types.{Uuid, Digest, Instant}
use investing_agents.Strategy.Splits.{SplitWindow}

pub record CostModel : Type 0 where
  pub spread_bps : Decimal
  pub slippage_bps : Decimal
  pub fee_bps : Decimal
  pub tax_bps : Decimal
  pub stress_multiplier : Decimal

-- `CostModel.__post_init__`
unfoldable pub validate_costs : CostModel → Result CostModel
validate_costs c =
    if is_negative c.spread_bps
      || is_negative c.slippage_bps
      || is_negative c.fee_bps
      || is_negative c.tax_bps
    then err (strategy_validation "cost assumptions must not be negative")
    else if lt c.stress_multiplier (whole 1)
    then err (strategy_validation "cost stress multiplier must be at least 1")
    else ok c

-- `round_trip_cost`; `divide` is the division of decimals.
unfoldable pub round_trip_cost :
    (Decimal → Decimal → Decimal) → CostModel → Decimal → Result Decimal
round_trip_cost divide c amount =
    if is_negative amount
    then err (strategy_validation "notional must not be negative")
    else let bps =
        mul
          (add (add (add c.spread_bps (mul c.slippage_bps (whole 2))) (mul c.fee_bps (whole 2)))
            c.tax_bps)
          c.stress_multiplier in
      ok (divide (mul amount bps) (whole 10000))

pub record ExperimentSpec : Type 0 where
  pub experiment_id : Uuid
  pub experiment_key : Digest
  pub strategy_version : String
  pub data_snapshot_id : String
  pub point_in_time_universe_checksum : String
  pub code_revision : String
  pub environment : String
  pub parameters : List (String × String)
  pub splits : List SplitWindow
  pub cost_model : CostModel
  pub tuned_on_partition : String
  pub created_at : Instant
  pub schema_version : String

-- `ExperimentSpec.__post_init__` on stripped texts; `key` is the hash of `key_payload`.
unfoldable pub validate_spec : (ExperimentSpec → Digest) → ExperimentSpec → Result ExperimentSpec
validate_spec key s =
    if str_eq s.strategy_version ""
      || str_eq s.data_snapshot_id ""
      || str_eq s.point_in_time_universe_checksum ""
      || str_eq s.code_revision ""
      || str_eq s.environment ""
    then err (strategy_validation "must not be blank")
    else if not (str_eq s.tuned_on_partition "train" || str_eq s.tuned_on_partition "validation")
    then err (strategy_validation "parameters may not be tuned on test data")
    else if is_empty s.splits
    then err (strategy_validation "at least one chronological split is required")
    else if not (s.experiment_key == key s)
    then err (strategy_validation "experiment_key does not match immutable evidence")
    else ok s

pub record ExperimentMetrics : Type 0 where
  pub validation_excess_return_pct : Decimal
  pub test_excess_return_pct : Decimal
  pub test_max_drawdown_pct : Decimal
  pub stressed_test_excess_return_pct : Decimal
  pub benchmark_return_pct : Decimal
  pub walk_forward_passed_folds : ℤ
  pub walk_forward_total_folds : ℤ
  pub deterministic_reproduction : Bool
  pub point_in_time_universe_passed : Bool
  pub survivorship_checks_passed : Bool
  pub exchange_calendar_passed : Bool
  pub cost_model_passed : Bool

unfoldable pub validate_metrics : ExperimentMetrics → Result ExperimentMetrics
validate_metrics m =
    if ltb_ℤ m.walk_forward_total_folds (pos 1)
    then err (strategy_validation "walk-forward evidence must contain a fold")
    else if ltb_ℤ m.walk_forward_passed_folds (pos 0)
        || ltb_ℤ m.walk_forward_total_folds m.walk_forward_passed_folds
    then err (strategy_validation "walk-forward pass count is invalid")
    else ok m

pub record PromotionCriteria : Type 0 where
  pub minimum_validation_excess_return_pct : Decimal
  pub minimum_test_excess_return_pct : Decimal
  pub minimum_stressed_test_excess_return_pct : Decimal
  pub maximum_test_drawdown_pct : Decimal
  pub minimum_walk_forward_pass_fraction : Decimal

unfoldable pub validate_criteria : PromotionCriteria → Result PromotionCriteria
validate_criteria c =
    if is_negative c.minimum_walk_forward_pass_fraction
      || not (le c.minimum_walk_forward_pass_fraction (whole 1))
    then err (strategy_validation "walk-forward pass fraction must be within 0..1")
    else ok c

pub record PromotionDecision : Type 0 where
  pub experiment_id : Uuid
  pub eligible : Bool
  pub capability : String
  pub reasons : List String
  pub decided_at : Instant

unfoldable pub validate_promotion : PromotionDecision → Result PromotionDecision
validate_promotion d =
    if str_eq d.capability "advisory_only"
    then ok d
    else err (strategy_validation "strategy promotion can grant advisory_only only")

-- A count as a decimal.
abbrev pub decimal_of : ℤ → Decimal
decimal_of n = record { coefficient = n; places = 0 }

abbrev pub promotion_checks :
    (Decimal → Decimal → Decimal)
    → ExperimentSpec
    → ExperimentMetrics
    → PromotionCriteria
    → List (String × Bool)
promotion_checks divide s m c =
    (
      "validation_benchmark",
      le c.minimum_validation_excess_return_pct m.validation_excess_return_pct,
    )
    ∷ ("test_benchmark", le c.minimum_test_excess_return_pct m.test_excess_return_pct)
    ∷ (
      "stressed_costs",
      le c.minimum_stressed_test_excess_return_pct m.stressed_test_excess_return_pct,
    )
    ∷ (
      "test_drawdown",
      le (absolute m.test_max_drawdown_pct) (absolute c.maximum_test_drawdown_pct),
    )
    ∷ (
      "walk_forward",
      le c.minimum_walk_forward_pass_fraction
          (divide (decimal_of m.walk_forward_passed_folds) (decimal_of m.walk_forward_total_folds)),
    )
    ∷ ("deterministic_reproduction", m.deterministic_reproduction)
    ∷ ("point_in_time_universe", m.point_in_time_universe_passed)
    ∷ ("survivorship", m.survivorship_checks_passed)
    ∷ ("exchange_calendar", m.exchange_calendar_passed)
    ∷ ("cost_model", m.cost_model_passed)
    ∷ ("test_not_tuned", not (str_eq s.tuned_on_partition "test"))
    ∷ []

-- `evaluate_promotion`, up to the construction of the decision.
unfoldable pub evaluate_promotion :
    (Decimal → Decimal → Decimal)
    → ExperimentSpec
    → ExperimentMetrics
    → PromotionCriteria
    → Instant
    → PromotionDecision
evaluate_promotion divide s m c now =
    let reasons =
      map (λ (x : String × Bool). x.0)
        (keep (λ (x : String × Bool). not x.1) (promotion_checks divide s m c)) in
    record {
      experiment_id = s.experiment_id;
      eligible = is_empty reasons;
      capability = "advisory_only";
      reasons = reasons;
      decided_at = now;
    }
