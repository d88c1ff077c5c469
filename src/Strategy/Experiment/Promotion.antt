-- ===== src/Strategy/Experiment/Promotion.antt =====
-- strategy/domain.py: what is eligible for promotion.
use investing_agents.Prelude.{
  true, false, String, str_eq, ◌≡◌, refl, arith, ap, ◌∙◌, eq_iff, inl, inr, Bool-cases,
}
use mathlib.Core.Logic.{◌↔◌}
use investing_agents.Result.{ok}
use investing_agents.Decimal.{Decimal, le, absolute}
use investing_agents.Domain.Types.{Digest, Instant}
use investing_agents.Strategy.Experiment.{
  ExperimentSpec, ExperimentMetrics, PromotionCriteria, decimal_of, validate_spec,
  validate_promotion, evaluate_promotion,
}

-- What a promotion asks for, with the fraction of passed folds as the division gives it.
pub record IsEligible (divide : Decimal → Decimal → Decimal) (m : ExperimentMetrics)
    (c : PromotionCriteria) : Type 0 where
  pub validation : le c.minimum_validation_excess_return_pct m.validation_excess_return_pct ≡ true
  pub test : le c.minimum_test_excess_return_pct m.test_excess_return_pct ≡ true
  pub stressed :
      le c.minimum_stressed_test_excess_return_pct m.stressed_test_excess_return_pct ≡ true
  pub drawdown : le (absolute m.test_max_drawdown_pct) (absolute c.maximum_test_drawdown_pct) ≡ true
  pub folds :
      le c.minimum_walk_forward_pass_fraction
        (divide (decimal_of m.walk_forward_passed_folds) (decimal_of m.walk_forward_total_folds))
      ≡ true
  pub reproduced : m.deterministic_reproduction ≡ true
  pub universe : m.point_in_time_universe_passed ≡ true
  pub survivors : m.survivorship_checks_passed ≡ true
  pub calendar : m.exchange_calendar_passed ≡ true
  pub costs : m.cost_model_passed ≡ true

trained_on :
    (s : ExperimentSpec) (part : String)
    → str_eq part "test" ≡ false
    → str_eq s.tuned_on_partition part ≡ true
    → str_eq s.tuned_on_partition "test" ≡ false
trained_on s part other same =
    ap (λ x. str_eq x "test") ((eq_iff s.tuned_on_partition part).0 same) ∙ other

-- An experiment that its constructor accepts was not tuned on test data.
untuned :
    (key : ExperimentSpec → Digest) (s : ExperimentSpec)
    → validate_spec key s ≡ ok s
    → str_eq s.tuned_on_partition "test" ≡ false
unfolding validate_spec
untuned key s h = elim (Bool-cases (str_eq s.tuned_on_partition "train")) [
  | inl train ↦ trained_on s "train" refl train
  | inr other ↦ trained_on s "validation" refl (ground (arith, h, other))
]

eligible-IsEligible :
    (divide : Decimal → Decimal → Decimal) (s : ExperimentSpec) (m : ExperimentMetrics)
    → (c : PromotionCriteria) (now : Instant)
    → (evaluate_promotion divide s m c now).eligible ≡ true
    → IsEligible divide m c
unfolding evaluate_promotion
eligible-IsEligible divide s m c now h = record {
  validation = ground (arith, h);
  test = ground (arith, h);
  stressed = ground (arith, h);
  drawdown = ground (arith, h);
  folds = ground (arith, h);
  reproduced = ground (arith, h);
  universe = ground (arith, h);
  survivors = ground (arith, h);
  calendar = ground (arith, h);
  costs = ground (arith, h);
}

IsEligible-eligible :
    (divide : Decimal → Decimal → Decimal) (s : ExperimentSpec) (m : ExperimentMetrics)
    → (c : PromotionCriteria) (now : Instant) → str_eq s.tuned_on_partition "test" ≡ false
    → IsEligible divide m c
    → (evaluate_promotion divide s m c now).eligible ≡ true
unfolding evaluate_promotion
IsEligible-eligible divide s m c now fair e = ground (
  arith, fair, e.validation, e.test, e.stressed, e.drawdown, e.folds, e.reproduced, e.universe,
  e.survivors, e.calendar, e.costs,
)

-- For an experiment that its constructor accepts, the decision grants no more than advisory use, is
-- for that experiment, and is eligible exactly when the excess returns on validation, on test and
-- under stressed costs, the drawdown and the fraction of passed folds keep the criteria, and the
-- run was reproduced and passed the checks on universe, survivors, calendar and costs.
pub evaluate_promotion_exact :
    (divide : Decimal → Decimal → Decimal) (key : ExperimentSpec → Digest) (s : ExperimentSpec)
    → (m : ExperimentMetrics) (c : PromotionCriteria) (now : Instant) → validate_spec key s ≡ ok s
    → (validate_promotion (evaluate_promotion divide s m c now)
        ≡ ok (evaluate_promotion divide s m c now))
      × ((evaluate_promotion divide s m c now).experiment_id ≡ s.experiment_id)
      × (((evaluate_promotion divide s m c now).eligible ≡ true) ↔ IsEligible divide m c)
unfolding validate_promotion evaluate_promotion
evaluate_promotion_exact divide key s m c now valid = (
  refl,
  refl,
  (
    eligible-IsEligible divide s m c now,
    IsEligible-eligible divide s m c now (untuned key s valid),
  ),
)
