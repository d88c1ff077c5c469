-- ===== src/Tests/Promotions.antt =====
-- One experiment, registered, judged and promoted.
use investing_agents.Prelude.{true, String, some, List, [], ◌∷◌, ◌≡◌, refl, Memᴰ}
use mathlib.Core.Logic.{◌↔◌}
use investing_agents.Result.{ok}
use investing_agents.Int.{pos}
use investing_agents.Decimal.{Decimal, whole}
use investing_agents.Domain.Types.{Digest}
use investing_agents.Table.{find}
use investing_agents.Strategy.Experiment.{
  ExperimentSpec, ExperimentMetrics, PromotionCriteria, PromotionDecision, validate_spec,
  validate_promotion, evaluate_promotion,
}
use investing_agents.Strategy.Experiment.Promotion.{IsEligible, evaluate_promotion_exact}
use investing_agents.Strategy.ExperimentRegistry.{
  Disk, Manifest, PromotionRow, RegistryTables, empty_registry, experiment_row_key, row_of,
  promotion_of, record_experiment, record_promotion, verified_artifact, check_evidence,
  check_existing, latest_advisory_eligibility,
}
use investing_agents.Strategy.ExperimentRegistry.Lasting.{
  RegistryWrite, records, promotes, write, write_all, IsBound, registered_experiment_stays,
  promotion_IsBound,
}
use investing_agents.Strategy.ExperimentRegistry.Latest.{record_promotion-latest}

abbrev spec : ExperimentSpec
spec = record {
  experiment_id = 5;
  experiment_key = 55;
  strategy_version = "v1";
  data_snapshot_id = "data";
  point_in_time_universe_checksum = "universe";
  code_revision = "abc";
  environment = "demo";
  parameters = [];
  splits =
      record {
        fold = 1;
        train_start = 1;
        train_end = 2;
        validation_start = 3;
        validation_end = 4;
        test_start = 5;
        test_end = 6;
      }
      ∷ [];
  cost_model = record {
    spread_bps = whole 1;
    slippage_bps = whole 1;
    fee_bps = whole 1;
    tax_bps = whole 0;
    stress_multiplier = whole 1;
  };
  tuned_on_partition = "validation";
  created_at = 1000000;
  schema_version = "1.0";
}

abbrev key : ExperimentSpec → Digest
key _ = 55

abbrev payload : ExperimentSpec → String
payload _ = "spec"

abbrev metrics : ExperimentMetrics
metrics = record {
  validation_excess_return_pct = whole 3;
  test_excess_return_pct = whole 2;
  test_max_drawdown_pct = whole 4;
  stressed_test_excess_return_pct = whole 1;
  benchmark_return_pct = whole 5;
  walk_forward_passed_folds = pos 3;
  walk_forward_total_folds = pos 3;
  deterministic_reproduction = true;
  point_in_time_universe_passed = true;
  survivorship_checks_passed = true;
  exchange_calendar_passed = true;
  cost_model_passed = true;
}

abbrev criteria : PromotionCriteria
criteria = record {
  minimum_validation_excess_return_pct = whole 1;
  minimum_test_excess_return_pct = whole 1;
  minimum_stressed_test_excess_return_pct = whole 0;
  maximum_test_drawdown_pct = whole 10;
  minimum_walk_forward_pass_fraction = whole 1;
}

-- Every fold passed, so that the quotient is one.
abbrev all_of_them : Decimal → Decimal → Decimal
all_of_them _ _ = whole 1

evaluate_promotion_exact_example :
    (validate_promotion (evaluate_promotion all_of_them spec metrics criteria 9000000)
      ≡ ok (evaluate_promotion all_of_them spec metrics criteria 9000000))
    × ((evaluate_promotion all_of_them spec metrics criteria 9000000).experiment_id
        ≡ spec.experiment_id)
    × (((evaluate_promotion all_of_them spec metrics criteria 9000000).eligible ≡ true)
        ↔ IsEligible all_of_them metrics criteria)
unfolding validate_spec
evaluate_promotion_exact_example =
    evaluate_promotion_exact all_of_them key spec metrics criteria 9000000 refl

abbrev manifest : Manifest
manifest = record {
  manifest_key = 55;
  manifest_id = 5;
  spec_payload = "spec";
  metrics = some "metrics";
  artifacts = some (("walk_forward.csv", 77) ∷ []);
}

abbrev disk : Disk
disk = record {
  manifest_at = λ _. some manifest;
  file_digest = λ _. some 77;
  plain_name = λ _. true;
  beside = λ path name. name;
}

abbrev decision : PromotionDecision
decision = record {
  experiment_id = 5;
  eligible = true;
  capability = "advisory_only";
  reasons = [];
  decided_at = 9000000;
}

abbrev writes : List RegistryWrite
writes = records payload disk spec "a/experiment.json" ∷ promotes spec decision "human" 90 ∷ []

abbrev tables : RegistryTables
tables = write_all writes empty_registry

abbrev promotion : PromotionRow
promotion = promotion_of spec decision "human" 90

stored :
    find experiment_row_key 55 tables.experiments
    ≡ some (row_of payload disk spec "a/experiment.json")
unfolding write_all write record_experiment record_promotion verified_artifact check_evidence find
stored = refl

-- The same record again is accepted and changes nothing.
again : (record_experiment payload disk spec "a/experiment.json" tables).0 ≡ ok tt
unfolding write_all write record_experiment record_promotion verified_artifact check_evidence
    check_existing find
again = refl

registered_experiment_stays_example :
    find experiment_row_key 55 (write_all writes tables).experiments
    ≡ some (row_of payload disk spec "a/experiment.json")
registered_experiment_stays_example =
    registered_experiment_stays writes tables 55 (row_of payload disk spec "a/experiment.json")
      stored

promotion_stored : Memᴰ promotion tables.promotions
unfolding write_all write record_experiment record_promotion verified_artifact check_evidence find
promotion_stored = Memᴰ.head refl

promotion_IsBound_example : IsBound tables promotion
promotion_IsBound_example = promotion_IsBound writes promotion promotion_stored

abbrev registered : RegistryTables
registered = record {
  experiments = row_of payload disk spec "a/experiment.json" ∷ [];
  promotions = [];
}

recorded : (record_promotion spec decision "human" 90 registered).0 ≡ ok 90
unfolding record_promotion find
recorded = refl

record_promotion-latest_example :
    latest_advisory_eligibility "v1" (record_promotion spec decision "human" 90 registered).1 ≡ true
record_promotion-latest_example =
    record_promotion-latest spec decision "human" 90 registered recorded (λ q m own. elim m [ ])
