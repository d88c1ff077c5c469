-- ===== src/Tests/Usage.antt =====
-- The usage reserve: a primary window with 40% left, a floor of 20% and a reserve of 5%.
use investing_agents.Prelude.{Bool, true, String, some, [], ◌∷◌, ◌≡◌, refl, is_empty}
use mathlib.Core.Logic.{◌↔◌}
use investing_agents.Result.{ok}
use investing_agents.Int.{◌+ℤ◌, ◌*ℤ◌}
use investing_agents.Decimal.{whole, add}
use investing_agents.Usage.{
  UsageAdmission, validate_admission, validate_for_submission, validate_for_work, evidence_blockers,
  minimum_remaining_percent, least_remaining,
}
use investing_agents.Usage.Admits.{Admits, validate_for_submission_exact, submission_admits_work}

abbrev admission : UsageAdmission
admission = record {
  observed_at = 100000000;
  windows =
      record { window_id = "five_hours"; remaining_percent = some (whole 40); primary = true }
      ∷ record { window_id = "week"; remaining_percent = some (whole 60); primary = Bool.false }
      ∷ [];
  available_window_ids = "week" ∷ "five_hours" ∷ [];
  source_reference = "usage tool";
  source_sha256 = "digest";
  floor_percent = whole 20;
  recovery_reserve_percent = whole 5;
}

abbrev any_digest : String → Bool
any_digest _ = true

admission_valid : validate_admission any_digest (whole 20) admission ≡ ok admission
unfolding validate_admission add ◌+ℤ◌ ◌*ℤ◌
admission_valid = refl

unblocked : is_empty (validate_for_submission admission 130000000) ≡ true
unfolding validate_for_submission evidence_blockers minimum_remaining_percent least_remaining add
    ◌+ℤ◌ ◌*ℤ◌
unblocked = refl

validate_for_submission_exact_example :
    (is_empty (validate_for_submission admission 130000000) ≡ true) ↔ Admits admission 130000000
validate_for_submission_exact_example = validate_for_submission_exact admission 130000000

submission_admits_work_example : is_empty (validate_for_work admission 130000000) ≡ true
submission_admits_work_example =
    submission_admits_work any_digest (whole 20) admission 130000000 admission_valid unblocked
