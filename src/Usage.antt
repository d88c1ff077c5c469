-- ===== src/Usage.antt =====
-- execution/usage_reserve.py: the admission of broker work by what is left of a quota. A percentage is an
-- exact decimal; `is_digest` says that a text is 64 lower-case hexadecimal digits.
pub mod Coverage
pub mod Admits
use investing_agents.Prelude.{
  ℕ, Bool, true, false, not, ◌&&◌, ◌||◌, String, str_eq, Option, none, some, List, [], ◌∷◌, ◌++◌,
  map, any, all, is_none, if◌then◌else◌,
}
use investing_agents.Result.{Result, ok, err, usage_evidence}
use investing_agents.Decimal.{Decimal, whole, add, le, lt, is_negative}
use investing_agents.Domain.Types.{Instant}
use investing_agents.Risk.Limits.{is_fresh}

abbrev pub minimum_floor_percent : Decimal
minimum_floor_percent = whole 20

abbrev pub minimum_recovery_reserve_percent : Decimal
minimum_recovery_reserve_percent = whole 5

abbrev pub max_usage_age_seconds : ℕ
max_usage_age_seconds = 60

-- The range that `_percent` asks for.
abbrev pub is_percent : Decimal → Bool
is_percent d = not (is_negative d) && le d (whole 100)

pub record UsageWindow : Type 0 where
  pub window_id : String
  pub remaining_percent : Option Decimal
  pub primary : Bool

abbrev pub is_unknown : UsageWindow → Bool
is_unknown w = is_none w.remaining_percent

unfoldable pub validate_window : UsageWindow → Result UsageWindow
validate_window w =
    if str_eq w.window_id ""
    then err (usage_evidence "usage_window_identity_required")
    else elim w.remaining_percent [
      | none ↦ ok w
      | some p ↦
          if is_percent p
          then ok w
          else err (usage_evidence "finite_decimal_usage_percentage_required")
    ]

pub record UsageAdmission : Type 0 where
  pub observed_at : Instant
  pub windows : List UsageWindow
  pub available_window_ids : List String
  pub source_reference : String
  pub source_sha256 : String
  pub floor_percent : Decimal
  pub recovery_reserve_percent : Decimal

abbrev pub contains : String → List String → Bool
contains x xs = any (str_eq x) xs

-- `len(set(xs)) == len(xs)`
abbrev pub all_differ : List String → Bool
all_differ [] = true
all_differ (x ∷ xs) = not (contains x xs) && all_differ xs

abbrev pub window_ids : UsageAdmission → List String
window_ids a = map (λ (w : UsageWindow). w.window_id) a.windows

-- `UsageAdmission.__post_init__`; the least floor is the class's.
unfoldable pub validate_admission :
    (String → Bool) → Decimal → UsageAdmission → Result UsageAdmission
validate_admission is_digest least a =
    if not (all_differ (window_ids a))
    then err (usage_evidence "duplicate_usage_window")
    else if contains "" a.available_window_ids || not (all_differ a.available_window_ids)
    then err (usage_evidence "explicit_available_usage_windows_required")
    else if str_eq a.source_reference "" || not (is_digest a.source_sha256)
    then err (usage_evidence "usage_source_provenance_required")
    else if not (is_percent a.floor_percent) || not (is_percent a.recovery_reserve_percent)
    then err (usage_evidence "finite_decimal_usage_percentage_required")
    else if lt a.floor_percent least
        || lt a.recovery_reserve_percent minimum_recovery_reserve_percent
    then err (usage_evidence "usage_floor_or_recovery_reserve_cannot_be_relaxed")
    else if not (le (add a.floor_percent a.recovery_reserve_percent) (whole 100))
    then err (usage_evidence "usage_floor_plus_reserve_exceeds_allowance")
    else ok a

-- `PilotUsageAdmission.__post_init__`, with its reference
unfoldable pub validate_pilot_admission :
    (String → Bool) → String → UsageAdmission → Result UsageAdmission
validate_pilot_admission is_digest reference a = elim (validate_admission is_digest (whole 5) a) [
  | err e ↦ err e
  | ok _ ↦
      if lt a.floor_percent minimum_floor_percent && str_eq reference ""
      then err (usage_evidence "explicit_pilot_usage_floor_authorization_required")
      else ok a
]

abbrev pub has_primary : UsageAdmission → Bool
has_primary a = any (λ (w : UsageWindow). w.primary) a.windows

-- `set(self.available_window_ids) == {item.window_id for item in self.windows}`
abbrev pub is_covered : UsageAdmission → Bool
is_covered a =
    all (λ x. contains x (window_ids a)) a.available_window_ids
    && all (λ x. contains x a.available_window_ids) (window_ids a)

abbrev pub lesser : Decimal → Decimal → Decimal
lesser a b = if lt b a then b else a

-- The least of the percentages that are known; no value of no window.
unfoldable pub least_remaining : List UsageWindow → Option Decimal
least_remaining [] = none
least_remaining (w ∷ ws) =
    let rest = least_remaining ws in
    elim w.remaining_percent [
      | none ↦ rest
      | some p ↦ elim rest [ none ↦ some p | some q ↦ some (lesser p q) ]
    ]

unfoldable pub minimum_remaining_percent : UsageAdmission → Option Decimal
minimum_remaining_percent a =
    if not (has_primary a) || not (is_covered a) || any is_unknown a.windows
    then none
    else least_remaining a.windows

abbrev pub required_submission_percent : UsageAdmission → Decimal
required_submission_percent a = add a.floor_percent a.recovery_reserve_percent

-- `if test: blockers.append(name)`
abbrev pub blocked_if : Bool → String → List String
blocked_if test name = if test then name ∷ [] else []

unfoldable pub evidence_blockers : UsageAdmission → Instant → List String
evidence_blockers a now =
    blocked_if (not (is_fresh a.observed_at now max_usage_age_seconds))
      "usage_snapshot_stale_or_future"
    ++ (blocked_if (not (has_primary a)) "primary_usage_window_missing"
        ++ (blocked_if (not (is_covered a)) "available_usage_window_coverage_mismatch"
            ++ blocked_if (any is_unknown a.windows) "usage_window_allowance_unknown"))

-- Whether what remains is known and fails a test.
abbrev pub remains : (Decimal → Bool) → Option Decimal → Bool
remains test none = false
remains test (some p) = test p

unfoldable pub validate_for_submission : UsageAdmission → Instant → List String
validate_for_submission a now =
    evidence_blockers a now
    ++ blocked_if
        (remains (λ p. lt p (required_submission_percent a)) (minimum_remaining_percent a))
        "usage_recovery_reserve_insufficient"

unfoldable pub validate_for_work : UsageAdmission → Instant → List String
validate_for_work a now =
    evidence_blockers a now
    ++ blocked_if (remains (λ p. le p a.floor_percent) (minimum_remaining_percent a))
        "usage_remaining_floor_reached"
