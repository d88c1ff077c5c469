-- ===== src/Usage/Admits.antt =====
-- execution/usage_reserve.py: when submission and work are admitted.
use investing_agents.Prelude.{
  ◌+◌, ◌≤◌, Bool, true, false, not, ◌&&◌, String, some, List, [], ◌∷◌, ◌++◌, any, is_none, is_empty,
  Memᴰ, any_of_Memᴰ, ◌≡◌, refl, arith, inl, inr, Bool-cases, Option-cases, ap, sym, ◌∙◌,
}
use mathlib.Core.Logic.{◌↔◌}
use investing_agents.Result.{ok}
use investing_agents.Decimal.{Decimal, add, le, lt, is_positive}
use investing_agents.Decimal.Order.{le_trans, add-positive, positive_le}
use investing_agents.Domain.Types.{Instant}
use investing_agents.Risk.Limits.{is_fresh}
use investing_agents.Usage.Coverage.{
  IsCovered, has_primary-IsCovered, IsCovered-has_primary, IsCovered-is_covered,
}
use investing_agents.Usage.{
  UsageWindow, UsageAdmission, is_unknown, has_primary, is_covered, lesser, least_remaining,
  minimum_remaining_percent, required_submission_percent, blocked_if, evidence_blockers, remains,
  max_usage_age_seconds, minimum_recovery_reserve_percent, validate_for_submission,
  validate_for_work, validate_admission,
}

-- Each window has a known allowance that reaches a level.
abbrev pub AllReach : Decimal → List UsageWindow → Type 0
AllReach level windows =
    (w : UsageWindow)
    → Memᴰ w windows
    → (p : Decimal) × (w.remaining_percent ≡ some p) × (le level p ≡ true)

-- What a submission needs of the evidence and the numbers in it; instants are microseconds.
pub record Admits (a : UsageAdmission) (now : Instant) : Type 0 where
  pub not_future : a.observed_at ≤ now
  pub recent : now ≤ a.observed_at + 60000000
  pub covered : IsCovered a
  pub reached : AllReach (add a.floor_percent a.recovery_reserve_percent) a.windows

-- The lesser of two reaches a level exactly if both do.
lesser_reaches :
    (level p q : Decimal) → le level p ≡ true → le level q ≡ true → le level (lesser p q) ≡ true
lesser_reaches level p q hp hq = ground (arith, hp, hq)

lesser_below :
    (level p q : Decimal) → le level (lesser p q) ≡ true → (le level p ≡ true) × (le level q ≡ true)
lesser_below level p q h = elim (Bool-cases (lt q p)) [
  | inl less ↦
      let hq : le level q ≡ true = ground (arith, h, less) in
      (le_trans level q p hq (ground (arith, less)), hq)
  | inr more ↦
      let hp : le level p ≡ true = ground (arith, h, more) in
      (hp, le_trans level p q hp (ground (arith, more)))
]

-- What remains of the windows reaches a level only if the first one and what remains of the rest do.
least-cons :
    (level p : Decimal) (v : UsageWindow) (ws : List UsageWindow)
    → v.remaining_percent ≡ some p
    → remains (λ x. lt x level) (least_remaining (v ∷ ws)) ≡ false
    → (le level p ≡ true) × (remains (λ x. lt x level) (least_remaining ws) ≡ false)
unfolding least_remaining
least-cons level p v ws known h = elim (Option-cases (least_remaining ws)) [
  | inl none_left ↦ (ground (arith, h, known, none_left), ground (arith, none_left))
  | inr (q, there) ↦
      let (hp, hq) = lesser_below level p q (ground (arith, h, known, there)) in
      (hp, ground (arith, hq, there))
]

least-AllReach :
    (level : Decimal) (windows : List UsageWindow)
    → any is_unknown windows ≡ false
    → remains (λ p. lt p level) (least_remaining windows) ≡ false
    → AllReach level windows
least-AllReach level [] known h w m = elim m [ ]
least-AllReach level (v ∷ ws) known h w m = elim (Option-cases v.remaining_percent) [
  | inl unknown ↦ absurd (ground (arith, known, unknown))
  | inr (p, there) ↦
      let (hp, rest) = least-cons level p v ws there h in
      at m p there hp (least-AllReach level ws (ground (arith, known)) rest w)
]
  where
    at :
        Memᴰ w (v ∷ ws)
        → (p : Decimal) → v.remaining_percent ≡ some p
        → le level p ≡ true
        → (Memᴰ w ws → (q : Decimal) × (w.remaining_percent ≡ some q) × (le level q ≡ true))
        → (q : Decimal) × (w.remaining_percent ≡ some q) × (le level q ≡ true)
    at (Memᴰ.head e) p there hp rest =
        (p, ap (λ (x : UsageWindow). x.remaining_percent) e ∙ there, hp)
    at (Memᴰ.tail n) p there hp rest = rest n

AllReach-least :
    (level : Decimal) (windows : List UsageWindow)
    → AllReach level windows
    → remains (λ p. lt p level) (least_remaining windows) ≡ false
unfolding least_remaining
AllReach-least level [] h = refl
AllReach-least level (w ∷ ws) h =
    let (p, known, reached) = h w (Memᴰ.head refl) in
    let rest = AllReach-least level ws (λ v m. h v (Memᴰ.tail m)) in
    elim (Option-cases (least_remaining ws)) [
      | inl none_left ↦ ground (arith, known, none_left, reached)
      | inr (q, there) ↦
          let hq : le level q ≡ true = ground (arith, rest, there) in
          ground (arith, known, there, lesser_reaches level p q reached hq)
    ]

all_known :
    (level : Decimal) (windows : List UsageWindow)
    → AllReach level windows
    → any is_unknown windows ≡ false
all_known level windows h =
    any_of_Memᴰ is_unknown windows (λ w m. let (p, known, _) = h w m in ap is_none known)

is_empty-append : (xs ys : List String) → is_empty (xs ++ ys) ≡ (is_empty xs && is_empty ys)
is_empty-append [] ys = refl
is_empty-append (x ∷ xs) ys = refl

abbrev is_good_evidence : UsageAdmission → Instant → Bool
is_good_evidence a now =
    is_fresh a.observed_at now max_usage_age_seconds
    && has_primary a
    && is_covered a
    && not (any is_unknown a.windows)

no_evidence_blockers :
    (a : UsageAdmission) (now : Instant)
    → is_empty (evidence_blockers a now) ≡ is_good_evidence a now
unfolding evidence_blockers
no_evidence_blockers a now = ground arith

submission-parts :
    (a : UsageAdmission) (now : Instant)
    → is_empty (validate_for_submission a now) ≡ (
        is_good_evidence a now
        && not (remains (λ p. lt p (required_submission_percent a)) (least_remaining a.windows)))
unfolding validate_for_submission minimum_remaining_percent
submission-parts a now =
    let test = λ (p : Decimal). lt p (required_submission_percent a) in
    ground (
      arith,
      no_evidence_blockers a now,
      is_empty-append (evidence_blockers a now) (
          blocked_if (remains test (minimum_remaining_percent a))
            "usage_recovery_reserve_insufficient"),
    )

work-parts :
    (a : UsageAdmission) (now : Instant)
    → is_empty (validate_for_work a now) ≡ (
        is_good_evidence a now
        && not (remains (λ p. le p a.floor_percent) (least_remaining a.windows)))
unfolding validate_for_work minimum_remaining_percent
work-parts a now =
    let test = λ (p : Decimal). le p a.floor_percent in
    ground (
      arith,
      no_evidence_blockers a now,
      is_empty-append (evidence_blockers a now)
          (blocked_if (remains test (minimum_remaining_percent a)) "usage_remaining_floor_reached"),
    )

-- Nothing blocks a submission exactly when the snapshot is at most 60 seconds old and not of the
-- future, one window is primary, the ids of the windows are those that the source says are
-- available, and each window's remaining percentage is known and at least the floor plus the
-- recovery reserve.
pub validate_for_submission_exact :
    (a : UsageAdmission) (now : Instant)
    → (is_empty (validate_for_submission a now) ≡ true) ↔ Admits a now
validate_for_submission_exact a now =
    let level = add a.floor_percent a.recovery_reserve_percent in
    (
      λ h.
          let good = sym (submission-parts a now) ∙ h in
          record {
            not_future = ground (arith, good);
            recent = ground (arith, good);
            covered = has_primary-IsCovered a (ground (arith, good)) (ground (arith, good));
            reached = least-AllReach level a.windows (ground (arith, good)) (ground (arith, good));
          },
      λ x.
          submission-parts a now
          ∙ ground (
            arith,
            x.not_future,
            x.recent,
            IsCovered-has_primary a x.covered,
            IsCovered-is_covered a x.covered,
            all_known level a.windows x.reached,
            AllReach-least level a.windows x.reached,
          ),
    )

positive_reserve :
    (is_digest : String → Bool) (least : Decimal) (a : UsageAdmission)
    → validate_admission is_digest least a ≡ ok a
    → is_positive a.recovery_reserve_percent ≡ true
unfolding validate_admission
positive_reserve is_digest least a h =
    positive_le minimum_recovery_reserve_percent a.recovery_reserve_percent (ground arith)
      (ground (arith, h))

-- What may be submitted leaves more than the floor, so that it may be worked on: of an admission that
-- its constructor accepts, whatever the least floor is, a moment that has no blocker for submission
-- has none for work.
pub submission_admits_work :
    (is_digest : String → Bool) (least : Decimal) (a : UsageAdmission) (now : Instant)
    → validate_admission is_digest least a ≡ ok a
    → is_empty (validate_for_submission a now) ≡ true
    → is_empty (validate_for_work a now) ≡ true
submission_admits_work is_digest least a now valid h =
    let good = sym (submission-parts a now) ∙ h in
    let level = required_submission_percent a in
    let more =
      add-positive a.floor_percent a.recovery_reserve_percent
        (positive_reserve is_digest least a valid) in
    work-parts a now ∙ elim (Option-cases (least_remaining a.windows)) [
      | inl none_left ↦ ground (arith, good, none_left)
      | inr (q, there) ↦
          let hq : le level q ≡ true = ground (arith, good, there) in
          elim (Bool-cases (le q a.floor_percent)) [
            | inr above ↦ ground (arith, good, there, above)
            | inl low ↦ absurd (ground (arith, more, le_trans level q a.floor_percent hq low))
          ]
    ]
