-- ===== src/Strategy/Splits/Windows.antt =====
-- strategy/validation.py: one fold over increasing dates.
use investing_agents.Prelude.{
  ℕ, zero, suc, ◌+◌, ◌-◌, ◌≤◌, ◌<◌, true, List, [], ◌∷◌, length, all, ltb, ◌≡◌, refl, arith, ap,
  inl, inr, Bool-cases,
}
use investing_agents.Result.{ok}
use investing_agents.Strategy.Splits.{
  SplitWindow, is_chronological, validate_split, item, Sizes, span, make_fold, IsIncreasing,
}

-- The date at a position, 0 beyond the last.
unfoldable pub day : List ℕ → ℕ → ℕ
day [] i = 0
day (x ∷ xs) zero = x
day (x ∷ xs) (suc i) = day xs i

pub item-day : (values : List ℕ) (i : ℕ) → i < length values → item values i ≡ ok (day values i)
unfolding item day
item-day [] i h = absurd (ground (arith, h))
item-day (x ∷ xs) zero h = refl
item-day (x ∷ xs) (suc i) h = item-day xs i (ground (arith, h))

all-day :
    (x : ℕ) (values : List ℕ) (i : ℕ)
    → all (ltb x) values ≡ true
    → i < length values
    → x < day values i
unfolding day
all-day x [] i h bound = absurd (ground (arith, bound))
all-day x (y ∷ ys) zero h bound = ground (arith, h)
all-day x (y ∷ ys) (suc i) h bound = all-day x ys i (ground (arith, h)) (ground (arith, bound))

pub day-increasing :
    (values : List ℕ) (i j : ℕ)
    → IsIncreasing values
    → i < j
    → j < length values
    → day values i < day values j
unfolding day
day-increasing [] i j h order bound = absurd (ground (arith, bound))
day-increasing (x ∷ xs) i zero h order bound = absurd (ground (arith, order))
day-increasing (x ∷ xs) zero (suc j) h order bound =
    all-day x xs j (ground (arith, h)) (ground (arith, bound))
day-increasing (x ∷ xs) (suc i) (suc j) h order bound =
    day-increasing xs i j (ground (arith, h)) (ground (arith, order)) (ground (arith, bound))

pub day-monotone :
    (values : List ℕ) (i j : ℕ)
    → IsIncreasing values
    → i ≤ j
    → j < length values
    → day values i ≤ day values j
day-monotone values i j h order bound = elim (Bool-cases (ltb i j)) [
  | inl before ↦
      let less = day-increasing values i j h (ground (arith, before)) bound in ground (arith, less)
  | inr same ↦ let e : i ≡ j = ground (arith, same, order) in ground (arith, ap (day values) e)
]

-- The fold over the dates from a position on.
abbrev pub window_at : List ℕ → Sizes → ℕ → ℕ → SplitWindow
window_at values z start number = record {
  fold = number;
  train_start = day values start;
  train_end = day values (start + z.train - 1);
  validation_start = day values (start + z.train);
  validation_end = day values (start + z.train + z.validation - 1);
  test_start = day values (start + z.train + z.validation);
  test_end = day values (start + span z - 1);
}

pub record IsPositive (z : Sizes) : Type 0 where
  pub train : 1 ≤ z.train
  pub validation : 1 ≤ z.validation
  pub test : 1 ≤ z.test

pub window_at-is_chronological :
    (values : List ℕ) (z : Sizes) (start number : ℕ)
    → IsIncreasing values
    → IsPositive z
    → start + span z ≤ length values
    → is_chronological (window_at values z start number) ≡ true
window_at-is_chronological values z start number h pos fits =
    let le = λ (i j : ℕ). day-monotone values i j h in
    let lt = λ (i j : ℕ). day-increasing values i j h in
    let p1 = pos.train in
    let p2 = pos.validation in
    let p3 = pos.test in
    let a = le start (start + z.train - 1) (ground arith) (ground arith) in
    let b = lt (start + z.train - 1) (start + z.train) (ground arith) (ground arith) in
    let c =
      le (start + z.train) (start + z.train + z.validation - 1) (ground arith) (ground arith) in
    let d =
      lt (start + z.train + z.validation - 1) (start + z.train + z.validation) (ground arith)
        (ground arith) in
    let e =
      le (start + z.train + z.validation) (start + span z - 1) (ground arith) (ground arith) in
    ground (arith, a, b, c, d, e)

item-at :
    (values : List ℕ) (i j : ℕ) → i ≡ j → i < length values → item values i ≡ ok (day values j)
item-at values i j same bound = rw (← same) (item-day values i bound)

-- The body of the loop makes that fold.
pub make_fold-window_at :
    (values : List ℕ) (z : Sizes) (start number : ℕ)
    → IsIncreasing values
    → IsPositive z
    → 1 ≤ number
    → start + span z ≤ length values
    → make_fold values z start number ≡ ok (window_at values z start number)
unfolding make_fold validate_split
make_fold-window_at values z start number h pos positive fits =
    let p1 = pos.train in
    let p2 = pos.validation in
    let p3 = pos.test in
    let at = item-at values in
    rw
      (
        at start start refl (ground arith),
        at (start + z.train - 1) (start + z.train - 1) refl (ground arith),
        at (start + z.train - 1 + 1) (start + z.train) (ground arith) (ground arith),
        at (start + z.train - 1 + 1 + z.validation - 1) (start + z.train + z.validation - 1)
            (ground arith) (ground arith),
        at (start + z.train - 1 + 1 + z.validation - 1 + 1) (start + z.train + z.validation)
            (ground arith) (ground arith),
        at (start + z.train - 1 + 1 + z.validation - 1 + 1 + z.test - 1) (start + span z - 1)
            (ground arith) (ground arith),
      )
      (ground (arith, positive, window_at-is_chronological values z start number h pos fits))
