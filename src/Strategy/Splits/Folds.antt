-- ===== src/Strategy/Splits/Folds.antt =====
-- strategy/validation.py: the loop over the folds.
use investing_agents.Prelude.{
  ℕ, zero, suc, ◌+◌, ◌*◌, ◌≤◌, true, false, Option, none, some, List, [], ◌∷◌, length, get_elem?,
  ltb, leb, ◌≡◌, arith, if◌then◌else◌, inl, inr, Bool-cases,
}
use investing_agents.Result.{ok, err, strategy_validation}
use investing_agents.Int.{ℤ, pos, pos_part, leb_ℤ}
use investing_agents.Strategy.Splits.{
  SplitWindow, Sizes, span, make_fold, make_folds, chosen_step, no_folds,
  rolling_walk_forward_splits, IsIncreasing,
}
use investing_agents.Strategy.Splits.Windows.{IsPositive, window_at, make_fold-window_at}

-- The folds of the loop from a position on: the one at each place, and none where dates run out.
abbrev AreFolds : List ℕ → Sizes → ℕ → ℕ → ℕ → List SplitWindow → Type 0
AreFolds values z step start number folds =
    (k : ℕ)
    → get_elem? folds k ≡ (
        if leb (start + k * step + span z) (length values)
        then some (window_at values z (start + k * step) (number + k))
        else none)

suc_mul : (k step : ℕ) → suc k * step ≡ step + k * step
suc_mul k step = ground arith

AreFolds-stop :
    (values : List ℕ) (z : Sizes) (step start number : ℕ)
    → leb (start + span z) (length values) ≡ false
    → AreFolds values z step start number []
AreFolds-stop values z step start number stops k = ground (arith, stops)

AreFolds-next :
    (values : List ℕ) (z : Sizes) (step start number : ℕ) (folds : List SplitWindow)
    → leb (start + span z) (length values) ≡ true
    → AreFolds values z step (start + step) (number + 1) folds
    → AreFolds values z step start number (window_at values z start number ∷ folds)
AreFolds-next values z step start number folds goes rest zero = ground (arith, goes)
AreFolds-next values z step start number folds goes rest (suc k) =
    let here : start + suc k * step ≡ start + step + k * step = ground (arith, suc_mul k step) in
    let count : number + suc k ≡ number + 1 + k = ground arith in rw (here, count) (rest k)

module _ (values : List ℕ) (z : Sizes) (step : ℕ) (h : IsIncreasing values) (wide : IsPositive z)
    (moves : 1 ≤ step) where
  abbrev FoldsFrom : ℕ → ℕ → ℕ → Type 0
  FoldsFrom fuel start number =
      (folds : List SplitWindow) × (make_folds (suc fuel) values z step start number
        ≡ some (ok folds))
      × (AreFolds values z step start number folds)

  make_folds-stop :
      (fuel start number : ℕ)
      → leb (start + span z) (length values) ≡ false
      → FoldsFrom fuel start number
  unfolding make_folds
  make_folds-stop fuel start number stops =
      ([], ground (arith, stops), AreFolds-stop values z step start number stops)

  make_folds-next :
      (fuel start number : ℕ) (w : SplitWindow) (folds : List SplitWindow)
      → leb (start + span z) (length values) ≡ true
      → make_fold values z start number ≡ ok w
      → make_folds fuel values z step (start + step) (number + 1) ≡ some (ok folds)
      → make_folds (suc fuel) values z step start number ≡ some (ok (w ∷ folds))
  unfolding make_folds
  make_folds-next fuel start number w folds goes made rest = ground (arith, goes, made, rest)

  -- Enough fuel is one more than the dates that are left.
  make_folds-AreFolds :
      (fuel start number : ℕ)
      → 1 ≤ number
      → length values ≤ start + fuel
      → FoldsFrom fuel start number
  make_folds-AreFolds zero start number counts enough =
      make_folds-stop zero start number (ground (arith, enough, wide.test))
  make_folds-AreFolds (suc fuel) start number counts enough =
      elim (Bool-cases (leb (start + span z) (length values))) [
        | inr stops ↦ make_folds-stop (suc fuel) start number stops
        | inl goes ↦
            let (folds, same, are) =
              make_folds-AreFolds fuel (start + step) (number + 1) (ground arith)
                (ground (arith, enough, moves)) in
            let made =
              make_fold-window_at values z start number h wide counts (ground (arith, goes)) in
            (
              window_at values z start number ∷ folds,
              make_folds-next (suc fuel) start number (window_at values z start number) folds goes
                  made same,
              AreFolds-next values z step start number folds goes are,
            )
      ]

-- The folds that the sizes and the step ask for.
abbrev pub IsWalkForward : List ℕ → Sizes → ℕ → List SplitWindow → Type 0
IsWalkForward values z step folds =
    (k : ℕ)
    → get_elem? folds k ≡ (
        if leb (k * step + span z) (length values)
        then some (window_at values z (k * step) (k + 1))
        else none)

AreFolds-IsWalkForward :
    (values : List ℕ) (z : Sizes) (step : ℕ) (folds : List SplitWindow)
    → AreFolds values z step 0 1 folds
    → IsWalkForward values z step folds
AreFolds-IsWalkForward values z step folds are k =
    let here : 0 + k * step ≡ k * step = ground arith in
    let count : k + 1 ≡ 1 + k = ground arith in rw (count, ← here) (are k)

-- There is a first fold unless the dates are too few.
no_folds-first :
    (values : List ℕ) (z : Sizes) (step : ℕ) (folds : List SplitWindow)
    → IsWalkForward values z step folds
    → no_folds folds ≡ (
        if ltb (length values) (span z)
        then err (strategy_validation "insufficient sessions for one walk-forward fold")
        else ok folds)
no_folds-first values z step [] walk = ground (arith, walk 0)
no_folds-first values z step (w ∷ folds) walk = ground (arith, walk 0)

-- With positive sizes and step, over dates that sorting leaves increasing, the splits are made
-- within their fuel. If not even one fold fits, the insufficiency is raised. Otherwise the folds
-- are returned: fold k is there exactly when the k-th start, k times the step, leaves room for all
-- three windows, is numbered k + 1, and trains, validates and tests on the consecutive windows of
-- the given sizes from that start.
pub splits_at_each_step :
    (ordered : List ℕ → List ℕ) (dates : List ℕ) (train validation test : ℕ) (step : Option ℤ)
    → IsIncreasing (ordered dates)
    → 1 ≤ train
    → 1 ≤ validation
    → 1 ≤ test
    → leb_ℤ (chosen_step step (pos test)) (pos 0) ≡ false
    → (folds : List SplitWindow) × IsWalkForward
        (ordered dates)
        (record { train = train; validation = validation; test = test })
        (pos_part (chosen_step step (pos test)))
        folds
      × (rolling_walk_forward_splits ordered dates (pos train) (pos validation) (pos test) step
          ≡ some (
              if ltb (length (ordered dates)) (train + validation + test)
              then err (strategy_validation "insufficient sessions for one walk-forward fold")
              else ok folds))
unfolding rolling_walk_forward_splits
splits_at_each_step ordered dates train validation test step h p1 p2 p3 moves =
    let values = ordered dates in
    let z : Sizes = record { train = train; validation = validation; test = test } in
    let n = pos_part (chosen_step step (pos test)) in
    let (folds, same, are) =
      make_folds-AreFolds values z n h (record { train = p1; validation = p2; test = p3 })
        (ground (arith, moves)) (length values) 0 1 (ground arith) (ground arith) in
    let walk = AreFolds-IsWalkForward values z n folds are in
    let checked = no_folds-first values z n folds walk in
    (folds, walk, ground (arith, moves, same, checked))
