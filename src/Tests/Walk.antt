-- ===== src/Tests/Walk.antt =====
-- Walk-forward splits of ten dates.
use investing_agents.Prelude.{
  ℕ, none, some, List, [], ◌∷◌, ◌≡◌, refl, arith, length, ltb, if◌then◌else◌,
}
use investing_agents.Result.{ok, err, strategy_validation}
use investing_agents.Int.{pos}
use investing_agents.Strategy.Splits.{
  SplitWindow, Sizes, rolling_walk_forward_splits, make_folds, make_fold, item, validate_split,
}
use investing_agents.Strategy.Splits.Windows.{window_at, day}
use investing_agents.Strategy.Splits.Folds.{IsWalkForward, splits_at_each_step}
use investing_agents.Strategy.Splits.Order.{IsOrderedPair, returned_folds_look_ahead_of_nothing}

abbrev dates : List ℕ
dates = 1 ∷ 2 ∷ 3 ∷ 4 ∷ 5 ∷ 8 ∷ 9 ∷ 10 ∷ 11 ∷ 12 ∷ []

-- The sorting leaves these dates as they are.
abbrev same : List ℕ → List ℕ
same xs = xs

abbrev sizes : Sizes
sizes = record { train = 3; validation = 2; test = 2 }

abbrev first_fold : SplitWindow
first_fold = window_at dates sizes 0 1

abbrev second_fold : SplitWindow
second_fold = window_at dates sizes 2 2

abbrev folds : List SplitWindow
folds = first_fold ∷ second_fold ∷ []

two_folds : rolling_walk_forward_splits same dates (pos 3) (pos 2) (pos 2) none ≡ some (ok folds)
unfolding rolling_walk_forward_splits make_folds make_fold item validate_split day
two_folds = refl

splits_at_each_step_example :
    (made : List SplitWindow) × IsWalkForward dates sizes 2 made
    × (rolling_walk_forward_splits same dates (pos 3) (pos 2) (pos 2) none
        ≡ some (
            if ltb (length dates) 7
            then err (strategy_validation "insufficient sessions for one walk-forward fold")
            else ok made))
splits_at_each_step_example =
    splits_at_each_step same dates 3 2 2 none refl (omega arith) (omega arith) (omega arith) refl

returned_folds_look_ahead_of_nothing_example : IsOrderedPair first_fold second_fold
returned_folds_look_ahead_of_nothing_example =
    returned_folds_look_ahead_of_nothing same dates (pos 3) (pos 2) (pos 2) none folds 0 1
      first_fold second_fold refl two_folds (omega arith) (omega arith) refl refl
