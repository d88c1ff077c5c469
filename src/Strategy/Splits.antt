-- ===== src/Strategy/Splits.antt =====
-- strategy/domain.py: SplitWindow; strategy/validation.py: rolling walk-forward splits. A date is a
-- day number; that pandas sorts the dates and drops repeated ones is a parameter.
pub mod Windows
pub mod Folds
pub mod Order
use investing_agents.Prelude.{
  ℕ, zero, suc, ◌+◌, ◌-◌, ◌*◌, Bool, true, not, ◌&&◌, ◌||◌, Option, none, some, List, [], ◌∷◌,
  length, all, ltb, leb, is_empty, if◌then◌else◌, ◌≡◌,
}
use investing_agents.Result.{Result, ok, err, strategy_validation, index_error}
use investing_agents.Int.{ℤ, pos, pos_part, leb_ℤ}

pub record SplitWindow : Type 0 where
  pub fold : ℕ
  pub train_start : ℕ
  pub train_end : ℕ
  pub validation_start : ℕ
  pub validation_end : ℕ
  pub test_start : ℕ
  pub test_end : ℕ

abbrev pub is_chronological : SplitWindow → Bool
is_chronological w =
    leb w.train_start w.train_end
    && ltb w.train_end w.validation_start
    && leb w.validation_start w.validation_end
    && ltb w.validation_end w.test_start
    && leb w.test_start w.test_end

-- `SplitWindow.__post_init__`
unfoldable pub validate_split : SplitWindow → Result SplitWindow
validate_split w =
    if ltb w.fold 1
    then err (strategy_validation "fold must be positive")
    else if not (is_chronological w)
    then err (
        strategy_validation
          "train, validation, and test windows must be chronological and disjoint")
    else ok w

-- `values[i]`
unfoldable pub item : List ℕ → ℕ → Result ℕ
item [] i = err index_error
item (x ∷ xs) zero = ok x
item (x ∷ xs) (suc i) = item xs i

infixl 5 ◌then_use◌
abbrev pub ◌then_use◌ : {A B : Type 0} → Result A → (A → Result B) → Result B
r then_use f = elim r [ ok a ↦ f a | err e ↦ err e ]

-- The sizes of the windows of a fold.
pub record Sizes : Type 0 where
  pub train : ℕ
  pub validation : ℕ
  pub test : ℕ

abbrev pub span : Sizes → ℕ
span z = z.train + z.validation + z.test

-- The fold that the body of the loop appends, `number` being `len(folds) + 1`.
unfoldable pub make_fold : List ℕ → Sizes → ℕ → ℕ → Result SplitWindow
make_fold values z start number =
    let train_end = start + z.train - 1 in
    let validation_start = train_end + 1 in
    let validation_end = validation_start + z.validation - 1 in
    let test_start = validation_end + 1 in
    let test_end = test_start + z.test - 1 in
    item values start then_use λ a. item values train_end then_use λ b.
    item values validation_start then_use λ c. item values validation_end then_use λ d.
    item values test_start then_use λ e. item values test_end then_use λ f. validate_split (record {
      fold = number;
      train_start = a;
      train_end = b;
      validation_start = c;
      validation_end = d;
      test_start = e;
      test_end = f;
    })

-- The `while` loop, with fuel; no value when the fuel is spent.
unfoldable pub make_folds : ℕ → List ℕ → Sizes → ℕ → ℕ → ℕ → Option (Result (List SplitWindow))
make_folds zero values z step start number = none
make_folds (suc fuel) values z step start number =
    let rest = make_folds fuel values z step (start + step) (number + 1) in
    if leb (start + span z) (length values)
    then elim (make_fold values z start number) [
      | err e ↦ some (err e)
      | ok w ↦ elim rest [ none ↦ none | some r ↦ some (r then_use λ folds. ok (w ∷ folds)) ]
    ]
    else some (ok [])

-- `step_sessions or test_sessions`
abbrev pub chosen_step : Option ℤ → ℤ → ℤ
chosen_step none test = test
chosen_step (some (pos zero)) test = test
chosen_step (some n) test = n

abbrev pub no_folds : List SplitWindow → Result (List SplitWindow)
no_folds folds =
    if is_empty folds
    then err (strategy_validation "insufficient sessions for one walk-forward fold")
    else ok folds

-- `ordered` is the sorted and unique dates. Enough fuel is one more than their number.
unfoldable pub rolling_walk_forward_splits :
    (List ℕ → List ℕ) → List ℕ → ℤ → ℤ → ℤ → Option ℤ → Option (Result (List SplitWindow))
rolling_walk_forward_splits ordered dates train validation test step_sessions =
    let values = ordered dates in
    let step = chosen_step step_sessions test in
    if leb_ℤ train (pos 0) || leb_ℤ validation (pos 0) || leb_ℤ test (pos 0) || leb_ℤ step (pos 0)
    then some (err (strategy_validation "walk-forward window sizes must be positive"))
    else let z : Sizes = record {
      train = pos_part train;
      validation = pos_part validation;
      test = pos_part test;
    } in
      elim (make_folds (suc (length values)) values z (pos_part step) 0 1) [
        | none ↦ none
        | some r ↦ some (r then_use no_folds)
      ]

abbrev pub is_increasing : List ℕ → Bool
is_increasing [] = true
is_increasing (x ∷ xs) = all (ltb x) xs && is_increasing xs

-- Each date lies before all that follow it.
abbrev pub IsIncreasing : List ℕ → Type 0
IsIncreasing values = is_increasing values ≡ true
