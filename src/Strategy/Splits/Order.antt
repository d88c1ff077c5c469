-- ===== src/Strategy/Splits/Order.antt =====
-- strategy/validation.py: the folds in the order of time.
use investing_agents.Prelude.{
  ℕ, suc, ◌+◌, ◌-◌, ◌*◌, ap, subst, ◌≤◌, ◌<◌, true, false, Option, some, List, length, get_elem?,
  leb, ◌≡◌, arith, inl, inr, Bool-cases, sym, ◌∙◌,
}
use investing_agents.Result.{ok}
use investing_agents.Int.{ℤ, pos, negsuc, pos_part, leb_ℤ}
use investing_agents.Strategy.Splits.{
  SplitWindow, is_chronological, Sizes, span, chosen_step, rolling_walk_forward_splits,
  IsIncreasing,
}
use investing_agents.Strategy.Splits.Windows.{
  IsPositive, day-increasing, window_at, window_at-is_chronological,
}
use investing_agents.Strategy.Splits.Folds.{IsWalkForward, splits_at_each_step}

later_start : (j k step : ℕ) → j < k → j * step + step ≤ k * step
later_start j k step order =
    let d = k - j - 1 in
    let same : k ≡ suc j + d = ground (arith, order) in
    let whole : (suc j + d) * step ≡ j * step + step + d * step = ground arith in
    ground (arith, ap (λ n. n * step) same, whole)

-- Two folds that are each in order of time, the later testing after all that the earlier used.
abbrev pub IsOrderedPair : SplitWindow → SplitWindow → Type 0
IsOrderedPair v w =
    (is_chronological v ≡ true) × (is_chronological w ≡ true) × (v.test_end < w.test_start)

folds-InOrder :
    (values : List ℕ) (z : Sizes) (step : ℕ) (folds : List SplitWindow)
    → IsIncreasing values
    → IsPositive z
    → IsWalkForward values z step folds
    → z.test ≤ step
    → (j k : ℕ) (v w : SplitWindow) → j < k
    → get_elem? folds j ≡ some v
    → get_elem? folds k ≡ some w
    → IsOrderedPair v w
folds-InOrder values z step folds h wide walk covers j k v w order hv hw =
    let ev = sym (walk j) ∙ hv in
    let ew = sym (walk k) ∙ hw in
    let later = later_start j k step order in
    elim (Bool-cases (leb (k * step + span z) (length values))) [
      | inr out ↦ absurd (ground (arith, ew, out))
      | inl fits ↦
          let fits_v : leb (j * step + span z) (length values) ≡ true =
            ground (arith, fits, later) in
          let vs : window_at values z (j * step) (j + 1) ≡ v = ground (arith, ev, fits_v) in
          let ws : window_at values z (k * step) (k + 1) ≡ w = ground (arith, ew, fits) in
          let apart =
            day-increasing values (j * step + span z - 1) (k * step + z.train + z.validation) h
              (ground (arith, later, covers, wide.test)) (ground (arith, fits, wide.test)) in
          subst (λ x. IsOrderedPair x w) vs
            (subst (IsOrderedPair (window_at values z (j * step) (j + 1))) ws (
              window_at-is_chronological values z (j * step) (j + 1) h wide
                  (ground (arith, fits_v)),
              window_at-is_chronological values z (k * step) (k + 1) h wide (ground (arith, fits)),
              apart,
            ))
    ]

-- Splits that are returned were asked for with positive sizes and step.
record ArePositive (train validation test : ℤ) (step : Option ℤ) : Type 0 where
  train_size : leb_ℤ train (pos 0) ≡ false
  validation_size : leb_ℤ validation (pos 0) ≡ false
  test_size : leb_ℤ test (pos 0) ≡ false
  step_size : leb_ℤ (chosen_step step test) (pos 0) ≡ false

returned-ArePositive :
    (ordered : List ℕ → List ℕ) (dates : List ℕ) (train validation test : ℤ) (step : Option ℤ)
    → (folds : List SplitWindow)
    → rolling_walk_forward_splits ordered dates train validation test step ≡ some (ok folds)
    → ArePositive train validation test step
unfolding rolling_walk_forward_splits
returned-ArePositive ordered dates train validation test step folds ran = record {
  train_size = ground (arith, ran);
  validation_size = ground (arith, ran);
  test_size = ground (arith, ran);
  step_size = ground (arith, ran);
}

returned-InOrder :
    (ordered : List ℕ → List ℕ) (dates : List ℕ) (train validation test : ℕ) (step : Option ℤ)
    → (folds : List SplitWindow) (j k : ℕ) (v w : SplitWindow) → IsIncreasing (ordered dates)
    → ArePositive (pos train) (pos validation) (pos test) step
    → rolling_walk_forward_splits ordered dates (pos train) (pos validation) (pos test) step
      ≡ some (ok folds)
    → test ≤ pos_part (chosen_step step (pos test))
    → j < k
    → get_elem? folds j ≡ some v
    → get_elem? folds k ≡ some w
    → IsOrderedPair v w
returned-InOrder ordered dates train validation test step folds j k v w h sizes ran covers =
    let p1 : 1 ≤ train = ground (arith, sizes.train_size) in
    let p2 : 1 ≤ validation = ground (arith, sizes.validation_size) in
    let p3 : 1 ≤ test = ground (arith, sizes.test_size) in
    let (made, walk, same) =
      splits_at_each_step ordered dates train validation test step h p1 p2 p3 sizes.step_size in
    let agree : made ≡ folds = ground (arith, ran, same) in
    let z : Sizes = record { train = train; validation = validation; test = test } in
    let n = pos_part (chosen_step step (pos test)) in
    folds-InOrder (ordered dates) z n folds h (record { train = p1; validation = p2; test = p3 })
      (subst (IsWalkForward (ordered dates) z n) agree walk) covers j k v w

-- Whatever the sizes and step that the splits were asked for with, over dates that sorting leaves
-- increasing: if folds are returned and the step is at least the size of the test window, which is
-- its default, then each of two folds is in order of time without overlap, and the later one tests
-- only on dates after all those that the earlier one trained, validated or tested on.
pub returned_folds_look_ahead_of_nothing :
    (ordered : List ℕ → List ℕ) (dates : List ℕ) (train validation test : ℤ) (step : Option ℤ)
    → (folds : List SplitWindow) (j k : ℕ) (v w : SplitWindow) → IsIncreasing (ordered dates)
    → rolling_walk_forward_splits ordered dates train validation test step ≡ some (ok folds)
    → pos_part test ≤ pos_part (chosen_step step test)
    → j < k
    → get_elem? folds j ≡ some v
    → get_elem? folds k ≡ some w
    → IsOrderedPair v w
returned_folds_look_ahead_of_nothing ordered dates train validation test step folds j k v w h ran =
    in_order train validation test
      (returned-ArePositive ordered dates train validation test step folds ran) ran
  where
    in_order :
        (a b c : ℤ)
        → ArePositive a b c step
        → rolling_walk_forward_splits ordered dates a b c step ≡ some (ok folds)
        → pos_part c ≤ pos_part (chosen_step step c)
        → j < k
        → get_elem? folds j ≡ some v
        → get_elem? folds k ≡ some w
        → IsOrderedPair v w
    in_order (pos a) (pos b) (pos c) sizes =
        returned-InOrder ordered dates a b c step folds j k v w h sizes
    in_order (negsuc a) b c sizes = absurd (ground (arith, sizes.train_size))
    in_order (pos a) (negsuc b) c sizes = absurd (ground (arith, sizes.validation_size))
    in_order (pos a) (pos b) (negsuc c) sizes = absurd (ground (arith, sizes.test_size))
