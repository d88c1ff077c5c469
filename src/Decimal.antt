-- ===== src/Decimal.antt =====
-- Python's finite `decimal.Decimal` with exact arithmetic: a coefficient and a number of decimal
-- places. The modelled code chooses a context precision that makes its sums and products exact.
-- Equality and order are numerical, as Python's are: 1.0 equals 1.00.
pub mod Order
use investing_agents.Prelude.{ℕ, ◌+◌, ◌^◌, Bool, ◌≡◌, refl, true, List, [], ◌∷◌}
use investing_agents.Int.{ℤ, pos, negsuc, ◌+ℤ◌, ◌-ℤ◌, ◌*ℤ◌, ltb_ℤ, leb_ℤ, eqb_ℤ}

pub record Decimal : Type 0 where
  pub coefficient : ℤ
  pub places : ℕ

-- The coefficient of `d` at `extra` more places.
abbrev pub lifted : Decimal → ℕ → ℤ
lifted d extra = d.coefficient *ℤ pos (10 ^ extra)

abbrev pub whole : ℕ → Decimal
whole n = record { coefficient = pos n; places = 0 }

abbrev pub zero_decimal : Decimal
zero_decimal = whole 0

unfoldable pub add : Decimal → Decimal → Decimal
add a b = record {
  coefficient = lifted a b.places +ℤ lifted b a.places;
  places = a.places + b.places;
}

unfoldable pub sub : Decimal → Decimal → Decimal
sub a b = record {
  coefficient = lifted a b.places -ℤ lifted b a.places;
  places = a.places + b.places;
}

unfoldable pub mul : Decimal → Decimal → Decimal
mul a b = record { coefficient = a.coefficient *ℤ b.coefficient; places = a.places + b.places }

abbrev pub magnitude : ℤ → ℤ
magnitude (pos n) = pos n
magnitude (negsuc n) = pos (n + 1)

unfoldable pub absolute : Decimal → Decimal
absolute a = record { coefficient = magnitude a.coefficient; places = a.places }

unfoldable pub negate : Decimal → Decimal
negate a = record { coefficient = pos 0 -ℤ a.coefficient; places = a.places }

abbrev pub lt : Decimal → Decimal → Bool
lt a b = ltb_ℤ (lifted a b.places) (lifted b a.places)

abbrev pub le : Decimal → Decimal → Bool
le a b = leb_ℤ (lifted a b.places) (lifted b a.places)

abbrev pub eq : Decimal → Decimal → Bool
eq a b = eqb_ℤ (lifted a b.places) (lifted b a.places)

abbrev pub is_positive : Decimal → Bool
is_positive a = ltb_ℤ (pos 0) a.coefficient

abbrev pub is_negative : Decimal → Bool
is_negative a = ltb_ℤ a.coefficient (pos 0)

-- `sum(values, Decimal("0"))`
unfoldable pub total : List Decimal → Decimal
unfolding add
total [] = zero_decimal
total (d ∷ ds) = add d (total ds)

numerical_equality : eq (record { coefficient = pos 10; places = 1 }) (whole 1) ≡ true
unfolding ◌*ℤ◌
numerical_equality = refl
