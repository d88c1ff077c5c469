-- ===== src/Prelude.antt =====
-- The names that the other modules share: the libraries', passed on, Boolean tests on native
-- numbers, and the case splits on computed values.
use Prim.Native.Nat.{compare, Ordering}
pub use Prim.Native.Nat.{ℕ, zero, suc, ◌+◌, ◌-◌, ◌*◌, ◌/◌, ◌%◌, ◌^◌, ◌≤◌, ◌<◌}
pub use Prim.Native.String.{String}
pub use mathlib.Core.Path.{◌≡◌, refl, sym, ap, ◌∙◌, subst}
pub use mathlib.Core.Logic.{◌≢◌, ◌⊎◌, inl, inr}
pub use mathlib.Core.Bool.{Bool, true, false, not, ◌&&◌, ◌||◌}
pub use mathlib.Core.Option.{Option, none, some}
pub use mathlib.Core.List.{List, [], ◌∷◌, ◌++◌, map, Memᴰ}
pub use native.Mathlib.Omega.{arith}
pub use text.Mathlib.Text.{◌==◌ as str_eq}
pub use text.Mathlib.TextEquality.{eq_iff}

abbrev pub ⊤ : Type 0
⊤ = Unit

abbrev pub ltb : ℕ → ℕ → Bool
ltb a b = elim (compare a b) [ Ordering.lt ↦ true | _ ↦ false ]

abbrev pub leb : ℕ → ℕ → Bool
leb a b = elim (compare a b) [ Ordering.gt ↦ false | _ ↦ true ]

infix 50 ◌==◌
abbrev pub ◌==◌ : ℕ → ℕ → Bool
a == b = elim (compare a b) [ Ordering.eq ↦ true | _ ↦ false ]

infix 1 if◌then◌else◌
abbrev pub if◌then◌else◌ {ℓ} : {A : Type ℓ} → Bool → A → A → A
if true then x else y = x
if false then x else y = y

pub ==→eq : (a b : ℕ) → (a == b) ≡ true → a ≡ b
==→eq a b h = ground arith

pub ==-refl : (a : ℕ) → (a == a) ≡ true
==-refl a = ground arith

pub Bool-cases : (b : Bool) → (b ≡ true) ⊎ (b ≡ false)
Bool-cases true = inl refl
Bool-cases false = inr refl

pub Option-cases {ℓ} : {A : Type ℓ} (o : Option A) → (o ≡ none) ⊎ ((a : A) × (o ≡ some a))
Option-cases none = inl refl
Option-cases (some a) = inr (a, refl)

-- `value is None`
abbrev pub is_none {ℓ} : {A : Type ℓ} → Option A → Bool
is_none none = true
is_none (some _) = false

-- `value is not None`
abbrev pub is_some {ℓ} : {A : Type ℓ} → Option A → Bool
is_some none = false
is_some (some _) = true

module _ {ℓ} {A : Type ℓ} where
  abbrev pub length : List A → ℕ
  length [] = 0
  length (x ∷ xs) = suc (length xs)

  abbrev pub is_empty : List A → Bool
  is_empty [] = true
  is_empty (x ∷ xs) = false

  -- `any(test(x) for x in xs)`
  abbrev pub any : (A → Bool) → List A → Bool
  any test [] = false
  any test (x ∷ xs) = test x || any test xs

  -- `all(test(x) for x in xs)`
  abbrev pub all : (A → Bool) → List A → Bool
  all test [] = true
  all test (x ∷ xs) = test x && all test xs

  abbrev pub get_elem? : List A → ℕ → Option A
  get_elem? [] i = none
  get_elem? (x ∷ xs) zero = some x
  get_elem? (x ∷ xs) (suc i) = get_elem? xs i

  -- `[x for x in xs if test(x)]`
  abbrev pub keep : (A → Bool) → List A → List A
  keep test [] = []
  keep test (x ∷ xs) = if test x then x ∷ keep test xs else keep test xs

  -- A test that no item passes is failed by each, and one that each fails is passed by none.
  pub any-Memᴰ :
      (test : A → Bool) (x : A) (xs : List A) → any test xs ≡ false → Memᴰ x xs → test x ≡ false
  any-Memᴰ test x [] h m = elim m [ ]
  any-Memᴰ test x (y ∷ ys) h (Memᴰ.head e) = ground (arith, h, ap test e)
  any-Memᴰ test x (y ∷ ys) h (Memᴰ.tail m) = any-Memᴰ test x ys (ground (arith, h)) m

  pub any_of_Memᴰ :
      (test : A → Bool) (xs : List A) → ((x : A) → Memᴰ x xs → test x ≡ false) → any test xs ≡ false
  any_of_Memᴰ test [] h = refl
  any_of_Memᴰ test (x ∷ xs) h =
      ground (arith, h x (Memᴰ.head refl), any_of_Memᴰ test xs (λ y m. h y (Memᴰ.tail m)))

  pub keep-is_empty : (test : A → Bool) (xs : List A) → is_empty (keep test xs) ≡ not (any test xs)
  keep-is_empty test [] = refl
  keep-is_empty test (x ∷ xs) = ground (arith, keep-is_empty test xs)

  -- An item that passes a test is there exactly when some item passes it.
  pub any_witness :
      (test : A → Bool) (xs : List A) → any test xs ≡ true → (x : A) × Memᴰ x xs × (test x ≡ true)
  any_witness test [] h = absurd (cc)
  any_witness test (x ∷ xs) h = elim (Bool-cases (test x)) [
    | inl here ↦ (x, Memᴰ.head refl, here)
    | inr there ↦
        let (y, m, passes) = any_witness test xs (ground (arith, h, there)) in
        (y, Memᴰ.tail m, passes)
  ]

  pub any_of_witness :
      (test : A → Bool) (x : A) (xs : List A) → Memᴰ x xs → test x ≡ true → any test xs ≡ true
  any_of_witness test x [] m h = elim m [ ]
  any_of_witness test x (y ∷ ys) (Memᴰ.head e) h = ground (arith, h, ap test e)
  any_of_witness test x (y ∷ ys) (Memᴰ.tail m) h = ground (arith, any_of_witness test x ys m h)

  -- Equality of sequences, given equality of their items.
  abbrev pub same_list : (A → A → Bool) → List A → List A → Bool
  same_list same [] [] = true
  same_list same [] (y ∷ ys) = false
  same_list same (x ∷ xs) [] = false
  same_list same (x ∷ xs) (y ∷ ys) = same x y && same_list same xs ys

  abbrev pub same_option : (A → A → Bool) → Option A → Option A → Bool
  same_option same none none = true
  same_option same none (some _) = false
  same_option same (some _) none = false
  same_option same (some a) (some b) = same a b
