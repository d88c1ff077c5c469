-- ===== src/Table.antt =====
-- A SQLite table as the list of its rows, and the statements that the code runs on it: select by a
-- key, and update by a key.
use investing_agents.Prelude.{
  ℕ, ◌≡◌, refl, Bool, false, Option, none, some, List, [], ◌∷◌, ◌==◌, arith, if◌then◌else◌, any,
  is_some, map, Bool-cases, ==→eq, ap, inl, inr, ◌⊎◌,
}
use mathlib.Core.Option

module _ {R : Type 0} (key : R → ℕ) where
  -- `SELECT * FROM rows WHERE key = ?`, the first row
  unfoldable pub find : ℕ → List R → Option R
  find k [] = none
  find k (r ∷ rows) = if key r == k then some r else find k rows

  abbrev pub has : ℕ → List R → Bool
  has k rows = is_some (find k rows)

  -- `UPDATE rows SET … WHERE key = ?`
  unfoldable pub update : ℕ → (R → R) → List R → List R
  update k f [] = []
  update k f (r ∷ rows) = (if key r == k then f r else r) ∷ update k f rows

  pub find-key : (k : ℕ) (rows : List R) (r : R) → find k rows ≡ some r → key r ≡ k
  unfolding find
  find-key k [] r h = ground arith
  find-key k (x ∷ rows) r h = ground (arith, find-key k rows r)

  pub find-cons :
      (k : ℕ) (r : R) (rows : List R)
      → find k (r ∷ rows) ≡ (if key r == k then some r else find k rows)
  unfolding find
  find-cons k r rows = refl

  pub find-update :
      (j k : ℕ) (f : R → R) (rows : List R)
      → ((r : R) → key r ≡ k → key (f r) ≡ k)
      → find j (update k f rows) ≡ (if j == k then Option.map f (find k rows) else find j rows)
  unfolding find update
  find-update j k f [] keeps = ground arith
  find-update j k f (r ∷ rows) keeps = ground (arith, keeps r, find-update j k f rows keeps)

  -- A test that some row passes is failed by each row that is found.
  pub any-find :
      (test : R → Bool) (k : ℕ) (rows : List R) (r : R)
      → find k rows ≡ some r
      → any test rows ≡ false
      → test r ≡ false
  unfolding find
  any-find test k [] r h a = ground arith
  any-find test k (x ∷ rows) r h a = ground (arith, any-find test k rows r)

  pub find-map :
      (k : ℕ) (f : R → R) (rows : List R)
      → ((r : R) → key (f r) ≡ key r)
      → find k (map f rows) ≡ Option.map f (find k rows)
  unfolding find
  find-map k f [] keeps = refl
  find-map k f (r ∷ rows) keeps = ground (arith, keeps r, find-map k f rows keeps)

  -- A row in front with a key that was free hides no row.
  pub find-cons_kept :
      (k : ℕ) (new : R) (rows : List R) (r : R)
      → has (key new) rows ≡ false
      → find k rows ≡ some r
      → find k (new ∷ rows) ≡ some r
  find-cons_kept k new rows r free found = elim (Bool-cases (key new == k)) [
    | inl here ↦ absurd (ground (arith, found, ap (λ j. find j rows) (==→eq _ _ here)))
    | inr there ↦ rw (find-cons k new rows, there) found
  ]

  -- What is found after a row was put in front.
  pub find-cons_cases :
      (k : ℕ) (new : R) (rows : List R) (r : R)
      → find k (new ∷ rows) ≡ some r
      → (r ≡ new) ⊎ (find k rows ≡ some r)
  find-cons_cases k new rows r h = elim (Bool-cases (key new == k)) [
    | inl here ↦ inl (ground (arith, h, find-cons k new rows))
    | inr there ↦ inr (ground (arith, h, find-cons k new rows))
  ]

-- A value that no row has under one key is not that of a row found under another.
pub has-find :
    {R : Type 0} (key other : R → ℕ) (k j : ℕ) (rows : List R) (r : R)
    → has other j rows ≡ false
    → find key k rows ≡ some r
    → (other r == j) ≡ false
unfolding find
has-find key other k j [] r free h = absurd (ground arith)
has-find key other k j (x ∷ rows) r free h = ground (arith, free, h, has-find key other k j rows r)
