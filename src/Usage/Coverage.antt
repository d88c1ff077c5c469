-- ===== src/Usage/Coverage.antt =====
-- execution/usage_reserve.py: the tests on the windows of an admission, said of the windows
-- themselves.
use investing_agents.Prelude.{
  Bool, true, String, str_eq, eq_iff, List, [], ◌∷◌, map, all, Memᴰ, any_witness, any_of_witness,
  ◌≡◌, refl, arith, ap, sym, subst, ◌∙◌,
}
use investing_agents.Usage.{
  UsageWindow, UsageAdmission, contains, window_ids, has_primary, is_covered,
}

contains-Memᴰ : (x : String) (xs : List String) → contains x xs ≡ true → Memᴰ x xs
contains-Memᴰ x xs h =
    let (y, m, same) = any_witness (str_eq x) xs h in
    subst (λ t. Memᴰ t xs) (sym ((eq_iff x y).0 same)) m

Memᴰ-contains : (x : String) (xs : List String) → Memᴰ x xs → contains x xs ≡ true
Memᴰ-contains x xs m = any_of_witness (str_eq x) x xs m ((eq_iff x x).1 refl)

module _ {A : Type 0} (test : A → Bool) where
  all-Memᴰ : (x : A) (xs : List A) → all test xs ≡ true → Memᴰ x xs → test x ≡ true
  all-Memᴰ x [] h m = elim m [ ]
  all-Memᴰ x (y ∷ ys) h (Memᴰ.head e) = ap test e ∙ ground (arith, h)
  all-Memᴰ x (y ∷ ys) h (Memᴰ.tail m) = all-Memᴰ x ys (ground (arith, h)) m

  all_of_Memᴰ : (xs : List A) → ((x : A) → Memᴰ x xs → test x ≡ true) → all test xs ≡ true
  all_of_Memᴰ [] h = refl
  all_of_Memᴰ (x ∷ xs) h =
      ground (arith, h x (Memᴰ.head refl), all_of_Memᴰ xs (λ y m. h y (Memᴰ.tail m)))

abbrev id_of : UsageWindow → String
id_of w = w.window_id

ids-Memᴰ :
    (x : String) (ws : List UsageWindow)
    → Memᴰ x (map id_of ws)
    → (w : UsageWindow) × Memᴰ w ws × (w.window_id ≡ x)
ids-Memᴰ x [] m = elim m [ ]
ids-Memᴰ x (w ∷ ws) (Memᴰ.head e) = (w, Memᴰ.head refl, sym e)
ids-Memᴰ x (w ∷ ws) (Memᴰ.tail m) = let (v, n, same) = ids-Memᴰ x ws m in (v, Memᴰ.tail n, same)

Memᴰ-ids : (w : UsageWindow) (ws : List UsageWindow) → Memᴰ w ws → Memᴰ w.window_id (map id_of ws)
Memᴰ-ids w [] m = elim m [ ]
Memᴰ-ids w (v ∷ ws) (Memᴰ.head e) = Memᴰ.head (ap id_of e)
Memᴰ-ids w (v ∷ ws) (Memᴰ.tail m) = Memᴰ.tail (Memᴰ-ids w ws m)

-- The windows are exactly those that the source says are available, and one is primary.
pub record IsCovered (a : UsageAdmission) : Type 0 where
  pub primary : (w : UsageWindow) × Memᴰ w a.windows × (w.primary ≡ true)
  pub is_available : (w : UsageWindow) → Memᴰ w a.windows → Memᴰ w.window_id a.available_window_ids
  pub is_seen :
      (x : String)
      → Memᴰ x a.available_window_ids
      → (w : UsageWindow) × Memᴰ w a.windows × (w.window_id ≡ x)

pub has_primary-IsCovered :
    (a : UsageAdmission) → has_primary a ≡ true → is_covered a ≡ true → IsCovered a
has_primary-IsCovered a p h =
    let ids = a.available_window_ids in
    record {
      primary = any_witness (λ (w : UsageWindow). w.primary) a.windows p;
      is_available = λ w m. contains-Memᴰ w.window_id ids (
          all-Memᴰ (λ x. contains x ids) w.window_id (window_ids a) (ground (arith, h))
            (Memᴰ-ids w a.windows m));
      is_seen = λ x m. ids-Memᴰ x a.windows (
          contains-Memᴰ x (window_ids a)
            (all-Memᴰ (λ y. contains y (window_ids a)) x ids (ground (arith, h)) m));
    }

pub IsCovered-has_primary : (a : UsageAdmission) → IsCovered a → has_primary a ≡ true
IsCovered-has_primary a c =
    let (w, m, p) = c.primary in any_of_witness (λ (w : UsageWindow). w.primary) w a.windows m p

pub IsCovered-is_covered : (a : UsageAdmission) → IsCovered a → is_covered a ≡ true
IsCovered-is_covered a c =
    let ids = a.available_window_ids in
    let seen =
      all_of_Memᴰ (λ x. contains x (window_ids a)) ids
        (λ x m.
          let (w, n, same) = c.is_seen x m in
          Memᴰ-contains x (window_ids a)
            (subst (λ t. Memᴰ t (window_ids a)) same (Memᴰ-ids w a.windows n))) in
    let available =
      all_of_Memᴰ (λ x. contains x ids) (window_ids a)
        (λ x m.
          let (w, n, same) = ids-Memᴰ x a.windows m in
          Memᴰ-contains x ids (subst (λ t. Memᴰ t ids) same (c.is_available w n))) in
    ground (arith, seen, available)
