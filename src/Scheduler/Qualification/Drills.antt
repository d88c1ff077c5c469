-- ===== src/Scheduler/Qualification/Drills.antt =====
-- scheduler/qualification.py: lists that tests keep whole, and the fault drills.
use investing_agents.Prelude.{
  ◌≤◌, Bool, true, false, not, String, str_eq, eq_iff, List, [], ◌∷◌, map, any, keep, length,
  is_empty, Memᴰ, any-Memᴰ, any_of_Memᴰ, any_witness, any_of_witness, keep-is_empty, ◌≡◌, refl,
  arith, ap, Bool-cases, inl, inr,
}
use mathlib.Core.List.Memᴰ
use investing_agents.Scheduler.Tables.{FaultDrill}
use investing_agents.Scheduler.Qualification.{
  passed_named, missing_drills, is_failed_of, failed_drills,
}

module _ {A : Type 0} (test : A → Bool) where
  length-keep_le : (xs : List A) → length (keep test xs) ≤ length xs
  length-keep_le [] = ground arith
  length-keep_le (x ∷ xs) = ground (arith, length-keep_le xs)

  -- Nothing is dropped exactly when each item passes.
  pub keep_all : (xs : List A) → length (keep test xs) ≡ length xs → keep test xs ≡ xs
  keep_all [] h = refl
  keep_all (x ∷ xs) h = ground (arith, h, length-keep_le xs, keep_all xs)

  pub all_kept :
      (x : A) (xs : List A) → length (keep test xs) ≡ length xs → Memᴰ x xs → test x ≡ true
  all_kept x [] h m = elim m [ ]
  all_kept x (y ∷ ys) h (Memᴰ.head e) = ground (arith, h, length-keep_le ys, ap test e)
  all_kept x (y ∷ ys) h (Memᴰ.tail m) = all_kept x ys (ground (arith, h, length-keep_le ys)) m

  pub kept_of_all : (xs : List A) → ((x : A) → Memᴰ x xs → test x ≡ true) → keep test xs ≡ xs
  kept_of_all [] h = refl
  kept_of_all (x ∷ xs) h =
      ground (arith, h x (Memᴰ.head refl), kept_of_all xs (λ y m. h y (Memᴰ.tail m)))

pub map-is_empty : {A B : Type 0} (f : A → B) (xs : List A) → is_empty (map f xs) ≡ is_empty xs
map-is_empty f [] = refl
map-is_empty f (x ∷ xs) = refl

pub kept_none :
    {A : Type 0} (test : A → Bool) (xs : List A)
    → is_empty (keep test xs) ≡ true
    → any test xs ≡ false
kept_none test xs h = ground (arith, h, keep-is_empty test xs)

-- A required drill that is not missing has a row that passed, and conversely.
pub drilled-row :
    (required : List String) (drills : List FaultDrill) (name : String)
    → is_empty (missing_drills required drills) ≡ true
    → Memᴰ name required
    → (d : FaultDrill) × Memᴰ d drills × (d.drill_name ≡ name) × (d.passed ≡ true)
drilled-row required drills name h m =
    let missing = λ (n : String). not (any (passed_named n) drills) in
    let present = any-Memᴰ missing name required (kept_none missing required h) m in
    let (d, there, passes) = any_witness (passed_named name) drills (ground (arith, present)) in
    (d, there, (eq_iff d.drill_name name).0 (ground (arith, passes)), ground (arith, passes))

pub none_missing :
    (required : List String) (drills : List FaultDrill)
    → ((name : String)
        → Memᴰ name required
        → (d : FaultDrill) × Memᴰ d drills × (d.drill_name ≡ name) × (d.passed ≡ true))
    → is_empty (missing_drills required drills) ≡ true
none_missing required drills rows =
    let missing = λ (n : String). not (any (passed_named n) drills) in
    let present : (name : String) → Memᴰ name required → missing name ≡ false = λ name m.
      let (d, there, named, passed) = rows name m in
      let passes : passed_named name d ≡ true =
        ground (arith, (eq_iff d.drill_name name).1 named, passed) in
      let found = any_of_witness (passed_named name) d drills there passes in
      ground (arith, found) in
    ground (arith, keep-is_empty missing required, any_of_Memᴰ missing required present)

pub unfailed-row :
    (required : List String) (drills : List FaultDrill) (d : FaultDrill)
    → is_empty (failed_drills required drills) ≡ true
    → Memᴰ d drills
    → Memᴰ d.drill_name required
    → d.passed ≡ true
unfailed-row required drills d h m needed =
    let none_kept : is_empty (keep (is_failed_of required) drills) ≡ true = ground (
      arith,
      h,
      map-is_empty (λ (x : FaultDrill). x.drill_name) (keep (is_failed_of required) drills),
    ) in
    let fine =
      any-Memᴰ (is_failed_of required) d drills (kept_none (is_failed_of required) drills none_kept)
        m in
    let listed =
      any_of_witness (str_eq d.drill_name) d.drill_name required needed
        ((eq_iff d.drill_name d.drill_name).1 refl) in
    ground (arith, fine, listed)

pub none_failed :
    (required : List String) (drills : List FaultDrill)
    → ((d : FaultDrill) → Memᴰ d drills → Memᴰ d.drill_name required → d.passed ≡ true)
    → is_empty (failed_drills required drills) ≡ true
none_failed required drills rows =
    let fine : (d : FaultDrill) → Memᴰ d drills → is_failed_of required d ≡ false = λ d m.
      elim (Bool-cases (any (str_eq d.drill_name) required)) [
        | inr unlisted ↦ ground (arith, unlisted)
        | inl listed ↦
            let (name, there, same) = any_witness (str_eq d.drill_name) required listed in
            let passed = rows d m (Memᴰ.cast ((eq_iff d.drill_name name).0 same) there) in
            ground (arith, passed)
      ] in
    ground (
      arith,
      map-is_empty (λ (x : FaultDrill). x.drill_name) (keep (is_failed_of required) drills),
      keep-is_empty (is_failed_of required) drills,
      any_of_Memᴰ (is_failed_of required) drills fine,
    )
