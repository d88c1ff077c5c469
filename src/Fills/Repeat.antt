-- ===== src/Fills/Repeat.antt =====
-- execution/fill_ingestion.py: a batch that is staged, and staged again.
use investing_agents.Prelude.{
  Bool, true, false, ◌||◌, str_eq, some, List, [], ◌∷◌, ◌++◌, any, ◌≡◌, refl, arith, ◌⊎◌, ap, sym,
  ◌∙◌, subst, inl, inr, Memᴰ, Option-cases,
}
use mathlib.Core.List.{append-nil, append_assoc}
use mathlib.Core.List.Memᴰ
use investing_agents.Result.{Error, ok, err, Result-cases}
use investing_agents.Domain.Types.{demo, same_environment, same_environment-eq}
use investing_agents.Fills.{
  BrokerExecution, Fill, FillTable, FillFile, staged, Staging, fill_of, same_fill, fill_named,
  ids_differ, stage_each, has_amount, with_columns, existing_table, stage_broker_executions,
}
use investing_agents.Fills.Columns.{
  HasRow, HaveDistinctIds, same_fill-AgreesWith, fill_named-Memᴰ, ids_differ-HaveDistinctIds,
}
use investing_agents.Fills.Agreement.{same_fill_refl, fill_named-append, fill_named-new}

-- A Demo execution of a mapped instrument that a table has a row for, by the code's own tests.
record IsStaged (g : Staging) (fills : List Fill) (x : BrokerExecution) : Type 0 where
  of_demo : same_environment x.environment demo ≡ true
  mapped : str_eq (g.ticker_of x.broker_instrument_id) "" ≡ false
  row : Fill
  found : fill_named (fill_of g x).fill_id fills ≡ some row
  agrees : same_fill row (fill_of g x) ≡ true

IsStaged-append :
    (g : Staging) (known new : List Fill) (x : BrokerExecution)
    → IsStaged g known x
    → IsStaged g (known ++ new) x
IsStaged-append g known new x s = record {
  of_demo = s.of_demo;
  mapped = s.mapped;
  row = s.row;
  found = fill_named-append (fill_of g x).fill_id known new s.row s.found;
  agrees = s.agrees;
}

-- What the loop leaves: the rows that were known with new ones after them, and every execution
-- staged.
record HasStaged (g : Staging) (xs : List BrokerExecution) (known out : List Fill) : Type 0 where
  new : List Fill
  kept : out ≡ known ++ new
  all_staged : (x : BrokerExecution) → Memᴰ x xs → IsStaged g out x

module _ (g : Staging) where
  HasStaged-cons :
      (x : BrokerExecution) (xs : List BrokerExecution) (known out : List Fill)
      → IsStaged g known x
      → HasStaged g xs known out
      → HasStaged g (x ∷ xs) known out
  HasStaged-cons x xs known out first rest = record {
    new = rest.new;
    kept = rest.kept;
    all_staged = λ y m. elim (Memᴰ.cases_cons m) [
      | inl e ↦ subst (IsStaged g out) (sym e) (
          subst (λ fills. IsStaged g fills x) (sym rest.kept)
            (IsStaged-append g known rest.new x first))
      | inr later ↦ rest.all_staged y later
    ];
  }

  HasStaged-after :
      (xs : List BrokerExecution) (known out : List Fill) (f : Fill)
      → HasStaged g xs (known ++ f ∷ []) out
      → HasStaged g xs known out
  HasStaged-after xs known out f h = record {
    new = f ∷ h.new;
    kept = h.kept ∙ append_assoc known (f ∷ []) h.new;
    all_staged = h.all_staged;
  }

  HasStaged-appended :
      (x : BrokerExecution) (xs : List BrokerExecution) (known out : List Fill)
      → IsStaged g (known ++ fill_of g x ∷ []) x
      → HasStaged g xs (known ++ fill_of g x ∷ []) out
      → HasStaged g (x ∷ xs) known out
  HasStaged-appended x xs known out first rest =
      HasStaged-after (x ∷ xs) known out (fill_of g x)
        (HasStaged-cons x xs (known ++ fill_of g x ∷ []) out first rest)

  stage_each-HasStaged :
      (xs : List BrokerExecution) (known out : List Fill)
      → stage_each g xs known ≡ ok out
      → HasStaged g xs known out
  unfolding stage_each
  stage_each-HasStaged [] known out h =
      let same : known ≡ out = ground (arith, h) in
      record { new = []; kept = sym same ∙ sym (append-nil known); all_staged = λ x m. elim m [ ] }
  stage_each-HasStaged (x ∷ xs) known out h =
      let f = fill_of g x in
      elim (Option-cases (fill_named f.fill_id known)) [
        | inl fresh ↦
            HasStaged-appended x xs known out
              (record {
                of_demo = ground (arith, h, fresh);
                mapped = ground (arith, h, fresh);
                row = f;
                found = fill_named-new known f fresh;
                agrees = same_fill_refl f;
              })
              (stage_each-HasStaged xs (known ++ f ∷ []) out (ground (arith, h, fresh)))
        | inr (old, there) ↦
            HasStaged-cons x xs known out
              (record {
                of_demo = ground (arith, h, there);
                mapped = ground (arith, h, there);
                row = old;
                found = there;
                agrees = ground (arith, h, there);
              })
              (stage_each-HasStaged xs known out (ground (arith, h, there)))
      ]

  -- A batch whose executions are all staged adds nothing.
  staged-stage_each :
      (xs : List BrokerExecution) (known : List Fill)
      → ((x : BrokerExecution) → Memᴰ x xs → IsStaged g known x)
      → stage_each g xs known ≡ ok known
  unfolding stage_each
  staged-stage_each [] known all = refl
  staged-stage_each (x ∷ xs) known all =
      let s = all x (Memᴰ.head refl) in
      let rest = staged-stage_each xs known (λ y m. all y (Memᴰ.tail m)) in
      ground (arith, s.of_demo, s.mapped, s.found, s.agrees, rest)

-- What a staging that returned has found and left.
record IsDone (g : Staging) (xs : List BrokerExecution) (file : FillFile) (t : FillTable)
    : Type 0 where
  old : FillTable
  there : existing_table file ≡ ok old
  looped : stage_each g xs old.fills ≡ ok t.fills
  differ : ids_differ t.fills ≡ true
  columns : t.has_amounts ≡ (old.has_amounts || any has_amount xs)
  left : (stage_broker_executions g xs file).1 ≡ staged t

stage-IsDone :
    (g : Staging) (xs : List BrokerExecution) (file : FillFile) (t : FillTable)
    → (stage_broker_executions g xs file).0 ≡ ok t
    → IsDone g xs file t
unfolding stage_broker_executions
stage-IsDone g xs file t h = elim (Result-cases (existing_table file)) [
  | inr (e, bad) ↦ absurd (ground (arith, h, bad))
  | inl (old, there) ↦ elim (Result-cases (stage_each g xs old.fills)) [
    | inr (e, bad) ↦ absurd (ground (arith, h, there, bad))
    | inl (out, looped) ↦
        let made : with_columns (old.has_amounts || any has_amount xs) out ≡ t =
          ground (arith, h, there, looped) in
        record {
          old = old;
          there = there;
          looped = looped ∙ ap (λ (x : FillTable). ok x.fills) made;
          differ =
              ground (arith, h, there, looped, ap (λ (x : FillTable). ids_differ x.fills) made);
          columns = sym (ap (λ (x : FillTable). x.has_amounts) made);
          left = ground (arith, h, there, looped, made);
        }
  ]
]

stage-raised :
    (g : Staging) (xs : List BrokerExecution) (file : FillFile) (e : Error)
    → (stage_broker_executions g xs file).0 ≡ err e
    → (stage_broker_executions g xs file).1 ≡ file
unfolding stage_broker_executions
stage-raised g xs file e h = ground (arith, h)

restaged :
    (g : Staging) (xs : List BrokerExecution) (t : FillTable) (before : Bool)
    → ids_differ t.fills ≡ true
    → stage_each g xs t.fills ≡ ok t.fills
    → t.has_amounts ≡ (before || any has_amount xs)
    → stage_broker_executions g xs (staged t) ≡ (ok t, staged t)
unfolding stage_broker_executions
restaged g xs t before differ again columns =
    let same : (t.has_amounts || any has_amount xs) ≡ t.has_amounts = ground (arith, columns) in
    let whole : with_columns (t.has_amounts || any has_amount xs) t.fills ≡ t =
      ap (λ b. with_columns b t.fills) same in
    ground (arith, differ, again, whole)

IsStaged-HasRow :
    (g : Staging) (fills : List Fill) (x : BrokerExecution) → IsStaged g fills x → HasRow g fills x
IsStaged-HasRow g fills x s = record {
  of_demo = same_environment-eq x.environment demo s.of_demo;
  mapped = s.mapped;
  row = s.row;
  there = fill_named-Memᴰ (fill_of g x).fill_id fills s.row s.found;
  agrees = same_fill-AgreesWith g s.row x s.agrees;
}

-- A batch that is staged leaves in the file the table that is returned: the rows that were there, as
-- they were and in their place, with new rows after them, where no two rows have one identity; and
-- each execution of the batch is of the Demo environment, of a mapped instrument, and has a row
-- that agrees with it in each of the twenty columns, numbers numerically and the others exactly. A
-- staging that raised leaves the file as it was.
pub staging_keeps_and_agrees :
    (g : Staging) (xs : List BrokerExecution) (file : FillFile)
    → ((t : FillTable) × ((stage_broker_executions g xs file).0 ≡ ok t)
        × ((stage_broker_executions g xs file).1 ≡ staged t)
        × HaveDistinctIds t.fills
        × ((x : BrokerExecution) → Memᴰ x xs → HasRow g t.fills x)
        × ((old : FillTable) × (new : List Fill) × (existing_table file ≡ ok old)
            × (t.fills ≡ old.fills ++ new)))
      ⊎ ((e : Error) × ((stage_broker_executions g xs file).0 ≡ err e)
          × ((stage_broker_executions g xs file).1 ≡ file))
staging_keeps_and_agrees g xs file = elim (Result-cases (stage_broker_executions g xs file).0) [
  | inr (e, h) ↦ inr (e, h, stage-raised g xs file e h)
  | inl (t, h) ↦
      let d = stage-IsDone g xs file t h in
      let s = stage_each-HasStaged g xs d.old.fills t.fills d.looped in
      inl (
        t,
        h,
        d.left,
        ids_differ-HaveDistinctIds t.fills d.differ,
        (λ x m. IsStaged-HasRow g t.fills x (s.all_staged x m)),
        (d.old, s.new, d.there, s.kept),
      )
]

-- A batch that was staged can be staged again: the same table is returned and the file stays.
pub staging_again_changes_nothing :
    (g : Staging) (xs : List BrokerExecution) (file : FillFile) (t : FillTable)
    → (stage_broker_executions g xs file).0 ≡ ok t
    → stage_broker_executions g xs (stage_broker_executions g xs file).1 ≡ (ok t, staged t)
staging_again_changes_nothing g xs file t h =
    let d = stage-IsDone g xs file t h in
    let s = stage_each-HasStaged g xs d.old.fills t.fills d.looped in
    let again = staged-stage_each g xs t.fills s.all_staged in
    ap (stage_broker_executions g xs) d.left
    ∙ restaged g xs t d.old.has_amounts d.differ again d.columns
