-- ===== src/Strategy/ExperimentRegistry/Lasting.antt =====
-- strategy/registry.py: what lasts in the registry, whatever is recorded after.
use investing_agents.Prelude.{
  true, false, String, str_eq, eq_iff, some, List, [], ◌∷◌, is_none, ◌≡◌, arith, inl, inr, ap, sym,
  ◌∙◌, subst, Memᴰ, Bool-cases, Option-cases,
}
use mathlib.Core.List.Memᴰ
use investing_agents.Result.{Result-cases}
use investing_agents.Table.{find, has, find-cons_kept, find-cons}
use investing_agents.Domain.Types.{Uuid, Digest}
use investing_agents.Strategy.Experiment.{ExperimentSpec, PromotionDecision}
use investing_agents.Strategy.ExperimentRegistry.{
  Disk, ExperimentRow, PromotionRow, RegistryTables, empty_registry, experiment_row_key,
  experiment_row_id, verified_artifact, row_of, record_experiment, promotion_of, record_promotion,
  is_file,
}

-- The methods that write. The disk may be another at each call.
pub data RegistryWrite : Type 0 where
  records : (ExperimentSpec → String) → Disk → ExperimentSpec → String → RegistryWrite
  promotes : ExperimentSpec → PromotionDecision → String → Uuid → RegistryWrite

unfoldable pub write : RegistryWrite → RegistryTables → RegistryTables
write (records payload disk spec path) t = (record_experiment payload disk spec path t).1
write (promotes spec decision operator id) t = (record_promotion spec decision operator id t).1

unfoldable pub write_all : List RegistryWrite → RegistryTables → RegistryTables
write_all [] t = t
write_all (w ∷ rest) t = write_all rest (write w t)

write_all-preserves :
    (P : RegistryTables → Type 0)
    → ((w : RegistryWrite) (t : RegistryTables) → P t → P (write w t))
    → (ws : List RegistryWrite) (t : RegistryTables) → P t
    → P (write_all ws t)
unfolding write_all
write_all-preserves P keeps [] t h = h
write_all-preserves P keeps (w ∷ rest) t h =
    write_all-preserves P keeps rest (write w t) (keeps w t h)

-- What one write changes.
data Written (t t' : RegistryTables) : Type 0 where
  nothing_written : t' ≡ t → Written t t'
  experiment_written :
      (row : ExperimentRow)
      → is_none (find experiment_row_key row.experiment_key t.experiments) ≡ true
      → has experiment_row_id row.experiment_id t.experiments ≡ false
      → t'.experiments ≡ row ∷ t.experiments
      → t'.promotions ≡ t.promotions
      → Written t t'
  promotion_written :
      (p : PromotionRow)
      → str_eq p.operator_id "" ≡ false
      → str_eq p.capability "advisory_only" ≡ true
      → has experiment_row_id p.promoted t.experiments ≡ true
      → t'.promotions ≡ p ∷ t.promotions
      → t'.experiments ≡ t.experiments
      → Written t t'

record_experiment-Written :
    (payload : ExperimentSpec → String) (disk : Disk) (spec : ExperimentSpec) (path : String)
    → (t : RegistryTables) → Written t (record_experiment payload disk spec path t).1
unfolding record_experiment
record_experiment-Written payload disk spec path t =
    elim (Result-cases (verified_artifact payload disk path spec)) [
      | inr (e, p) ↦ nothing_written (ground (arith, p))
      | inl (v, p) ↦
          elim (Option-cases (find experiment_row_key spec.experiment_key t.experiments)) [
            | inr (row, there) ↦ nothing_written (ground (arith, p, there))
            | inl absent ↦
                elim (Bool-cases (has experiment_row_id spec.experiment_id t.experiments)) [
                  | inl taken ↦ nothing_written (ground (arith, p, absent, taken))
                  | inr free ↦ elim (Bool-cases (is_file disk path)) [
                    | inr no_file ↦ nothing_written (ground (arith, no_file))
                    | inl file ↦
                        experiment_written (row_of payload disk spec path) (ground (arith, absent))
                          free (ground (arith, p, absent, free, file))
                          (ground (arith, p, absent, free, file))
                  ]
                ]
          ]
    ]

record_promotion-Written :
    (spec : ExperimentSpec) (decision : PromotionDecision) (operator : String) (id : Uuid)
    → (t : RegistryTables) → Written t (record_promotion spec decision operator id t).1
unfolding record_promotion
record_promotion-Written spec decision operator id t =
    elim (Result-cases (record_promotion spec decision operator id t).0) [
      | inr (e, p) ↦ nothing_written (ground (arith, p))
      | inl (x, p) ↦
          promotion_written (promotion_of spec decision operator id) (ground (arith, p))
            (ground (arith, p)) (ground (arith, p)) (ground (arith, p)) (ground (arith, p))
    ]

write-Written : (w : RegistryWrite) (t : RegistryTables) → Written t (write w t)
unfolding write
write-Written (records payload disk spec path) t =
    record_experiment-Written payload disk spec path t
write-Written (promotes spec decision operator id) t =
    record_promotion-Written spec decision operator id t

Written-kept :
    (t t' : RegistryTables) (key : Digest) (row : ExperimentRow)
    → Written t t'
    → find experiment_row_key key t.experiments ≡ some row
    → find experiment_row_key key t'.experiments ≡ some row
Written-kept t t' key row (nothing_written same) h =
    ap (λ (x : RegistryTables). find experiment_row_key key x.experiments) same ∙ h
Written-kept t t' key row (experiment_written new absent _ same _) h =
    ap (find experiment_row_key key) same
    ∙ find-cons_kept experiment_row_key key new t.experiments row (ground (arith, absent)) h
Written-kept t t' key row (promotion_written _ _ _ _ _ same) h =
    ap (find experiment_row_key key) same ∙ h

-- An experiment that is registered stays registered under its key, with the identity,
-- specification, artifact and digest of its first record, whatever is written after.
pub registered_experiment_stays :
    (ws : List RegistryWrite) (t : RegistryTables) (key : Digest) (row : ExperimentRow)
    → find experiment_row_key key t.experiments ≡ some row
    → find experiment_row_key key (write_all ws t).experiments ≡ some row
registered_experiment_stays ws t key row =
    write_all-preserves (λ x. find experiment_row_key key x.experiments ≡ some row)
      (λ w x. Written-kept x (write w x) key row (write-Written w x)) ws t

-- A promotion of a registered experiment to advisory use, by someone.
pub record IsBound (t : RegistryTables) (p : PromotionRow) : Type 0 where
  pub by_someone : str_eq p.operator_id "" ≡ false
  pub advisory : p.capability ≡ "advisory_only"
  pub known : has experiment_row_id p.promoted t.experiments ≡ true

abbrev AllBound : RegistryTables → Type 0
AllBound t = (p : PromotionRow) → Memᴰ p t.promotions → IsBound t p

has-cons :
    (k : Uuid) (row : ExperimentRow) (rows : List ExperimentRow)
    → has experiment_row_id k rows ≡ true
    → has experiment_row_id k (row ∷ rows) ≡ true
has-cons k row rows h = ground (arith, h, find-cons experiment_row_id k row rows)

IsBound-kept :
    (t t' : RegistryTables) (p : PromotionRow)
    → ((k : Uuid)
        → has experiment_row_id k t.experiments ≡ true
        → has experiment_row_id k t'.experiments ≡ true)
    → IsBound t p
    → IsBound t' p
IsBound-kept t t' p keeps b = record {
  by_someone = b.by_someone;
  advisory = b.advisory;
  known = keeps p.promoted b.known;
}

Written-AllBound : (t t' : RegistryTables) → Written t t' → AllBound t → AllBound t'
Written-AllBound t t' (nothing_written same) all p m = subst AllBound (sym same) all p m
Written-AllBound t t' (experiment_written row _ _ rows kept) all p m =
    IsBound-kept t t' p (λ k h. ap (has experiment_row_id k) rows ∙ has-cons k row t.experiments h)
      (all p (subst (Memᴰ p) kept m))
Written-AllBound t t' (promotion_written new someone advisory known rows kept) all p m =
    let same : (k : Uuid)
        → has experiment_row_id k t.experiments ≡ true
        → has experiment_row_id k t'.experiments ≡ true =
      λ k h. ap (has experiment_row_id k) kept ∙ h in
    elim (Memᴰ.cases_cons (subst (Memᴰ p) rows m)) [
      | inr old ↦ IsBound-kept t t' p same (all p old)
      | inl e ↦ subst (IsBound t') (sym e) (record {
        by_someone = someone;
        advisory = (eq_iff new.capability "advisory_only").0 advisory;
        known = same new.promoted known;
      })
    ]

-- After any writes on an empty registry, returned or raised, every stored promotion names an
-- operator, grants advisory use only, and is of an experiment that is registered.
pub promotion_IsBound :
    (ws : List RegistryWrite) (p : PromotionRow)
    → Memᴰ p (write_all ws empty_registry).promotions
    → IsBound (write_all ws empty_registry) p
promotion_IsBound ws =
    write_all-preserves AllBound (λ w t. Written-AllBound t (write w t) (write-Written w t)) ws
      empty_registry (λ p m. elim m [ ])
