-- ===== src/Strategy/ExperimentRegistry/Latest.antt =====
-- strategy/registry.py: the promotion that decides.
use investing_agents.Prelude.{
  true, String, str_eq, eq_iff, some, List, [], ◌∷◌, ◌≡◌, refl, arith, inl, inr, ap, sym, ◌∙◌, Memᴰ,
  Bool-cases, Option-cases, ◌<◌, ◌⊎◌,
}
use mathlib.Core.Option.{some-injective}
use investing_agents.Result.{ok}
use investing_agents.Domain.Types.{Uuid}
use investing_agents.Strategy.Experiment.{ExperimentSpec, PromotionDecision}
use investing_agents.Strategy.ExperimentRegistry.{
  PromotionRow, RegistryTables, record_promotion, is_later, latest, latest_advisory_eligibility,
}

-- A stored promotion of a version.
record IsStored (version : String) (rows : List PromotionRow) (p : PromotionRow) : Type 0 where
  stored : Memᴰ p rows
  of_version : str_eq p.strategy_version version ≡ true

latest-cons :
    (version : String) (q : PromotionRow) (rows : List PromotionRow) (p : PromotionRow)
    → latest version (q ∷ rows) ≡ some p
    → ((p ≡ q) × (str_eq q.strategy_version version ≡ true)) ⊎ (latest version rows ≡ some p)
unfolding latest
latest-cons version q rows p h = elim (Bool-cases (str_eq q.strategy_version version)) [
  | inr other ↦ inr (ground (arith, h, other))
  | inl own ↦ elim (Option-cases (latest version rows)) [
    | inl first ↦
        let same : some q ≡ some p = ground (arith, h, own, first) in
        inl (sym (some-injective _ _ same), own)
    | inr (r, there) ↦ elim (Bool-cases (is_later r q)) [
      | inl later ↦ inr (ground (arith, h, own, there, later))
      | inr before ↦
          let same : some q ≡ some p = ground (arith, h, own, there, before) in
          inl (sym (some-injective _ _ same), own)
    ]
  ]
]

latest-IsStored :
    (version : String) (rows : List PromotionRow) (p : PromotionRow)
    → latest version rows ≡ some p
    → IsStored version rows p
unfolding latest
latest-IsStored version [] p h = absurd (ground arith)
latest-IsStored version (q ∷ rows) p h = elim (latest-cons version q rows p h) [
  | inl (e, own) ↦ record {
    stored = Memᴰ.head e;
    of_version = ap (λ (x : PromotionRow). str_eq x.strategy_version version) e ∙ own;
  }
  | inr older ↦
      let found = latest-IsStored version rows p older in
      record { stored = Memᴰ.tail found.stored; of_version = found.of_version }
]

-- When a promotion is recorded whose decision is later than every stored promotion of its version,
-- that decision is what the registry answers for the version.
pub record_promotion-latest :
    (spec : ExperimentSpec) (decision : PromotionDecision) (operator : String) (id : Uuid)
    → (t : RegistryTables) → (record_promotion spec decision operator id t).0 ≡ ok id
    → ((q : PromotionRow)
        → Memᴰ q t.promotions
        → str_eq q.strategy_version spec.strategy_version ≡ true
        → q.decided_at < decision.decided_at)
    → latest_advisory_eligibility spec.strategy_version
        (record_promotion spec decision operator id t).1
      ≡ decision.eligible
unfolding latest_advisory_eligibility latest record_promotion
record_promotion-latest spec decision operator id t ran newest =
    let version = spec.strategy_version in
    let own = (eq_iff version version).1 refl in
    elim (Option-cases (latest version t.promotions)) [
      | inl first ↦ ground (arith, ran, own, first)
      | inr (q, there) ↦
          let found = latest-IsStored version t.promotions q there in
          let before = newest q found.stored found.of_version in
          ground (arith, ran, own, there, before)
    ]
