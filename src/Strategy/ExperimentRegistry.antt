-- ===== src/Strategy/ExperimentRegistry.antt =====
-- strategy/registry.py: the registry of experiments and promotions. The disk is a value: what a path
-- holds as a manifest, and the digest of a file. The canonical JSON of a specification is a parameter.
pub mod Lasting
pub mod Latest
use investing_agents.Prelude.{
  ℕ, ⊤, Bool, true, false, not, ◌&&◌, ◌||◌, ◌==◌, String, str_eq, Option, none, some, List, [], ◌∷◌,
  any, all, keep, ltb, is_none, is_some, if◌then◌else◌,
}
use investing_agents.Result.{Result, ok, err, Action, registry_error, integrity_error}
use investing_agents.Table.{find, has}
use investing_agents.Domain.Types.{Uuid, Digest, Instant}
use investing_agents.Strategy.Experiment.{ExperimentSpec, PromotionDecision}

-- A line of a manifest's list of evidence: a file name and its digest.
abbrev pub Evidence : Type 0
Evidence = String × Digest

-- A manifest, as far as it is read; what is not there or not of its type is missing.
pub record Manifest : Type 0 where
  pub manifest_key : Digest
  pub manifest_id : Uuid
  pub spec_payload : String
  pub metrics : Option String
  pub artifacts : Option (List Evidence)

-- `file_digest` is of a file at a path, `plain_name` says that a name is its own last part, and
-- `beside` is the path of a name in the directory of another path.
pub record Disk : Type 0 where
  pub manifest_at : String → Option Manifest
  pub file_digest : String → Option Digest
  pub plain_name : String → Bool
  pub beside : String → String → String

abbrev pub is_file : Disk → String → Bool
is_file disk path = is_some (disk.file_digest path)

abbrev pub has_digest : Disk → String → Digest → Bool
has_digest disk path digest = elim (disk.file_digest path) [ none ↦ false | some d ↦ d == digest ]

abbrev pub is_bad_name : Disk → List String → String → Bool
is_bad_name disk names name =
    str_eq name ""
    || not (disk.plain_name name)
    || str_eq name "."
    || str_eq name ".."
    || str_eq name "experiment.json"
    || any (str_eq name) names

-- The loop over the evidence of a manifest.
unfoldable pub check_evidence : Disk → String → List String → List Evidence → Result ⊤
check_evidence disk path names [] = ok tt
check_evidence disk path names ((name, digest) ∷ rest) =
    let checked = check_evidence disk path (name ∷ names) rest in
    if is_bad_name disk names name
    then err (registry_error "invalid experiment evidence filename")
    else if not (has_digest disk (disk.beside path name) digest)
    then err (registry_error "experiment evidence integrity failed")
    else checked

-- What `_verified_artifact` returns: the text of the metrics, and the evidence.
abbrev pub Verified : Type 0
Verified = String × List Evidence

unfoldable pub verified_artifact :
    (ExperimentSpec → String) → Disk → String → ExperimentSpec → Result Verified
verified_artifact payload disk path spec = elim (disk.manifest_at path) [
  | none ↦ err (registry_error "experiment artifact is missing or malformed")
  | some m ↦
      if not (m.manifest_key == spec.experiment_key)
        || not (m.manifest_id == spec.experiment_id)
        || not (str_eq m.spec_payload (payload spec))
      then err (registry_error "experiment artifact identity collision")
      else elim m.metrics [
        | none ↦ err (registry_error "experiment artifact metrics are missing")
        | some metrics ↦ elim m.artifacts [
          | none ↦ err (registry_error "experiment artifact evidence list is missing")
          | some evidence ↦ elim (check_evidence disk path [] evidence) [
            | err e ↦ err e
            | ok _ ↦ ok (metrics, evidence)
          ]
        ]
      ]
]

pub record ExperimentRow : Type 0 where
  pub experiment_id : Uuid
  pub experiment_key : Digest
  pub strategy_version : String
  pub payload_json : String
  pub artifact_path : String
  pub artifact_sha256 : Option Digest

pub record PromotionRow : Type 0 where
  pub promotion_id : Uuid
  pub promoted : Uuid
  pub strategy_version : String
  pub eligible : Bool
  pub capability : String
  pub operator_id : String
  pub decided_at : Instant

pub record RegistryTables : Type 0 where
  pub experiments : List ExperimentRow
  pub promotions : List PromotionRow

abbrev pub empty_registry : RegistryTables
empty_registry = record { experiments = []; promotions = [] }

abbrev pub experiment_row_key : ExperimentRow → Digest
experiment_row_key r = r.experiment_key

abbrev pub experiment_row_id : ExperimentRow → Uuid
experiment_row_id r = r.experiment_id

abbrev pub promotion_key : PromotionRow → Uuid
promotion_key p = p.promotion_id

abbrev pub is_stable : Evidence → Bool
is_stable (name, _) = str_eq name "historical_prices.csv" || str_eq name "walk_forward.csv"

-- Each line of a list of evidence is in another, by name and digest.
abbrev pub all_in : List Evidence → List Evidence → Bool
all_in xs ys = all (λ (x : Evidence). any (λ (y : Evidence). str_eq x.0 y.0 && x.1 == y.1) ys) xs

-- `==` of the dictionaries of the stable evidence; names are not repeated in verified evidence.
abbrev pub same_stable : List Evidence → List Evidence → Bool
same_stable xs ys =
    all_in (keep is_stable xs) (keep is_stable ys) && all_in (keep is_stable ys) (keep is_stable xs)

-- What `record` does when the key is stored already.
unfoldable pub check_existing :
    (ExperimentSpec → String) → Disk → ExperimentSpec → Verified → ExperimentRow → Result ⊤
check_existing payload disk spec (metrics, evidence) row =
    if not (str_eq row.payload_json (payload spec))
    then err (registry_error "immutable experiment changed")
    else if not
        (elim row.artifact_sha256 [ none ↦ false | some d ↦ has_digest disk row.artifact_path d ])
    then err (registry_error "registered experiment artifact integrity failed")
    else elim (verified_artifact payload disk row.artifact_path spec) [
      | err e ↦ err e
      | ok (previous_metrics, previous_evidence) ↦
          if not (str_eq previous_metrics metrics)
          then err (registry_error "immutable experiment metrics changed")
          else if not (same_stable previous_evidence evidence)
          then err (registry_error "immutable experiment replay evidence changed")
          else ok tt
    ]

abbrev pub row_of : (ExperimentSpec → String) → Disk → ExperimentSpec → String → ExperimentRow
row_of payload disk spec path = record {
  experiment_id = spec.experiment_id;
  experiment_key = spec.experiment_key;
  strategy_version = spec.strategy_version;
  payload_json = payload spec;
  artifact_path = path;
  artifact_sha256 = disk.file_digest path;
}

-- `record`; the key and the identity of an experiment are unique.
unfoldable pub record_experiment :
    (ExperimentSpec → String) → Disk → ExperimentSpec → String → Action RegistryTables ⊤
record_experiment payload disk spec path t =
    if not (is_file disk path)
    then (err (registry_error "experiment artifact is missing"), t)
    else elim (verified_artifact payload disk path spec) [
      | err e ↦ (err e, t)
      | ok verified ↦ elim (find experiment_row_key spec.experiment_key t.experiments) [
        | some row ↦ (check_existing payload disk spec verified row, t)
        | none ↦
            if has experiment_row_id spec.experiment_id t.experiments
            then (err integrity_error, t)
            else (ok tt, record t { experiments = row_of payload disk spec path ∷ t.experiments })
      ]
    ]

abbrev pub promotion_of : ExperimentSpec → PromotionDecision → String → Uuid → PromotionRow
promotion_of spec decision operator id = record {
  promotion_id = id;
  promoted = spec.experiment_id;
  strategy_version = spec.strategy_version;
  eligible = decision.eligible;
  capability = decision.capability;
  operator_id = operator;
  decided_at = decision.decided_at;
}

-- `record_promotion` on a stripped operator, with the identity that `uuid4` draws.
unfoldable pub record_promotion :
    ExperimentSpec → PromotionDecision → String → Uuid → Action RegistryTables Uuid
record_promotion spec decision operator id t =
    if str_eq operator ""
    then (err (registry_error "promotion requires operator identity"), t)
    else if not (decision.experiment_id == spec.experiment_id)
    then (err (registry_error "promotion does not bind to experiment"), t)
    else if not (has experiment_row_id spec.experiment_id t.experiments)
    then (err (registry_error "promotion references unknown experiment"), t)
    else if has promotion_key id t.promotions || not (str_eq decision.capability "advisory_only")
    then (err integrity_error, t)
    else (ok id, record t { promotions = promotion_of spec decision operator id ∷ t.promotions })

-- `ORDER BY decided_at DESC, promotion_id DESC`
abbrev pub is_later : PromotionRow → PromotionRow → Bool
is_later p q =
    ltb q.decided_at p.decided_at
    || (q.decided_at == p.decided_at && ltb q.promotion_id p.promotion_id)

unfoldable pub latest : String → List PromotionRow → Option PromotionRow
latest version [] = none
latest version (p ∷ rest) =
    let below = latest version rest in
    if not (str_eq p.strategy_version version)
    then below
    else elim below [ none ↦ some p | some q ↦ if is_later q p then some q else some p ]

unfoldable pub latest_advisory_eligibility : String → RegistryTables → Bool
latest_advisory_eligibility version t = elim (latest version t.promotions) [
  | none ↦ false
  | some p ↦ p.eligible
]
