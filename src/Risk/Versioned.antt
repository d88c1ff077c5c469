-- ===== src/Risk/Versioned.antt =====
-- risk/pretrade.py: the checks of the contract account-risk-v2. The evaluator's blocks on
-- `performance` and `component_time` enter as what they find; the text of a number or a limit in the
-- recorded checks is a parameter.
use investing_agents.Prelude.{
  Bool, true, false, not, ◌&&◌, ◌||◌, ◌==◌, String, str_eq, Option, none, some, List, [], ◌∷◌, ◌++◌,
  map, any, all, is_some, is_empty, if◌then◌else◌,
}
use investing_agents.Decimal.{Decimal, zero_decimal, add, absolute, le, eq}
use investing_agents.Domain.Types.{Uuid}
use investing_agents.Domain.Evidence.{RiskCheck}
use investing_agents.Registry.{Instrument}
use investing_agents.Risk.Limits.{RiskLimits}
use investing_agents.Risk.Account.{
  PositionEvidence, PendingOrderEvidence, AccountEvidence, is_versioned,
}
use investing_agents.Risk.Projection.{Basis, Ratio}

-- What the blocks on performance and component time find, for the account and moment at hand.
pub record Findings : Type 0 where
  pub performance_reasons : List String
  pub found_loss : Option Ratio
  pub found_drawdown : Option Ratio
  pub time_reasons : List String

-- Python's division in the evaluation's context, the texts that the checks record by their
-- names, and the text of an exposure.
pub record Rendering : Type 0 where
  pub divide : Decimal → Decimal → Decimal
  pub observed_text : String → String
  pub limit_of_check : String → String
  pub exposure_text : String → String

abbrev pub check_named : Rendering → String → Bool → RiskCheck
check_named r name passed = record {
  name = name;
  passed = passed;
  observed = r.observed_text name;
  limit_text = r.limit_of_check name;
}

-- `account.equity == account.cash + account.invested_amount + account.unrealised_pnl`
abbrev pub is_equity_identity : AccountEvidence → Bool
is_equity_identity a = elim a.invested_amount [
  | none ↦ false
  | some invested ↦ elim a.unrealised_pnl [
    | none ↦ false
    | some pnl ↦ eq a.equity (add (add a.cash invested) pnl)
  ]
]

-- `issuer_map.get(identity)`: of equal keys the last one counts.
unfoldable pub issuer_of : Uuid → List (Uuid × String) → Option String
issuer_of id [] = none
issuer_of id ((key, issuer) ∷ rest) =
    let later = issuer_of id rest in
    if is_some later then later else if key == id then some issuer else none

abbrev pub issuer_or_unknown : Option String → String
issuer_or_unknown none = "unknown"
issuer_or_unknown (some issuer) = issuer

abbrev pub is_classified : Option String → Bool
is_classified none = false
is_classified (some issuer) = not (str_eq issuer "" || str_eq issuer "unknown")

abbrev pub keys_differ : List (Uuid × String) → Bool
keys_differ [] = true
keys_differ ((key, _) ∷ rest) =
    not (any (λ (x : Uuid × String). x.0 == key) rest) && keys_differ rest

-- `totals[key] = totals.get(key, 0) + value`
unfoldable pub add_to : String → Decimal → List (String × Decimal) → List (String × Decimal)
add_to key value [] = (key, value) ∷ []
add_to key value ((k, t) ∷ rest) =
    let later = add_to key value rest in
    if str_eq k key then (k, add t value) ∷ rest else (k, t) ∷ later

unfoldable pub add_each :
    List (String × Decimal) → List (String × Decimal) → List (String × Decimal)
add_each [] totals = totals
add_each ((key, value) ∷ rest) totals = add_each rest (add_to key value totals)

abbrev pub larger : Decimal → Decimal → Decimal
larger a b = if le a b then b else a

unfoldable pub greatest : List (String × Decimal) → Decimal
greatest [] = zero_decimal
greatest ((_, d) ∷ []) = d
greatest ((_, d) ∷ e ∷ rest) = larger d (greatest (e ∷ rest))

-- The position and pending values by the key that a function reads off an instrument and sector.
abbrev pub keyed_values : (Uuid → String → String) → Basis → List (String × Decimal)
keyed_values key b =
    map (λ (x : PositionEvidence). (key x.held_instrument x.sector, absolute x.signed_market_value))
      b.account.positions
    ++ map (λ (x : PendingOrderEvidence). (key x.ordered_instrument x.sector, x.remaining_notional))
        b.pending

unfoldable pub greatest_total : (Uuid → String → String) → Basis → Instrument → Decimal
greatest_total key b k = greatest (
    add_each (keyed_values key b)
      ((key k.internal_instrument_id k.sector, absolute b.notional) ∷ []))

abbrev pub issuer_key : AccountEvidence → Uuid → String → String
issuer_key a id sector = issuer_or_unknown (issuer_of id a.issuer_by_instrument)

abbrev pub sector_key : Uuid → String → String
sector_key id sector = sector

abbrev pub instrument_ids : Basis → Instrument → List Uuid
instrument_ids b k =
    k.internal_instrument_id
    ∷ (map (λ (x : PositionEvidence). x.held_instrument) b.account.positions
        ++ map (λ (x : PendingOrderEvidence). x.ordered_instrument) b.pending)

abbrev pub is_known : String → Bool
is_known sector = not (str_eq sector "unknown")

-- The checks of the contract `account-risk-v2`.
unfoldable pub versioned_checks :
    Rendering → RiskLimits → Findings → Basis → Instrument → List RiskCheck
versioned_checks r l f b k =
    let a = b.account in
    if not (is_versioned a)
    then []
    else check_named r "positions_complete" a.positions_complete
      ∷ check_named r "account_identity"
          (elim a.account_id [ none ↦ false | some id ↦ not (str_eq id "") ])
      ∷ check_named r "equity_identity" (is_equity_identity a)
      ∷ check_named r "performance_coverage" (is_empty f.performance_reasons)
      ∷ check_named r "exposure_classification" (
          all (λ (x : PositionEvidence). is_known x.sector) a.positions
          && all (λ (x : PendingOrderEvidence). is_known x.sector) b.pending
          && is_known k.sector)
      ∷ check_named r "issuer_classification" (
          keys_differ a.issuer_by_instrument
          && all (λ id. is_classified (issuer_of id a.issuer_by_instrument)) (instrument_ids b k))
      ∷ check_named r "all_issuer_exposure"
          (le (r.divide (greatest_total (issuer_key a) b k) a.equity) l.max_issuer_fraction)
      ∷ check_named r "all_sector_exposure"
          (le (r.divide (greatest_total sector_key b k) a.equity) l.max_sector_fraction)
      ∷ []
