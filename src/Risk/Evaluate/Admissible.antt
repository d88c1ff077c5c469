-- ===== src/Risk/Evaluate/Admissible.antt =====
-- risk/pretrade.py: what an order must be for the evaluator to accept it, on the evidence itself and
-- on amounts that are summed up here without the evaluator's projections.
use investing_agents.Prelude.{
  ⊤, ℕ, true, false, str_eq, some, List, [], ◌∷◌, map, is_empty, Memᴰ, ◌+◌, ◌*◌, ◌≤◌, ◌<◌, ◌⊎◌, inl,
  inr, ◌≡◌, refl, arith, ap, Bool-cases, Option-cases,
}
use investing_agents.Decimal.{
  Decimal, zero_decimal, add, sub, mul, absolute, negate, le, lt, eq, is_positive, total,
}
use investing_agents.Domain.Types.{
  Instant, OrderSide, buy, sell, fixed_notional, percent_equity, units, same_side,
}
use investing_agents.Domain.Evidence.{OrderIntent}
use investing_agents.Registry.{Instrument}
use investing_agents.Risk.Limits.{RiskLimits}
use investing_agents.Risk.Account.{
  PositionEvidence, PendingOrderEvidence, AccountEvidence, QuoteEvidence,
}
use investing_agents.Risk.Projection.{
  finite, fraction, at_most, pending_value, order_notional, pending_buys,
}
use investing_agents.Risk.Versioned.{Findings, Rendering}
use investing_agents.Risk.Evaluate.{account_fresh}

-- What the buys among pending orders still take.
abbrev pub buys_left : List PendingOrderEvidence → Decimal
buys_left [] = zero_decimal
buys_left (p ∷ rest) = elim p.side [
  | buy ↦ add p.remaining_notional (buys_left rest)
  | sell ↦ buys_left rest
]

-- The sizes of all positions, and of all pending orders.
abbrev pub held_gross : List PositionEvidence → Decimal
held_gross [] = zero_decimal
held_gross (x ∷ rest) = add (absolute x.signed_market_value) (held_gross rest)

abbrev pub pending_gross : List PendingOrderEvidence → Decimal
pending_gross [] = zero_decimal
pending_gross (p ∷ rest) =
    add
      (elim p.side [
        | buy ↦ absolute p.remaining_notional
        | sell ↦ absolute (negate p.remaining_notional)
      ])
      (pending_gross rest)

-- The amount of the order by its sizing method.
abbrev pub IsAmount : OrderIntent → AccountEvidence → QuoteEvidence → Decimal → Type 0
IsAmount i a q amount =
    ((i.sizing_method ≡ fixed_notional) × (amount ≡ i.sizing_value))
    ⊎ (((i.sizing_method ≡ percent_equity) × (amount ≡ mul a.equity i.sizing_value))
        ⊎ ((i.sizing_method ≡ units) × (amount ≡ mul q.ask i.sizing_value)))

-- What a second report of a pending order must agree on with the first.
abbrev pub AgreesOn : PendingOrderEvidence → PendingOrderEvidence → Type 0
AgreesOn p q =
    (q.broker_order_id ≡ p.broker_order_id)
    × (q.ordered_instrument ≡ p.ordered_instrument)
    × (q.sector ≡ p.sector)
    × (q.side ≡ p.side)
    × (le q.remaining_notional p.remaining_notional ≡ true)
    × (le p.remaining_notional q.remaining_notional ≡ true)

abbrev pub IsThere : PendingOrderEvidence → List PendingOrderEvidence → Type 0
IsThere p pending = (q : PendingOrderEvidence) × Memᴰ q pending × AgreesOn p q

abbrev pub HaveDistinctOrders : List PendingOrderEvidence → Type 0
HaveDistinctOrders [] = ⊤
HaveDistinctOrders (p ∷ rest) =
    ((h : PendingOrderEvidence) → Memᴰ h rest → ¬ (h.broker_order_id ≡ p.broker_order_id))
    × HaveDistinctOrders rest

-- Pending orders without repetitions: each row is the account's, each order of the account agrees
-- with a row, and no two rows have one identity.
pub record IsMerged (orders pending : List PendingOrderEvidence) : Type 0 where
  pub from_orders : (p : PendingOrderEvidence) → Memᴰ p pending → Memᴰ p orders
  pub all_there : (p : PendingOrderEvidence) → Memᴰ p orders → IsThere p pending
  pub once : HaveDistinctOrders pending

-- No older than the limit and not of the future; or, of an account by components, nothing found.
abbrev pub IsRecent : Findings → AccountEvidence → Instant → ℕ → Type 0
IsRecent f a now limit =
    ((a.has_component_time ≡ true) × (is_empty f.time_reasons ≡ true))
    ⊎ ((a.has_component_time ≡ false)
        × (t : Instant) × (a.observed_at ≡ some t)
        × (t ≤ now)
        × (now ≤ t + limit * 1000000))

-- A part that does not exceed zero, or is below the stop.
abbrev pub IsStopped : Decimal → Decimal → Type 0
IsStopped part stop = (lt zero_decimal part ≡ false) ⊎ (lt part stop ≡ true)

-- The loss of the day and the drawdown, as shares.
abbrev pub AreStopped : Rendering → RiskLimits → Findings → AccountEvidence → Type 0
AreStopped r l f a =
    ((str_eq a.contract_version "account-risk-v2" ≡ true)
      × (loss : Decimal) × (drawdown : Decimal) × (f.found_loss ≡ some (finite loss))
      × (f.found_drawdown ≡ some (finite drawdown))
      × (lt loss l.daily_loss_stop_fraction ≡ true)
      × (lt drawdown l.drawdown_stop_fraction ≡ true))
    ⊎ ((pnl : Decimal) × (peak : Decimal) × (a.daily_pnl ≡ some pnl)
        × (a.peak_equity ≡ some peak)
        × IsStopped (negate (r.divide pnl a.equity)) l.daily_loss_stop_fraction
        × IsStopped (r.divide (sub peak a.equity) peak) l.drawdown_stop_fraction)

-- What holds of an order that is accepted.
pub record IsAdmissible (r : Rendering) (l : RiskLimits) (f : Findings) (i : OrderIntent)
    (k : Instrument) (a : AccountEvidence) (q : QuoteEvidence) (now : Instant) : Type 0 where
  pub quoted : q.quoted_instrument ≡ k.internal_instrument_id
  pub intended : i.internal_instrument_id ≡ k.internal_instrument_id
  pub account_environment : i.environment ≡ a.environment
  pub limits_environment : a.environment ≡ l.environment
  pub allowed : Memᴰ k.asset_type l.allowed_asset_types
  pub buying : i.side ≡ buy
  pub unlevered : eq i.target_leverage l.required_leverage ≡ true
  pub account_currency : i.currency ≡ a.currency
  pub listing_currency : a.currency ≡ k.currency
  pub in_time : now < i.expires_at
  pub quoted_before : q.observed_at ≤ now
  pub quote_age : now ≤ q.observed_at + l.quote_max_age_seconds * 1000000
  pub fresh_account : IsRecent f a now l.account_max_age_seconds
  pub in_session : (l.regular_hours_only ≡ false) ⊎ (q.regular_session_open ≡ true)
  pub all_pending_known : a.pending_orders_complete ≡ true
  pub pending : List PendingOrderEvidence
  pub merged : IsMerged a.pending_orders pending
  pub amount : Decimal
  pub is_amount : IsAmount i a q amount
  pub sized : le (r.divide amount a.equity) l.max_order_equity_fraction ≡ true
  pub gross :
      le
        (r.divide
          (add (add (held_gross a.positions) (pending_gross pending)) (absolute amount))
          a.equity)
        l.max_gross_fraction
      ≡ true
  pub funded :
      is_positive (sub (sub (sub a.cash (buys_left pending)) amount) a.estimated_order_costs) ≡ true
  pub stops : AreStopped r l f a

pub same_side-buy : (s : OrderSide) → same_side s buy ≡ true → s ≡ buy
same_side-buy buy h = refl
same_side-buy sell h = absurd (ground arith)

pub pending_buys-left : (ps : List PendingOrderEvidence) → pending_buys ps ≡ buys_left ps
unfolding pending_buys total
pending_buys-left [] = refl
pending_buys-left (p ∷ ps) = ground (arith, pending_buys-left ps)

pub held_gross-total :
    (xs : List PositionEvidence)
    → total (map (λ (x : PositionEvidence). absolute x.signed_market_value) xs) ≡ held_gross xs
unfolding total
held_gross-total [] = refl
held_gross-total (x ∷ xs) = ap (add (absolute x.signed_market_value)) (held_gross-total xs)

pub pending_gross-total :
    (ps : List PendingOrderEvidence)
    → total (map (λ (x : PendingOrderEvidence). absolute (pending_value x)) ps) ≡ pending_gross ps
unfolding total
pending_gross-total [] = refl
pending_gross-total (p ∷ ps) = ground (arith, pending_gross-total ps)

pub order_notional-IsAmount :
    (i : OrderIntent) (a : AccountEvidence) (q : QuoteEvidence)
    → IsAmount i a q (order_notional i a q)
unfolding order_notional
order_notional-IsAmount i a q = ground arith

pub at_most-le :
    (divide : Decimal → Decimal → Decimal) (n d limit : Decimal)
    → at_most (fraction divide n d) limit ≡ true
    → le (divide n d) limit ≡ true
at_most-le divide n d limit h = ground arith

pub account_fresh-IsRecent :
    (f : Findings) (a : AccountEvidence) (now : Instant) (limit : ℕ)
    → account_fresh f a now limit ≡ true
    → IsRecent f a now limit
unfolding account_fresh
account_fresh-IsRecent f a now limit h = elim (Bool-cases a.has_component_time) [
  | inl parts ↦ inl (parts, ground (arith, h))
  | inr whole ↦ elim (Option-cases a.observed_at) [
    | inl missing ↦ absurd (ground (arith, h))
    | inr (t, there) ↦
        inr (whole, t, there, ground (arith, h, whole, there), ground (arith, h, whole, there))
  ]
]
