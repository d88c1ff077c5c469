-- ===== src/Risk/Projection.antt =====
-- risk/pretrade.py: the amounts that an order would bring an account to, and their ratios.
use investing_agents.Prelude.{
  Bool, true, false, not, ◌&&◌, ◌||◌, ◌==◌, str_eq, List, [], ◌∷◌, map, keep, if◌then◌else◌,
}
use investing_agents.Decimal.{
  Decimal, zero_decimal, add, sub, mul, absolute, negate, le, lt, eq, total,
}
use investing_agents.Domain.Types.{
  OrderSide, buy, sell, fixed_notional, percent_equity, units, same_side,
}
use investing_agents.Domain.Evidence.{OrderIntent}
use investing_agents.Registry.{Instrument}
use investing_agents.Risk.Account.{
  PositionEvidence, PendingOrderEvidence, AccountEvidence, QuoteEvidence,
}

-- `==` of two pending orders
abbrev pub same_pending : PendingOrderEvidence → PendingOrderEvidence → Bool
same_pending a b =
    str_eq a.broker_order_id b.broker_order_id
    && a.ordered_instrument == b.ordered_instrument
    && str_eq a.sector b.sector
    && same_side a.side b.side
    && eq a.remaining_notional b.remaining_notional

-- `pending_by_id[p.broker_order_id] = p`
unfoldable pub put_pending :
    PendingOrderEvidence → List PendingOrderEvidence → List PendingOrderEvidence
put_pending p [] = p ∷ []
put_pending p (q ∷ rest) =
    let below = put_pending p rest in
    if str_eq q.broker_order_id p.broker_order_id then p ∷ rest else q ∷ below

-- Whether an order of the same identity and other content is there.
unfoldable pub contradicts : PendingOrderEvidence → List PendingOrderEvidence → Bool
contradicts p [] = false
contradicts p (q ∷ rest) =
    let below = contradicts p rest in
    if str_eq q.broker_order_id p.broker_order_id then not (same_pending q p) else below

-- The loop over `account.pending_orders`.
unfoldable pub merge_pending :
    List PendingOrderEvidence → List PendingOrderEvidence → Bool → List PendingOrderEvidence × Bool
merge_pending [] seen contradictory = (seen, contradictory)
merge_pending (p ∷ rest) seen contradictory =
    merge_pending rest (put_pending p seen) (contradictory || contradicts p seen)

unfoldable pub order_notional : OrderIntent → AccountEvidence → QuoteEvidence → Decimal
order_notional i a q = elim i.sizing_method [
  | fixed_notional ↦ i.sizing_value
  | percent_equity ↦ mul a.equity i.sizing_value
  | units ↦ mul q.ask i.sizing_value
]

abbrev pub signed : OrderSide → Decimal → Decimal
signed buy d = d
signed sell d = negate d

abbrev pub position_value : PositionEvidence → Decimal
position_value x = x.signed_market_value

abbrev pub pending_value : PendingOrderEvidence → Decimal
pending_value x = signed x.side x.remaining_notional

-- What the projections are made from, with the pending orders merged.
pub record Basis : Type 0 where
  pub account : AccountEvidence
  pub pending : List PendingOrderEvidence
  pub notional : Decimal
  pub order_side : OrderSide

unfoldable pub projected_issuer : Basis → Instrument → Decimal
projected_issuer b i =
    add
      (add
        (total (
          map (λ (x : PositionEvidence). absolute x.signed_market_value)
            (keep (λ (x : PositionEvidence). x.held_instrument == i.internal_instrument_id)
              b.account.positions)))
        (total (
          map (λ (x : PendingOrderEvidence). absolute (pending_value x))
            (keep (λ (x : PendingOrderEvidence). x.ordered_instrument == i.internal_instrument_id)
              b.pending))))
      (absolute b.notional)

unfoldable pub projected_sector : Basis → Instrument → Decimal
projected_sector b i =
    add
      (add
        (total (
          map (λ (x : PositionEvidence). absolute x.signed_market_value)
            (keep (λ (x : PositionEvidence). str_eq x.sector i.sector) b.account.positions)))
        (total (
          map (λ (x : PendingOrderEvidence). absolute (pending_value x))
            (keep (λ (x : PendingOrderEvidence). str_eq x.sector i.sector) b.pending))))
      (absolute b.notional)

unfoldable pub projected_gross : Basis → Decimal
projected_gross b =
    add
      (add
        (total (map (λ (x : PositionEvidence). absolute x.signed_market_value) b.account.positions))
        (total (map (λ (x : PendingOrderEvidence). absolute (pending_value x)) b.pending)))
      (absolute b.notional)

unfoldable pub projected_net : Basis → Decimal
projected_net b =
    add (add (total (map position_value b.account.positions)) (total (map pending_value b.pending)))
      (signed b.order_side b.notional)

unfoldable pub pending_buys : List PendingOrderEvidence → Decimal
pending_buys pending = total (
    map (λ (x : PendingOrderEvidence). x.remaining_notional)
      (keep (λ (x : PendingOrderEvidence). same_side x.side buy) pending))

unfoldable pub projected_cash : Basis → Decimal
projected_cash b =
    sub
      (sub (sub b.account.cash (pending_buys b.pending))
        (if same_side b.order_side buy then b.notional else zero_decimal))
      b.account.estimated_order_costs

-- A quotient of decimals, or `Decimal("Infinity")`.
pub data Ratio : Type 0 where
  finite : Decimal → Ratio
  infinity : Ratio

-- `_fraction`; `divide` is Python's division in the context of the evaluation.
abbrev pub fraction : (Decimal → Decimal → Decimal) → Decimal → Decimal → Ratio
fraction divide n d = if eq d zero_decimal then infinity else finite (divide n d)

abbrev pub at_most : Ratio → Decimal → Bool
at_most (finite r) l = le r l
at_most infinity l = false

abbrev pub below : Ratio → Decimal → Bool
below (finite r) l = lt r l
below infinity l = false

abbrev pub at_least : Ratio → Decimal → Bool
at_least (finite r) l = le l r
at_least infinity l = true

abbrev pub absolute_ratio : Ratio → Ratio
absolute_ratio (finite r) = finite (absolute r)
absolute_ratio infinity = infinity

-- `max(Decimal("0"), …)` of a ratio, and of a ratio negated
abbrev pub or_zero : Ratio → Ratio
or_zero (finite r) = finite (if lt zero_decimal r then r else zero_decimal)
or_zero infinity = infinity

abbrev pub loss_or_zero : Ratio → Ratio
loss_or_zero (finite r) = finite (if lt zero_decimal (negate r) then negate r else zero_decimal)
loss_or_zero infinity = finite zero_decimal
