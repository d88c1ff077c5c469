-- ===== src/Risk/Evaluate/Accepted.antt =====
-- risk/pretrade.py: what an accepted decision says of the order.
use investing_agents.Prelude.{
  sym, Memᴰ, eq_iff, any_witness, true, false, ◌&&◌, str_eq, Option, List, [], ◌∷◌, ◌++◌, subst,
  is_empty, ◌≡◌, refl, arith, ap, ◌∙◌, inl, inr, ==→eq,
}
use investing_agents.Result.{ok, Result-cases}
use investing_agents.Decimal.{Decimal, add, sub, absolute, le, is_positive}
use investing_agents.Decimal.Order.{positive_le, positive_eq}
use investing_agents.Domain.Types.{Uuid, Instant, same_environment-eq, buy, accepted, is_accepted}
use investing_agents.Domain.Evidence.{
  OrderIntent, RiskCheck, RiskDecision, all_passed, validate_decision,
}
use investing_agents.Registry.{Instrument}
use investing_agents.Risk.Limits.{RiskLimits, validate_limits}
use investing_agents.Risk.Account.{AccountEvidence, QuoteEvidence, validate_account}
use investing_agents.Risk.Projection.{
  Ratio, fraction, order_notional, at_most, at_least, merge_pending, projected_cash,
  projected_gross,
}
use investing_agents.Risk.Versioned.{Findings, Rendering, versioned_checks}
use investing_agents.Risk.Evaluate.{
  losses, common_checks, exposure_checks, basis, all_checks, failed_names, decision_of, evaluate,
}
use investing_agents.Risk.Evaluate.Admissible.{
  IsAdmissible, buys_left, held_gross, pending_gross, same_side-buy, pending_buys-left,
  held_gross-total, pending_gross-total, order_notional-IsAmount, at_most-le,
  account_fresh-IsRecent,
}
use investing_agents.Risk.Evaluate.Merged.{merge_pending-IsMerged}
use investing_agents.Risk.Evaluate.Losses.{losses-AreStopped}

add_both : {a b c d : Decimal} → a ≡ b → c ≡ d → add a c ≡ add b d
add_both e f = cc

module _ (checks : List RiskCheck) where
  none_failed-all_passed : is_empty (failed_names checks) ≡ all_passed checks
  none_failed-all_passed = go checks
    where
      go : (xs : List RiskCheck) → is_empty (failed_names xs) ≡ all_passed xs
      go [] = refl
      go (x ∷ xs) = ground (arith, go xs)

all_passed-append :
    (xs ys : List RiskCheck) → all_passed (xs ++ ys) ≡ (all_passed xs && all_passed ys)
all_passed-append [] ys = refl
all_passed-append (x ∷ xs) ys = ground (arith, all_passed-append xs ys)

-- What the law of signs says of a division: a quotient by a positive number has the numerator's
-- sign.
abbrev pub KeepsSign : (Decimal → Decimal → Decimal) → Type 0
KeepsSign divide =
    (n d : Decimal) → is_positive d ≡ true → is_positive (divide n d) ≡ true → is_positive n ≡ true

-- A share of a positive amount that reaches a positive limit is a positive amount.
at_least-positive :
    (divide : Decimal → Decimal → Decimal) (n d limit : Decimal)
    → KeepsSign divide
    → is_positive d ≡ true
    → is_positive limit ≡ true
    → at_least (fraction divide n d) limit ≡ true
    → is_positive n ≡ true
at_least-positive divide n d limit keeps base positive reached =
    let nonzero = positive_eq d base in
    let order : le limit (divide n d) ≡ true = ground (arith, reached, nonzero) in
    keeps n d base (positive_le limit (divide n d) positive order)

-- What `evaluate` returns was made from the checks.
record IsMade (r : Rendering) (l : RiskLimits) (f : Findings) (i : OrderIntent) (k : Instrument)
    (a : AccountEvidence) (q : QuoteEvidence) (now : Instant) (id : Uuid) (d : RiskDecision)
    : Type 0 where
  quoted : q.quoted_instrument ≡ k.internal_instrument_id
  intended : i.internal_instrument_id ≡ k.internal_instrument_id
  loss : Option Ratio
  drawdown : Option Ratio
  found : losses r f a ≡ ok (loss, drawdown)
  made : decision_of r i a q now id (all_checks r l f i k a q now loss drawdown) ≡ d

module _ (r : Rendering) (l : RiskLimits) (f : Findings) (i : OrderIntent) (k : Instrument)
    (a : AccountEvidence) (q : QuoteEvidence) (now : Instant) (id : Uuid) where
  evaluate-IsMade :
      (d : RiskDecision) → evaluate r l f i k a q now id ≡ ok d → IsMade r l f i k a q now id d
  unfolding evaluate
  evaluate-IsMade d h = elim (Result-cases (losses r f a)) [
    | inr (e, p) ↦ absurd (ground (arith, h, p))
    | inl ((loss, drawdown), p) ↦ record {
      quoted = ==→eq _ _ (ground (arith, h));
      intended = ==→eq _ _ (ground (arith, h));
      loss = loss;
      drawdown = drawdown;
      found = p;
      made = ground (arith, h, p);
    }
  ]

  -- The three groups of checks, when all passed.
  record AllPassed (loss drawdown : Option Ratio) : Type 0 where
    common :
        all_passed (common_checks r l f i k a q now (merge_pending a.pending_orders [] false).1)
        ≡ true
    versioned : all_passed (versioned_checks r l f (basis i a q) k) ≡ true
    exposures : all_passed (exposure_checks r l (basis i a q) k loss drawdown) ≡ true

  accepted-AllPassed :
      (d : RiskDecision) (m : IsMade r l f i k a q now id d)
      → d.outcome ≡ accepted
      → AllPassed m.loss m.drawdown
  unfolding all_checks
  accepted-AllPassed d m h =
      let checks = all_checks r l f i k a q now m.loss m.drawdown in
      let outcome : (decision_of r i a q now id checks).outcome ≡ accepted =
        ap (λ (x : RiskDecision). x.outcome) m.made ∙ h in
      let passed : all_passed checks ≡ true =
        ground (arith, outcome, none_failed-all_passed checks) in
      let one = common_checks r l f i k a q now (merge_pending a.pending_orders [] false).1 in
      let two = versioned_checks r l f (basis i a q) k in
      let three = exposure_checks r l (basis i a q) k m.loss m.drawdown in
      let split = all_passed-append one (two ++ three) in
      let split2 = all_passed-append two three in
      record {
        common = ground (arith, passed, split);
        versioned = ground (arith, passed, split, split2);
        exposures = ground (arith, passed, split, split2);
      }

  positive_buffer : validate_limits l ≡ ok l → is_positive l.min_cash_buffer_fraction ≡ true
  unfolding validate_limits
  positive_buffer h = ground (arith, h)

  positive_equity : validate_account a ≡ ok a → is_positive a.equity ≡ true
  unfolding validate_account
  positive_equity h = ground (arith, h)

  -- What is left is spelled out without the projections.
  cash-funded :
      is_positive (projected_cash (basis i a q)) ≡ true
      → i.side ≡ buy
      → is_positive (
          sub
            (sub
              (sub a.cash (buys_left (merge_pending a.pending_orders [] false).0))
              (order_notional i a q))
            a.estimated_order_costs)
        ≡ true
  unfolding projected_cash
  cash-funded h side =
      ground (arith, h, side, pending_buys-left (merge_pending a.pending_orders [] false).0)

  gross-kept :
      at_most (fraction r.divide (projected_gross (basis i a q)) a.equity) l.max_gross_fraction
        ≡ true
      → le
          (r.divide
            (add
              (add
                (held_gross a.positions)
                (pending_gross (merge_pending a.pending_orders [] false).0))
              (absolute (order_notional i a q)))
            a.equity)
          l.max_gross_fraction
        ≡ true
  unfolding projected_gross
  gross-kept h =
      let pending = (merge_pending a.pending_orders [] false).0 in
      let held = held_gross-total a.positions in
      let left = pending_gross-total pending in
      let sum = ap (λ t. add t (absolute (order_notional i a q))) (add_both held left) in
      ap (λ t. le (r.divide t a.equity) l.max_gross_fraction) (sym sum)
      ∙ at_most-le r.divide (projected_gross (basis i a q)) a.equity l.max_gross_fraction h

  -- If the evaluation of an order by valid limits on a valid account returns an accepted decision,
  -- the order is admissible: quote, intent and instrument are the same; the environments and the
  -- currencies of intent, account and limits or instrument agree; the asset type is among those
  -- allowed; the order buys at the required leverage before it expires; quote and account are no
  -- older than their limits and not of the future (of an account by components, no reason is found
  -- against its times); the session is open where that is asked for; the pending orders are
  -- complete and do not contradict each other. With one row for each identity among them, the order
  -- by its sizing method, and the sum of all positions, pending orders and this order, keep their
  -- shares of the equity; the daily loss and the drawdown are known, and below their stops if they
  -- are positive; and what is left of the cash after all pending buys, this order and the estimated
  -- costs is positive. The division keeps the sign of its numerator.
  pub accepted_order_IsAdmissible :
      (d : RiskDecision)
      → KeepsSign r.divide
      → validate_limits l ≡ ok l
      → validate_account a ≡ ok a
      → evaluate r l f i k a q now id ≡ ok d
      → d.outcome ≡ accepted
      → IsAdmissible r l f i k a q now
  unfolding common_checks exposure_checks
  accepted_order_IsAdmissible d keeps limits account ran took =
      let m = evaluate-IsMade d ran in
      let p = accepted-AllPassed d m took in
      let c = p.common in
      let e = p.exposures in
      let nonzero = positive_eq a.equity (positive_equity account) in
      let (kind, is_kind, same_kind) =
        any_witness (str_eq k.asset_type) l.allowed_asset_types (ground (arith, c)) in
      let side = same_side-buy i.side (ground (arith, c)) in
      record {
        quoted = m.quoted;
        intended = m.intended;
        account_environment = same_environment-eq i.environment a.environment (ground (arith, c));
        limits_environment = same_environment-eq a.environment l.environment (ground (arith, c));
        allowed =
            subst (λ x. Memᴰ x l.allowed_asset_types) (sym ((eq_iff k.asset_type kind).0 same_kind))
              is_kind;
        buying = side;
        unlevered = ground (arith, c);
        account_currency = (eq_iff i.currency a.currency).0 (ground (arith, c));
        listing_currency = (eq_iff a.currency k.currency).0 (ground (arith, c));
        in_time = ground (arith, c);
        quoted_before = ground (arith, c);
        quote_age = ground (arith, c);
        fresh_account =
            account_fresh-IsRecent f a now l.account_max_age_seconds (ground (arith, c));
        in_session = ground (arith, c);
        all_pending_known = ground (arith, c);
        pending = (merge_pending a.pending_orders [] false).0;
        merged = merge_pending-IsMerged a.pending_orders (ground (arith, c));
        amount = order_notional i a q;
        is_amount = order_notional-IsAmount i a q;
        sized =
            at_most-le r.divide (order_notional i a q) a.equity l.max_order_equity_fraction
              (ground (arith, e));
        gross = gross-kept (ground (arith, e));
        funded =
            cash-funded
              (at_least-positive r.divide (projected_cash (basis i a q)) a.equity
                l.min_cash_buffer_fraction keeps (positive_equity account) (positive_buffer limits)
                (ground (arith, e)))
              side;
        stops =
            losses-AreStopped r l f a m.loss m.drawdown nonzero m.found (ground (arith, e))
              (ground (arith, e));
      }

  -- A decision that the evaluator makes is one that the constructor of decisions accepts, bound to
  -- the intent, the account snapshot and the quote; it is accepted exactly if no check failed, and
  -- gives the names of those that failed as its reasons.
  pub evaluated_decision_is_valid :
      (d : RiskDecision)
      → str_eq a.snapshot_id "" ≡ false
      → str_eq q.quote_id "" ≡ false
      → evaluate r l f i k a q now id ≡ ok d
      → (validate_decision d ≡ ok d)
        × (d.intent_hash ≡ i.intent_hash)
        × (d.account_snapshot_id ≡ a.snapshot_id)
        × (d.quote_id ≡ q.quote_id)
        × (d.reasons ≡ failed_names d.checks)
        × (is_accepted d.outcome ≡ is_empty d.reasons)
  unfolding validate_decision
  evaluated_decision_is_valid d snapshot quote ran =
      let m = evaluate-IsMade d ran in
      let checks = all_checks r l f i k a q now m.loss m.drawdown in
      subst
        (λ x.
          (validate_decision x ≡ ok x)
          × (x.intent_hash ≡ i.intent_hash)
          × (x.account_snapshot_id ≡ a.snapshot_id)
          × (x.quote_id ≡ q.quote_id)
          × (x.reasons ≡ failed_names x.checks)
          × (is_accepted x.outcome ≡ is_empty x.reasons))
        m.made
        (
          ground (arith, snapshot, quote, none_failed-all_passed checks),
          refl,
          refl,
          refl,
          refl,
          ground arith,
        )
