-- ===== src/Risk/Evaluate/Losses.antt =====
-- risk/pretrade.py: the losses of an accepted order, without the evaluator's own tests.
use investing_agents.Prelude.{
  true, false, Option, none, some, inl, inr, ◌≡◌, refl, arith, ap, ◌∙◌, Bool-cases, Option-cases,
}
use investing_agents.Result.{ok}
use investing_agents.Decimal.{Decimal, zero_decimal, sub, negate, lt, eq}
use investing_agents.Risk.Limits.{RiskLimits}
use investing_agents.Risk.Account.{AccountEvidence, is_versioned}
use investing_agents.Risk.Projection.{Ratio, finite, infinity, fraction, loss_or_zero, or_zero}
use investing_agents.Risk.Versioned.{Findings, Rendering}
use investing_agents.Risk.Evaluate.{losses, below_stop}
use investing_agents.Risk.Evaluate.Admissible.{IsStopped, AreStopped}

-- A ratio, cut off at zero, that is below a stop.
or_zero-IsStopped :
    (divide : Decimal → Decimal → Decimal) (n d stop : Decimal)
    → below_stop (some (or_zero (fraction divide n d))) stop ≡ true
    → IsStopped (divide n d) stop
or_zero-IsStopped divide n d stop h = elim (Bool-cases (lt zero_decimal (divide n d))) [
  | inl more ↦ inr (ground arith)
  | inr less ↦ inl less
]

loss_or_zero-IsStopped :
    (divide : Decimal → Decimal → Decimal) (n d stop : Decimal)
    → eq d zero_decimal ≡ false
    → below_stop (some (loss_or_zero (fraction divide n d))) stop ≡ true
    → IsStopped (negate (divide n d)) stop
loss_or_zero-IsStopped divide n d stop nonzero h =
    elim (Bool-cases (lt zero_decimal (negate (divide n d)))) [
      | inl more ↦ inr (ground arith)
      | inr less ↦ inl less
    ]

below_stop-finite :
    (x : Option Ratio) (stop : Decimal)
    → below_stop x stop ≡ true
    → (d : Decimal) × (x ≡ some (finite d)) × (lt d stop ≡ true)
below_stop-finite none stop h = absurd (ground arith)
below_stop-finite (some (finite d)) stop h = (d, refl, h)
below_stop-finite (some infinity) stop h = absurd (ground arith)

pub losses-AreStopped :
    (r : Rendering) (l : RiskLimits) (f : Findings) (a : AccountEvidence)
    → (loss drawdown : Option Ratio) → eq a.equity zero_decimal ≡ false
    → losses r f a ≡ ok (loss, drawdown)
    → below_stop loss l.daily_loss_stop_fraction ≡ true
    → below_stop drawdown l.drawdown_stop_fraction ≡ true
    → AreStopped r l f a
unfolding losses
losses-AreStopped r l f a loss drawdown nonzero found below_loss below_drawdown =
    elim (Bool-cases (is_versioned a)) [
      | inl new ↦
          let (x, is_x, less_x) = below_stop-finite loss l.daily_loss_stop_fraction below_loss in
          let (y, is_y, less_y) =
            below_stop-finite drawdown l.drawdown_stop_fraction below_drawdown in
          let same_loss : f.found_loss ≡ loss = ground (arith, found, new) in
          let same_drawdown : f.found_drawdown ≡ drawdown = ground (arith, found, new) in
          inl (new, x, y, same_loss ∙ is_x, same_drawdown ∙ is_y, less_x, less_y)
      | inr old ↦ elim (Option-cases a.daily_pnl) [
        | inl missing ↦ absurd (ground (arith, found, old, missing))
        | inr (pnl, has_pnl) ↦ elim (Option-cases a.peak_equity) [
          | inl missing ↦ absurd (ground (arith, found, old, has_pnl, missing))
          | inr (peak, has_peak) ↦
              let is_loss : some (loss_or_zero (fraction r.divide pnl a.equity)) ≡ loss =
                ground (arith, found, old, has_pnl, has_peak) in
              let is_drawdown : some (or_zero (fraction r.divide (sub peak a.equity) peak))
                  ≡ drawdown =
                ground (arith, found, old, has_pnl, has_peak) in
              let stop = l.daily_loss_stop_fraction in
              let low = l.drawdown_stop_fraction in
              inr (
                pnl,
                peak,
                has_pnl,
                has_peak,
                loss_or_zero-IsStopped r.divide pnl a.equity stop nonzero
                    (ap (λ x. below_stop x stop) is_loss ∙ below_loss),
                or_zero-IsStopped r.divide (sub peak a.equity) peak low
                    (ap (λ x. below_stop x low) is_drawdown ∙ below_drawdown),
              )
        ]
      ]
    ]
