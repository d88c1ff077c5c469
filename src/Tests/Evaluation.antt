-- ===== src/Tests/Evaluation.antt =====
-- The evaluation of one order on a fixture account, with the limits of config/risk_limits.yaml.
use investing_agents.Prelude.{
  ℕ, zero, suc, ◌+◌, ◌*◌, ◌/◌, ◌^◌, true, false, none, some, [], ◌∷◌, ◌≡◌, refl, arith, is_empty,
}
use investing_agents.Result.{ok}
use investing_agents.Int.{ℤ, pos, negsuc, ◌+ℤ◌, ◌-ℤ◌, ◌*ℤ◌, pos_part}
use investing_agents.Decimal.{Decimal, whole, add, sub, mul, absolute, negate, total, is_positive}
use investing_agents.Domain.Types.{demo, buy, is_accepted, accepted}
use investing_agents.Domain.Evidence.{RiskDecision, validate_decision}
use investing_agents.Registry.{Instrument}
use investing_agents.Risk.Limits.{RiskLimits, validate_limits}
use investing_agents.Risk.Account.{
  AccountEvidence, QuoteEvidence, PendingOrderEvidence, validate_account,
}
use investing_agents.Risk.Projection.{
  put_pending, contradicts, merge_pending, order_notional, projected_issuer, projected_sector,
  projected_gross, projected_net, pending_buys, projected_cash, fraction, or_zero, loss_or_zero,
}
use investing_agents.Risk.Versioned.{Findings, Rendering, versioned_checks}
use investing_agents.Risk.Evaluate.{
  losses, account_fresh, common_checks, exposure_checks, all_checks, evaluate, decision_of,
  failed_names,
}
use investing_agents.Risk.Evaluate.Accepted.{
  KeepsSign, accepted_order_IsAdmissible, evaluated_decision_is_valid,
}
use investing_agents.Risk.Evaluate.Admissible.{IsAdmissible}
use investing_agents.Tests.Samples.{intent}

abbrev places : ℕ → ℕ → Decimal
places n d = record { coefficient = pos n; places = d }

-- A quotient cut off after eight more places.
abbrev cut_quotient : ℤ → ℕ → ℕ → ℤ
cut_quotient (pos zero) scale d = pos zero
cut_quotient (pos (suc n)) scale d = pos (suc n * scale / d)
cut_quotient (negsuc n) scale d = pos 0 -ℤ pos ((n + 1) * scale / d)

abbrev cut_division : Decimal → Decimal → Decimal
cut_division n d = record {
  coefficient = cut_quotient n.coefficient (10 ^ d.places * 10 ^ 8) (pos_part d.coefficient);
  places = n.places + 8;
}

cut_quotient-sign :
    (n : ℤ) (scale d : ℕ)
    → is_positive (record { coefficient = cut_quotient n scale d; places = 0 }) ≡ true
    → is_positive (record { coefficient = n; places = 0 }) ≡ true
unfolding ◌-ℤ◌
cut_quotient-sign (pos zero) scale d h = h
cut_quotient-sign (pos (suc n)) scale d h = ground arith
cut_quotient-sign (negsuc n) scale d h = absurd (ground (arith, h))

cut_division-KeepsSign : KeepsSign cut_division
cut_division-KeepsSign n d _ h =
    cut_quotient-sign n.coefficient (10 ^ d.places * 10 ^ 8) (pos_part d.coefficient) h

abbrev rendering : Rendering
rendering = record {
  divide = cut_division;
  observed_text = λ name. name;
  limit_of_check = λ name. name;
  exposure_text = λ name. name;
}

abbrev limits : RiskLimits
limits = record {
  schema_version = "1.0";
  environment = demo;
  max_order_equity_fraction = places 1 2;
  max_issuer_fraction = places 5 2;
  max_sector_fraction = places 20 2;
  max_gross_fraction = places 50 2;
  max_net_fraction = places 50 2;
  min_cash_buffer_fraction = places 20 2;
  required_leverage = whole 1;
  daily_loss_stop_fraction = places 1 2;
  drawdown_stop_fraction = places 5 2;
  quote_max_age_seconds = 30;
  account_max_age_seconds = 15;
  approval_max_age_seconds = 300;
  regular_hours_only = true;
  allowed_asset_types = "equity" ∷ "etf" ∷ [];
}

abbrev instrument : Instrument
instrument = record {
  internal_instrument_id = 7;
  canonical_symbol = "ACME";
  exchange = "NYSE";
  asset_type = "equity";
  currency = "USD";
  sector = "industry";
}

abbrev order : PendingOrderEvidence
order = record {
  broker_order_id = "o-1";
  ordered_instrument = 8;
  sector = "health";
  side = buy;
  remaining_notional = whole 500;
}

abbrev account : AccountEvidence
account = record {
  snapshot_id = "snap";
  environment = demo;
  observed_at = some 100000000;
  currency = "USD";
  equity = whole 100000;
  cash = whole 70000;
  daily_pnl = some (record { coefficient = negsuc 99; places = 0 });
  peak_equity = some (whole 101000);
  positions =
      record { held_instrument = 9; sector = "health"; signed_market_value = whole 30000 } ∷ [];
  pending_orders = order ∷ order ∷ [];
  pending_orders_complete = true;
  contract_version = "legacy-fixture-v1";
  account_id = none;
  has_component_time = false;
  invested_amount = none;
  unrealised_pnl = none;
  estimated_order_costs = whole 1;
  positions_complete = false;
  issuer_by_instrument = [];
}

abbrev quote : QuoteEvidence
quote = record {
  quote_id = "quote";
  quoted_instrument = 7;
  observed_at = 101000000;
  bid = whole 10;
  ask = whole 11;
  regular_session_open = true;
}

abbrev findings : Findings
findings = record {
  performance_reasons = [];
  found_loss = none;
  found_drawdown = none;
  time_reasons = [];
}

limits_valid : validate_limits limits ≡ ok limits
unfolding validate_limits ◌*ℤ◌
limits_valid = refl

account_valid : validate_account account ≡ ok account
unfolding validate_account
account_valid = refl

abbrev taken : RiskDecision
taken = decision_of rendering intent account quote 102000000 21 (
    all_checks rendering limits findings intent instrument account quote 102000000
      (some (
        loss_or_zero
          (fraction cut_division (record { coefficient = negsuc 99; places = 0 }) (whole 100000))))
      (some (or_zero (fraction cut_division (sub (whole 101000) (whole 100000)) (whole 101000)))))

evaluated :
    evaluate rendering limits findings intent instrument account quote 102000000 21 ≡ ok taken
unfolding evaluate losses ◌*ℤ◌
evaluated = refl

taken_accepted : taken.outcome ≡ accepted
unfolding all_checks common_checks versioned_checks exposure_checks account_fresh merge_pending
    put_pending contradicts order_notional projected_issuer projected_sector projected_gross
    projected_net pending_buys projected_cash add sub mul absolute negate total ◌+ℤ◌ ◌-ℤ◌ ◌*ℤ◌
taken_accepted = refl

accepted_order_IsAdmissible_example :
    IsAdmissible rendering limits findings intent instrument account quote 102000000
accepted_order_IsAdmissible_example =
    accepted_order_IsAdmissible rendering limits findings intent instrument account quote 102000000
      21 taken cut_division-KeepsSign limits_valid account_valid evaluated taken_accepted

evaluated_decision_is_valid_example :
    (validate_decision taken ≡ ok taken)
    × (taken.intent_hash ≡ intent.intent_hash)
    × (taken.account_snapshot_id ≡ "snap")
    × (taken.quote_id ≡ "quote")
    × (taken.reasons ≡ failed_names taken.checks)
    × (is_accepted taken.outcome ≡ is_empty taken.reasons)
evaluated_decision_is_valid_example =
    evaluated_decision_is_valid rendering limits findings intent instrument account quote 102000000
      21 taken refl refl evaluated
