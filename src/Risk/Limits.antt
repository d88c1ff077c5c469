-- ===== src/Risk/Limits.antt =====
-- risk/pretrade.py: the risk limits, with the checks of `RiskLimits.load` on the parsed values.
use investing_agents.Prelude.{
  ℕ, ◌-◌, ◌*◌, Bool, not, ◌&&◌, ◌||◌, String, List, [], ◌∷◌, ◌==◌, leb, if◌then◌else◌, any,
}
use investing_agents.Result.{Result, ok, err, risk_configuration}
use investing_agents.Decimal.{Decimal, whole, le, eq, is_positive}
use investing_agents.Domain.Types.{Environment, demo, same_environment, Instant}

pub record RiskLimits : Type 0 where
  pub schema_version : String
  pub environment : Environment
  pub max_order_equity_fraction : Decimal
  pub max_issuer_fraction : Decimal
  pub max_sector_fraction : Decimal
  pub max_gross_fraction : Decimal
  pub max_net_fraction : Decimal
  pub min_cash_buffer_fraction : Decimal
  pub required_leverage : Decimal
  pub daily_loss_stop_fraction : Decimal
  pub drawdown_stop_fraction : Decimal
  pub quote_max_age_seconds : ℕ
  pub account_max_age_seconds : ℕ
  pub approval_max_age_seconds : ℕ
  pub regular_hours_only : Bool
  pub allowed_asset_types : List String

abbrev pub fractions : RiskLimits → List Decimal
fractions l =
    l.max_order_equity_fraction ∷ l.max_issuer_fraction ∷ l.max_sector_fraction
    ∷ l.max_gross_fraction ∷ l.max_net_fraction ∷ l.min_cash_buffer_fraction
    ∷ l.daily_loss_stop_fraction ∷ l.drawdown_stop_fraction ∷ []

-- `value <= 0 or value > 1`
abbrev pub is_no_fraction : Decimal → Bool
is_no_fraction d = not (is_positive d) || not (le d (whole 1))

-- The checks of `RiskLimits.load`. Ages are numbers here, so that "not positive" is zero.
unfoldable pub validate_limits : RiskLimits → Result RiskLimits
validate_limits l =
    if any is_no_fraction (fractions l)
    then err (risk_configuration "risk fractions must be within (0, 1]")
    else if not (eq l.required_leverage (whole 1))
    then err (risk_configuration "initial Demo scope requires leverage exactly 1")
    else if not (same_environment l.environment demo)
    then err (risk_configuration "only Demo risk configuration is authorized")
    else if l.quote_max_age_seconds == 0
        || l.account_max_age_seconds == 0
        || l.approval_max_age_seconds == 0
    then err (risk_configuration "freshness windows must be positive")
    else if not l.regular_hours_only
    then err (risk_configuration "initial Demo scope requires regular hours")
    else ok l

-- A number of seconds in microseconds, the unit of an instant.
abbrev pub seconds : ℕ → ℕ
seconds n = n * 1000000

-- `0 <= (moment - from).total_seconds() <= limit`
abbrev pub is_fresh : Instant → Instant → ℕ → Bool
is_fresh from moment limit = leb from moment && leb (moment - from) (seconds limit)
