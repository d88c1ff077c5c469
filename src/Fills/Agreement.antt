-- ===== src/Fills/Agreement.antt =====
-- execution/fill_ingestion.py: rows that agree, and rows that stay.
use investing_agents.Prelude.{
  true, ==-refl, String, str_eq, eq_iff, Option, none, some, List, [], ◌∷◌, ◌++◌, same_option, ◌≡◌,
  refl, arith,
}
use investing_agents.Decimal.{Decimal, eq}
use investing_agents.Domain.Types.{Environment, same_environment}
use investing_agents.Fills.{Fill, same_fill, fill_named}

str_refl : (s : String) → str_eq s s ≡ true
str_refl s = (eq_iff s s).1 refl

amount_refl : (o : Option Decimal) → same_option eq o o ≡ true
amount_refl none = refl
amount_refl (some d) = ground arith

environment_refl : (e : Environment) → same_environment e e ≡ true
environment_refl Environment.offline = refl
environment_refl Environment.demo = refl
environment_refl Environment.real = refl

pub same_fill_refl : (f : Fill) → same_fill f f ≡ true
unfolding same_fill
same_fill_refl f = ground (
  arith,
  str_refl f.fill_id,
  str_refl f.ticker,
  str_refl f.side,
  str_refl f.action,
  str_refl f.fill_timestamp,
  str_refl f.broker,
  environment_refl f.environment,
  str_refl f.broker_execution_id,
  str_refl f.broker_order_id,
  str_refl f.broker_position_id,
  str_refl f.broker_reference_id,
  ==-refl f.broker_instrument_id,
  str_refl f.broker_rate_id,
  str_refl f.currency,
  amount_refl f.executed_amount,
)

-- A row that is found is found however many rows come after.
pub fill_named-append :
    (id : String) (known new : List Fill) (f : Fill)
    → fill_named id known ≡ some f
    → fill_named id (known ++ new) ≡ some f
unfolding fill_named
fill_named-append id [] new f h = absurd (ground arith)
fill_named-append id (g ∷ known) new f h = ground (arith, h, fill_named-append id known new f)

-- A new identity is found at the row that is put after the others.
pub fill_named-new :
    (known : List Fill) (f : Fill)
    → fill_named f.fill_id known ≡ none
    → fill_named f.fill_id (known ++ f ∷ []) ≡ some f
unfolding fill_named
fill_named-new [] f h = ground (arith, str_refl f.fill_id)
fill_named-new (g ∷ known) f h = ground (arith, h, fill_named-new known f)
