-- ===== src/Fills.antt =====
-- execution/fill_ingestion.py: the staging of a broker's executions in a table of fills; BrokerExecution
-- of brokers/base.py. The file is its table, with numbers for their texts; a blank amount is missing.
-- The spelling of an identity and of an instant, and the mapping of instruments to tickers, are
-- parameters.
pub mod Agreement
pub mod Columns
pub mod Repeat
use investing_agents.Prelude.{
  ℕ, Bool, true, false, not, ◌&&◌, ◌||◌, ◌==◌, String, str_eq, Option, none, some, List, [], ◌∷◌,
  ◌++◌, map, any, is_some, same_option, if◌then◌else◌,
}
use investing_agents.Result.{Result, ok, err, Action, fill_ingestion}
use investing_agents.Decimal.{Decimal, add, eq}
use investing_agents.Domain.Types.{Environment, demo, same_environment, Instant}

pub record BrokerExecution : Type 0 where
  pub broker_execution_id : String
  pub broker_order_id : String
  pub broker_instrument_id : ℕ
  pub broker_position_id : String
  pub broker_reference_id : String
  pub environment : Environment
  pub side : String
  pub action : String
  pub units : Decimal
  pub price : Decimal
  pub executed_at : Instant
  pub price_rate_id : String
  pub fees : Decimal
  pub taxes : Decimal
  pub currency : String
  pub executed_amount : Option Decimal
  pub executed_at_source : Option String

-- A row of BROKER_FILL_COLUMNS.
pub record Fill : Type 0 where
  pub fill_id : String
  pub ticker : String
  pub side : String
  pub action : String
  pub quantity : Decimal
  pub fill_price : Decimal
  pub fees : Decimal
  pub fill_timestamp : String
  pub broker : String
  pub environment : Environment
  pub broker_execution_id : String
  pub broker_order_id : String
  pub broker_position_id : String
  pub broker_reference_id : String
  pub broker_instrument_id : ℕ
  pub broker_rate_id : String
  pub broker_fee : Decimal
  pub broker_tax : Decimal
  pub currency : String
  pub executed_amount : Option Decimal

-- `has_amounts` says that the column `executed_amount` is there.
pub record FillTable : Type 0 where
  pub has_amounts : Bool
  pub fills : List Fill

-- The file is missing or empty, has other columns, or holds a table.
pub data FillFile : Type 0 where
  nothing_staged : FillFile
  other_columns : FillFile
  staged : FillTable → FillFile

-- What the staging is given besides the executions; `ticker_of` gives the stripped upper-case
-- ticker, blank for an instrument that is not mapped.
pub record Staging : Type 0 where
  pub broker : String
  pub ticker_of : ℕ → String
  pub identity : String → Environment → String → String
  pub isoformat : Instant → String

abbrev pub timestamp_of : Staging → BrokerExecution → String
timestamp_of g x = elim x.executed_at_source [
  | none ↦ g.isoformat x.executed_at
  | some text ↦ if str_eq text "" then g.isoformat x.executed_at else text
]

abbrev pub fill_of : Staging → BrokerExecution → Fill
fill_of g x = record {
  fill_id = g.identity g.broker x.environment x.broker_execution_id;
  ticker = g.ticker_of x.broker_instrument_id;
  side = x.side;
  action = x.action;
  quantity = x.units;
  fill_price = x.price;
  fees = add x.fees x.taxes;
  fill_timestamp = timestamp_of g x;
  broker = g.broker;
  environment = x.environment;
  broker_execution_id = x.broker_execution_id;
  broker_order_id = x.broker_order_id;
  broker_position_id = x.broker_position_id;
  broker_reference_id = x.broker_reference_id;
  broker_instrument_id = x.broker_instrument_id;
  broker_rate_id = x.price_rate_id;
  broker_fee = x.fees;
  broker_tax = x.taxes;
  currency = x.currency;
  executed_amount = x.executed_amount;
}

-- Every column agrees: numbers numerically, the others as text.
unfoldable pub same_fill : Fill → Fill → Bool
same_fill a b =
    str_eq a.fill_id b.fill_id
    && str_eq a.ticker b.ticker
    && str_eq a.side b.side
    && str_eq a.action b.action
    && eq a.quantity b.quantity
    && eq a.fill_price b.fill_price
    && eq a.fees b.fees
    && str_eq a.fill_timestamp b.fill_timestamp
    && str_eq a.broker b.broker
    && same_environment a.environment b.environment
    && str_eq a.broker_execution_id b.broker_execution_id
    && str_eq a.broker_order_id b.broker_order_id
    && str_eq a.broker_position_id b.broker_position_id
    && str_eq a.broker_reference_id b.broker_reference_id
    && a.broker_instrument_id == b.broker_instrument_id
    && str_eq a.broker_rate_id b.broker_rate_id
    && eq a.broker_fee b.broker_fee
    && eq a.broker_tax b.broker_tax
    && str_eq a.currency b.currency
    && same_option eq a.executed_amount b.executed_amount

-- `existing_by_id.get(fill_id)`
unfoldable pub fill_named : String → List Fill → Option Fill
fill_named id [] = none
fill_named id (f ∷ rest) =
    let later = fill_named id rest in if str_eq f.fill_id id then some f else later

-- No identity is twice in the table.
unfoldable pub ids_differ : List Fill → Bool
ids_differ [] = true
ids_differ (f ∷ rest) = not (is_some (fill_named f.fill_id rest)) && ids_differ rest

-- The loop over the executions; the list is the existing rows with the new ones after them.
unfoldable pub stage_each : Staging → List BrokerExecution → List Fill → Result (List Fill)
stage_each g [] known = ok known
stage_each g (x ∷ rest) known =
    let row = fill_of g x in
    let appended = stage_each g rest (known ++ row ∷ []) in
    let skipped = stage_each g rest known in
    if not (same_environment x.environment demo)
    then err (fill_ingestion "only Demo broker executions may be staged")
    else if str_eq (g.ticker_of x.broker_instrument_id) ""
    then err (fill_ingestion "broker execution lacks an exact internal instrument mapping")
    else elim (fill_named row.fill_id known) [
      | none ↦ appended
      | some old ↦
          if same_fill old row
          then skipped
          else err (fill_ingestion "broker fill identity has contradictory values")
    ]

abbrev pub has_amount : BrokerExecution → Bool
has_amount x = is_some x.executed_amount

abbrev pub with_columns : Bool → List Fill → FillTable
with_columns amounts fills = record { has_amounts = amounts; fills = fills }

-- The existing table, which raises on other columns.
abbrev pub existing_table : FillFile → Result FillTable
existing_table nothing_staged = ok (with_columns false [])
existing_table other_columns = err (fill_ingestion "broker fill staging schema is invalid")
existing_table (staged t) = ok t

-- `stage_broker_executions`; the file is written as a whole.
unfoldable pub stage_broker_executions : Staging → List BrokerExecution → Action FillFile FillTable
stage_broker_executions g xs file = elim (existing_table file) [
  | err e ↦ (err e, file)
  | ok t ↦
      if not (ids_differ t.fills)
      then (err (fill_ingestion "broker fill identity collision"), file)
      else elim (stage_each g xs t.fills) [
        | err e ↦ (err e, file)
        | ok fills ↦
            if not (ids_differ fills)
            then (err (fill_ingestion "broker fill identity collision"), file)
            else let table = with_columns (t.has_amounts || any has_amount xs) fills in
              (ok table, staged table)
      ]
]
