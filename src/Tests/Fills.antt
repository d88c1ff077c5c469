-- ===== src/Tests/Fills.antt =====
-- Executions staged into a table that has one of them.
use investing_agents.Prelude.{false, String, none, List, [], ◌∷◌, ◌++◌, ◌≡◌, ◌⊎◌, refl, Memᴰ}
use investing_agents.Result.{Error, ok, err}
use investing_agents.Int.{◌+ℤ◌, ◌*ℤ◌}
use investing_agents.Decimal.{whole, add}
use investing_agents.Domain.Types.{demo}
use investing_agents.Fills.{
  BrokerExecution, Fill, FillTable, staged, Staging, fill_of, same_fill, fill_named, ids_differ,
  stage_each, existing_table, stage_broker_executions,
}
use investing_agents.Fills.Columns.{HasRow, HaveDistinctIds}
use investing_agents.Fills.Repeat.{staging_keeps_and_agrees, staging_again_changes_nothing}

abbrev staging : Staging
staging = record {
  broker = "etoro";
  ticker_of = λ id. "ACME";
  identity = λ broker environment id. id;
  isoformat = λ moment. "2026-01-05T15:00:00+00:00";
}

abbrev execution : String → BrokerExecution
execution id = record {
  broker_execution_id = id;
  broker_order_id = "o-1";
  broker_instrument_id = 1001;
  broker_position_id = "p-1";
  broker_reference_id = "r-1";
  environment = demo;
  side = "buy";
  action = "open";
  units = whole 2;
  price = whole 50;
  executed_at = 100;
  price_rate_id = "rate";
  fees = whole 1;
  taxes = whole 0;
  currency = "USD";
  executed_amount = none;
  executed_at_source = none;
}

abbrev old : FillTable
old = record { has_amounts = false; fills = fill_of staging (execution "e-1") ∷ [] }

abbrev batch : List BrokerExecution
batch = execution "e-1" ∷ execution "e-2" ∷ execution "e-2" ∷ []

abbrev both : FillTable
both = record {
  has_amounts = false;
  fills = fill_of staging (execution "e-1") ∷ fill_of staging (execution "e-2") ∷ [];
}

first_staging : (stage_broker_executions staging batch (staged old)).0 ≡ ok both
unfolding stage_broker_executions stage_each fill_named ids_differ same_fill add ◌+ℤ◌ ◌*ℤ◌
first_staging = refl

-- The same identity with another quantity is refused.
contradicted :
    (stage_broker_executions staging
      (record (execution "e-1") { units = whole 3 } ∷ [])
      (staged old)).1
    ≡ staged old
unfolding stage_broker_executions stage_each fill_named ids_differ same_fill add ◌+ℤ◌ ◌*ℤ◌
contradicted = refl

staging_keeps_and_agrees_example :
    ((t : FillTable) × ((stage_broker_executions staging batch (staged old)).0 ≡ ok t)
      × ((stage_broker_executions staging batch (staged old)).1 ≡ staged t)
      × HaveDistinctIds t.fills
      × ((x : BrokerExecution) → Memᴰ x batch → HasRow staging t.fills x)
      × ((before : FillTable) × (new : List Fill) × (existing_table (staged old) ≡ ok before)
          × (t.fills ≡ before.fills ++ new)))
    ⊎ ((e : Error) × ((stage_broker_executions staging batch (staged old)).0 ≡ err e)
        × ((stage_broker_executions staging batch (staged old)).1 ≡ staged old))
staging_keeps_and_agrees_example = staging_keeps_and_agrees staging batch (staged old)

staging_again_changes_nothing_example :
    stage_broker_executions staging batch (stage_broker_executions staging batch (staged old)).1
    ≡ (ok both, staged both)
staging_again_changes_nothing_example =
    staging_again_changes_nothing staging batch (staged old) both first_staging
