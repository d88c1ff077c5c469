-- ===== src/Tests/Broker.antt =====
-- The coordinator with a broker that acknowledges every order, for the sample order.
use investing_agents.Prelude.{◌≡◌, ◌⊎◌, true, false, some, [], ◌∷◌, String, map}
use investing_agents.Result.{ok, err, Error}
use investing_agents.Decimal.{whole}
use investing_agents.Domain.Types.{
  Uuid, demo, submission_pending, proposed, awaiting_approval, approved,
}
use investing_agents.Registry.{InstrumentTables}
use investing_agents.Store.Tables.{empty_store}
use investing_agents.Store.Intents.{all_distinct}
use investing_agents.Store.Trace.{run, Call}
use investing_agents.Store.Trace.Audit.{IsAudited, events_are_the_history}
use investing_agents.Coordinator.Config.{ExecutionConfig}
use investing_agents.Coordinator.Send.{World, BrokerAdapter, submit_pending_command}
use investing_agents.Coordinator.SendLaws.{every_send_is_Recorded, Recorded}
use investing_agents.Coordinator.OneOrder.{one_order_per_intent, Reached, sent_intent}
use investing_agents.Tests.Samples.{intent, decision, approval, command_in, preparation}

abbrev pub config : ExecutionConfig
config = record {
  schema_version = "1.0";
  intent_import_enabled = true;
  broker_writes_enabled = true;
  adapter = "etoro_demo_manual";
  environment = demo;
  require_internal_instrument_id = true;
  allowed_asset_types = "equity" ∷ [];
  allowed_sides = "buy" ∷ [];
  allowed_leverage = whole 1;
}

abbrev pub registry : InstrumentTables
registry = record {
  instruments =
      record {
        internal_instrument_id = 7;
        canonical_symbol = "ACME";
        exchange = "NYSE";
        asset_type = "equity";
        currency = "USD";
        sector = "unknown";
      }
      ∷ [];
  instrument_symbol_history = [];
  broker_instrument_mappings = [];
}

abbrev adapter : BrokerAdapter
adapter = record {
  broker_name = "etoro";
  environment = demo;
  read_only = false;
  external_reference_identity = false;
  submit_order = λ before i c. ok (record {
    request_id = c.logical_request_id;
    accepted_for_processing = true;
    broker_order_id = some "order-1";
    broker_reference_id = some "ref-1";
    raw_status = "received";
    ambiguous = false;
  });
}

abbrev text : Uuid → String
text id = "51"

abbrev ready : World
ready = record { store = run preparation empty_store; sends = [] }

every_send_is_Recorded_example :
    let (r, w) =
      submit_pending_command text config registry adapter
        (command_in submission_pending)
        intent
        104000000
        ready in
    ((e : Error) × (r ≡ err e) × (w ≡ ready))
    ⊎ Recorded text adapter (command_in submission_pending) intent 104000000 ready r w
every_send_is_Recorded_example =
    every_send_is_Recorded text config registry adapter (command_in submission_pending) intent
      104000000 ready (events_are_the_history preparation)

events_are_the_history_example : IsAudited (run preparation empty_store)
events_are_the_history_example = events_are_the_history preparation

ready-Reached : Reached ready
unfolding run
ready-Reached =
    Reached.stores _
      (Call.authorizes (command_in approved) intent decision approval 103500000 110000000)
      (Reached.stores _ (Call.approves (command_in awaiting_approval) approval 103000000) (
        Reached.stores _ (Call.opens (command_in proposed) decision)
          (Reached.stores _ (Call.saves_intents (intent ∷ [])) Reached.start)))

-- The submission is tried twice.
abbrev tried : World → World
tried w =
    (submit_pending_command text config registry adapter (command_in submission_pending) intent
      104000000 w).1

one_order_per_intent_example : all_distinct (map sent_intent (tried (tried ready)).sends) ≡ true
one_order_per_intent_example = one_order_per_intent (tried (tried ready)) (
    Reached.submits (tried ready) text config registry adapter (command_in submission_pending)
      intent 104000000
      (Reached.submits ready text config registry adapter (command_in submission_pending) intent
        104000000 ready-Reached))
