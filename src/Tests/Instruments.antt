-- ===== src/Tests/Instruments.antt =====
-- The registry: an instrument is registered, renamed and mapped.
use investing_agents.Prelude.{◌≡◌, refl, some, List, [], ◌∷◌, String}
use investing_agents.Table.{find}
use investing_agents.Domain.Types.{Uuid, demo}
use investing_agents.Registry.{
  Instrument, InstrumentTables, BrokerInstrumentMapping, no_instruments, get_instrument,
  get_broker_mapping, register_instrument, record_mapping, insert_instrument, insert_change,
  save_broker_mapping, registered, first, same_instrument, same_mapping,
}
use investing_agents.Registry.Laws.{
  RegistryCall, run_calls, perform_call, symbol_identifies, mapping_is_immutable,
}

abbrev named : String → Instrument
named symbol = record {
  internal_instrument_id = 7;
  canonical_symbol = symbol;
  exchange = "NYSE";
  asset_type = "equity";
  currency = "USD";
  sector = "unknown";
}

abbrev mapping : BrokerInstrumentMapping
mapping = record {
  mapped_instrument = 7;
  broker = "etoro";
  environment = demo;
  broker_instrument_id = 1001;
  exact_match_symbol = "ACME";
  resolved_at = 10;
  metadata_checksum = 99;
}

-- The second registration collides with the first.
abbrev registrations : List RegistryCall
registrations =
    RegistryCall.registers (named "ACME") 1
    ∷ RegistryCall.registers (record (named "ACME") { internal_instrument_id = 8 }) 2
    ∷ RegistryCall.maps mapping
    ∷ []

abbrev later : List RegistryCall
later =
    RegistryCall.renames 7 "ACMX" 3
    ∷ RegistryCall.maps
        (record mapping { broker_instrument_id = 1002; exact_match_symbol = "ACMX" })
    ∷ []

abbrev tables : InstrumentTables
tables = run_calls registrations no_instruments

found : get_instrument 7 tables ≡ some (named "ACME")
unfolding run_calls perform_call register_instrument insert_instrument insert_change get_instrument
    record_mapping registered save_broker_mapping get_broker_mapping first find same_instrument
    same_mapping
found = refl

mapped : get_broker_mapping 7 "etoro" demo tables ≡ some mapping
unfolding run_calls perform_call register_instrument insert_instrument insert_change get_instrument
    record_mapping registered save_broker_mapping get_broker_mapping first find same_instrument
    same_mapping
mapped = refl

abbrev acme : Uuid
acme = 7

symbol_identifies_example : acme ≡ acme
symbol_identifies_example =
    symbol_identifies registrations acme acme (named "ACME") (named "ACME") found found refl

mapping_is_immutable_example :
    get_broker_mapping 7 "etoro" demo (run_calls later tables) ≡ some mapping
mapping_is_immutable_example = mapping_is_immutable later tables 7 "etoro" demo mapping mapped
