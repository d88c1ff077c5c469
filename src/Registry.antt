-- ===== src/Registry.antt =====
-- execution/instruments.py, and the instrument tables of execution/store.py: identities of
-- instruments, their symbols, and the broker's numbers for them. Texts are stripped and in the case
-- that the constructors give them; a checksum is a digest.
pub mod Cases
pub mod Listing
pub mod Laws
use investing_agents.Prelude.{
  ℕ, ⊤, Bool, not, ◌&&◌, ◌||◌, String, str_eq, Option, none, some, List, [], ◌∷◌, ◌==◌, any,
  is_none, if◌then◌else◌,
}
use investing_agents.Result.{
  Result, ok, err, Action, raise_if, query, pure, transaction, or_raise, ◌>>=◌, ◌>>◌,
  domain_validation, instrument_collision, instrument_not_found, instrument_mapping,
}
use investing_agents.Table.{find, update}
use investing_agents.Domain.Types.{Uuid, Digest, Instant, Environment, same_environment}

pub record Instrument : Type 0 where
  pub internal_instrument_id : Uuid
  pub canonical_symbol : String
  pub exchange : String
  pub asset_type : String
  pub currency : String
  pub sector : String

-- `Instrument.__post_init__`; a blank sector becomes "unknown".
unfoldable pub validate_instrument : Instrument → Result Instrument
validate_instrument i =
    if str_eq i.canonical_symbol ""
      || str_eq i.exchange ""
      || str_eq i.asset_type ""
      || str_eq i.currency ""
    then err (domain_validation "instrument fields must not be blank")
    else ok (record i { sector = if str_eq i.sector "" then "unknown" else i.sector })

pub record BrokerInstrumentMapping : Type 0 where
  pub mapped_instrument : Uuid
  pub broker : String
  pub environment : Environment
  pub broker_instrument_id : ℕ
  pub exact_match_symbol : String
  pub resolved_at : Instant
  pub metadata_checksum : Digest

-- `BrokerInstrumentMapping.from_resolution` with the constructor's checks.
unfoldable pub from_resolution :
    Instrument
    → String
    → Environment
    → ℕ
    → String
    → Digest
    → Instant
    → Result BrokerInstrumentMapping
from_resolution i broker environment broker_instrument_id exact_symbol checksum resolved_at =
    if not (str_eq exact_symbol i.canonical_symbol)
    then err (instrument_mapping "broker symbol is not an exact match for the canonical symbol")
    else if broker_instrument_id == 0
    then err (domain_validation "broker_instrument_id must be positive")
    else if str_eq broker "" || str_eq exact_symbol ""
    then err (domain_validation "broker mapping identity must not be blank")
    else ok (record {
      mapped_instrument = i.internal_instrument_id;
      broker = broker;
      environment = environment;
      broker_instrument_id = broker_instrument_id;
      exact_match_symbol = exact_symbol;
      resolved_at = resolved_at;
      metadata_checksum = checksum;
    })

-- A row of instrument_symbol_history.
pub record SymbolChange : Type 0 where
  pub changed_instrument : Uuid
  pub symbol : String
  pub effective_at : Instant

pub record InstrumentTables : Type 0 where
  pub instruments : List Instrument
  pub instrument_symbol_history : List SymbolChange
  pub broker_instrument_mappings : List BrokerInstrumentMapping

abbrev pub no_instruments : InstrumentTables
no_instruments = record {
  instruments = [];
  instrument_symbol_history = [];
  broker_instrument_mappings = [];
}

abbrev pub instrument_key : Instrument → Uuid
instrument_key i = i.internal_instrument_id

-- The dataclass's `==`.
unfoldable pub same_instrument : Instrument → Instrument → Bool
same_instrument a b =
    a.internal_instrument_id == b.internal_instrument_id
    && str_eq a.canonical_symbol b.canonical_symbol
    && str_eq a.exchange b.exchange
    && str_eq a.asset_type b.asset_type
    && str_eq a.currency b.currency
    && str_eq a.sector b.sector

unfoldable pub same_mapping : BrokerInstrumentMapping → BrokerInstrumentMapping → Bool
same_mapping a b =
    a.mapped_instrument == b.mapped_instrument
    && str_eq a.broker b.broker
    && same_environment a.environment b.environment
    && a.broker_instrument_id == b.broker_instrument_id
    && str_eq a.exact_match_symbol b.exact_match_symbol
    && a.resolved_at == b.resolved_at
    && a.metadata_checksum == b.metadata_checksum

-- `WHERE canonical_symbol = ? AND exchange = ?`
abbrev pub is_listed_as : String → String → Instrument → Bool
is_listed_as symbol exchange i = str_eq i.canonical_symbol symbol && str_eq i.exchange exchange

abbrev pub is_change : Uuid → String → Instant → SymbolChange → Bool
is_change id symbol at c =
    c.changed_instrument == id && str_eq c.symbol symbol && c.effective_at == at

unfoldable pub first : {R : Type 0} → (R → Bool) → List R → Option R
first test [] = none
first test (r ∷ rows) = if test r then some r else first test rows

unfoldable pub get_instrument : Uuid → InstrumentTables → Option Instrument
get_instrument id s = find instrument_key id s.instruments

unfoldable pub find_instrument : String → String → InstrumentTables → Option Instrument
find_instrument symbol exchange s = first (is_listed_as symbol exchange) s.instruments

-- The insert into instrument_symbol_history, whose three columns are unique together.
unfoldable pub insert_change : SymbolChange → Action InstrumentTables ⊤
insert_change c s =
    if any (is_change c.changed_instrument c.symbol c.effective_at) s.instrument_symbol_history
    then (err (instrument_collision "the same change is recorded"), s)
    else (ok tt, record s { instrument_symbol_history = c ∷ s.instrument_symbol_history })

-- The insert into instruments; symbol and exchange are unique together.
unfoldable pub insert_instrument : Instrument → Action InstrumentTables ⊤
insert_instrument i s =
    if any (is_listed_as i.canonical_symbol i.exchange) s.instruments
    then (err (instrument_collision "symbol and exchange already identify another instrument"), s)
    else (ok tt, record s { instruments = i ∷ s.instruments })

abbrev pub change_of : Instrument → String → Instant → SymbolChange
change_of i symbol at = record {
  changed_instrument = i.internal_instrument_id;
  symbol = symbol;
  effective_at = at;
}

-- `register_instrument`, at the time `now`.
unfoldable pub register_instrument : Instrument → Instant → Action InstrumentTables Instrument
register_instrument i now s = elim (get_instrument i.internal_instrument_id s) [
  | some stored ↦
      if same_instrument stored i
      then (ok stored, s)
      else (err (instrument_collision "internal instrument UUID is immutable"), s)
  | none ↦
      transaction
        (do insert_instrument i; insert_change (change_of i i.canonical_symbol now); pure i) s
]

abbrev pub is_other_listed_as : Uuid → String → String → Instrument → Bool
is_other_listed_as id symbol exchange i =
    not (i.internal_instrument_id == id) && is_listed_as symbol exchange i

abbrev pub renamed : String → Instrument → Instrument
renamed symbol i = record i { canonical_symbol = symbol }

-- `UPDATE instruments SET canonical_symbol = ?`, on which the unique pair is checked again.
unfoldable pub update_symbol : Instrument → String → Action InstrumentTables ⊤
update_symbol i symbol s =
    if any (is_other_listed_as i.internal_instrument_id symbol i.exchange) s.instruments
    then (err (instrument_collision "ticker change collides"), s)
    else (
      ok tt,
      record s {
        instruments = update instrument_key i.internal_instrument_id (renamed symbol) s.instruments;
      },
    )

unfoldable pub rename_instrument_symbol :
    Uuid → String → Instant → Action InstrumentTables Instrument
rename_instrument_symbol id symbol at = do
  i ← query (λ s. or_raise (get_instrument id s) instrument_not_found)
  raise_if (str_eq symbol "") (domain_validation "new_symbol must not be blank")
  transaction (update_symbol i symbol >> insert_change (change_of i symbol at))
  pure (renamed symbol i)

-- The primary key, and the other unique columns, of broker_instrument_mappings.
abbrev pub maps_in : Uuid → String → Environment → BrokerInstrumentMapping → Bool
maps_in id broker environment m =
    m.mapped_instrument == id
    && str_eq m.broker broker
    && same_environment m.environment environment

abbrev pub has_number : String → Environment → ℕ → BrokerInstrumentMapping → Bool
has_number broker environment number m =
    str_eq m.broker broker
    && same_environment m.environment environment
    && m.broker_instrument_id == number

unfoldable pub get_broker_mapping :
    Uuid → String → Environment → InstrumentTables → Option BrokerInstrumentMapping
get_broker_mapping id broker environment s =
    first (maps_in id broker environment) s.broker_instrument_mappings

unfoldable pub save_broker_mapping : BrokerInstrumentMapping → Action InstrumentTables ⊤
save_broker_mapping m s =
    if is_none (get_instrument m.mapped_instrument s)
    then (err instrument_not_found, s)
    else elim (get_broker_mapping m.mapped_instrument m.broker m.environment s) [
      | some stored ↦
          if same_mapping stored m
          then (ok tt, s)
          else (err (instrument_collision "broker mapping is immutable once persisted"), s)
      | none ↦
          if any (has_number m.broker m.environment m.broker_instrument_id)
            s.broker_instrument_mappings
          then (err (instrument_collision "broker instrument ID already maps"), s)
          else (ok tt, record s { broker_instrument_mappings = m ∷ s.broker_instrument_mappings })
    ]

-- `InstrumentRegistry.get`
unfoldable pub registered : Uuid → InstrumentTables → Result Instrument
registered id s = or_raise (get_instrument id s) instrument_not_found

-- `InstrumentRegistry.record_mapping`
unfoldable pub record_mapping : BrokerInstrumentMapping → Action InstrumentTables ⊤
record_mapping m = do
  i ← query (registered m.mapped_instrument)
  raise_if (not (str_eq m.exact_match_symbol i.canonical_symbol))
      (instrument_mapping "broker mapping does not match the current canonical symbol")
  save_broker_mapping m
