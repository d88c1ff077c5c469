-- ===== src/Registry/Cases.antt =====
-- execution/store.py: what each write of the instrument tables does.
use investing_agents.Prelude.{
  ◌≡◌, false, String, str_eq, none, some, ◌∷◌, arith, any, inl, inr, Bool-cases, ap, ◌∙◌, sym,
  subst, ◌⊎◌, ⊤, Option-cases,
}
use investing_agents.Result.{ok, Result-cases}
use investing_agents.Table.{update, find-key}
use investing_agents.Domain.Types.{Uuid, Instant}
use investing_agents.Registry.{
  Instrument, InstrumentTables, BrokerInstrumentMapping, instrument_key, is_listed_as,
  get_instrument, register_instrument, rename_instrument_symbol, save_broker_mapping,
  record_mapping, SymbolChange, change_of, get_broker_mapping, has_number, registered,
  update_symbol, insert_change, insert_instrument, renamed, is_other_listed_as,
}

get_instrument-key :
    (id : Uuid) (s : InstrumentTables) (i : Instrument)
    → get_instrument id s ≡ some i
    → i.internal_instrument_id ≡ id
unfolding get_instrument
get_instrument-key id s i h = find-key instrument_key id s.instruments i h

insert_instrument-adds :
    (i : Instrument) (s : InstrumentTables) (x : ⊤)
    → (insert_instrument i s).0 ≡ ok x
    → ((insert_instrument i s).1.instruments ≡ i ∷ s.instruments)
      × (any (is_listed_as i.canonical_symbol i.exchange) s.instruments ≡ false)
      × ((insert_instrument i s).1.broker_instrument_mappings ≡ s.broker_instrument_mappings)
unfolding insert_instrument
insert_instrument-adds i s x h = ground arith

insert_change-keeps :
    (c : SymbolChange) (s : InstrumentTables)
    → ((insert_change c s).1.instruments ≡ s.instruments)
      × ((insert_change c s).1.broker_instrument_mappings ≡ s.broker_instrument_mappings)
unfolding insert_change
insert_change-keeps c s = ground arith

update_symbol-renames :
    (i : Instrument) (symbol : String) (s : InstrumentTables) (x : ⊤)
    → (update_symbol i symbol s).0 ≡ ok x
    → ((update_symbol i symbol s).1.instruments
        ≡ update instrument_key i.internal_instrument_id (renamed symbol) s.instruments)
      × (any (is_other_listed_as i.internal_instrument_id symbol i.exchange) s.instruments ≡ false)
      × ((update_symbol i symbol s).1.broker_instrument_mappings ≡ s.broker_instrument_mappings)
unfolding update_symbol
update_symbol-renames i symbol s x h = ground arith

-- What a registration does: nothing, or it adds the instrument.
pub register_instrument-cases :
    (i : Instrument) (now : Instant) (s : InstrumentTables)
    → let s' = (register_instrument i now s).1 in
      (s' ≡ s)
      ⊎ ((s'.instruments ≡ i ∷ s.instruments)
          × (any (is_listed_as i.canonical_symbol i.exchange) s.instruments ≡ false)
          × (s'.broker_instrument_mappings ≡ s.broker_instrument_mappings))
unfolding register_instrument
register_instrument-cases i now s =
    let s1 = (insert_instrument i s).1 in
    let c = change_of i i.canonical_symbol now in
    elim (Option-cases (get_instrument i.internal_instrument_id s)) [
      | inr (stored, p) ↦ inl (ground arith)
      | inl missing ↦ elim (Result-cases (insert_instrument i s).0) [
        | inr (e, p) ↦ inl (ground arith)
        | inl (x, p) ↦ elim (Result-cases (insert_change c s1).0) [
          | inr (e, q) ↦ inl (ground arith)
          | inl (y, q) ↦
              let adds = insert_instrument-adds i s x p in
              let keeps = insert_change-keeps c s1 in
              let whole : (register_instrument i now s).1 ≡ (insert_change c s1).1 = ground arith in
              inr (
                ap (λ t. t.instruments) whole ∙ keeps.0 ∙ adds.0,
                adds.1,
                ap (λ t. t.broker_instrument_mappings) whole ∙ keeps.1 ∙ adds.2,
              )
        ]
      ]
    ]

-- What a renaming does: nothing, or it changes the one symbol.
pub rename_instrument_symbol-cases :
    (id : Uuid) (symbol : String) (at : Instant) (s : InstrumentTables)
    → let s' = (rename_instrument_symbol id symbol at s).1 in
      (s' ≡ s)
      ⊎ ((i : Instrument) × (get_instrument i.internal_instrument_id s ≡ some i)
          × (s'.instruments
              ≡ update instrument_key i.internal_instrument_id (renamed symbol) s.instruments)
          × (any (is_other_listed_as i.internal_instrument_id symbol i.exchange) s.instruments
              ≡ false)
          × (s'.broker_instrument_mappings ≡ s.broker_instrument_mappings))
unfolding rename_instrument_symbol
rename_instrument_symbol-cases id symbol at s = elim (Option-cases (get_instrument id s)) [
  | inl missing ↦ inl (ground arith)
  | inr (i, p) ↦
      let named : i.internal_instrument_id ≡ id = get_instrument-key id s i p in
      let s1 = (update_symbol i symbol s).1 in
      let c = change_of i symbol at in
      elim (Result-cases (update_symbol i symbol s).0) [
        | inr (e, r) ↦ inl (ground arith)
        | inl (x, r) ↦ elim (Result-cases (insert_change c s1).0) [
          | inr (e, q) ↦ inl (ground arith)
          | inl (y, q) ↦ elim (Bool-cases (str_eq symbol "")) [
            | inl blank ↦ inl (ground arith)
            | inr given ↦
                let changes = update_symbol-renames i symbol s x r in
                let keeps = insert_change-keeps c s1 in
                let whole : (rename_instrument_symbol id symbol at s).1 ≡ (insert_change c s1).1 =
                  ground arith in
                inr (
                  i,
                  subst (λ k. get_instrument k s ≡ some i) (sym named) p,
                  ap (λ t. t.instruments) whole ∙ keeps.0 ∙ changes.0,
                  changes.1,
                  ap (λ t. t.broker_instrument_mappings) whole ∙ keeps.1 ∙ changes.2,
                )
          ]
        ]
      ]
]

pub save_broker_mapping-cases :
    (m : BrokerInstrumentMapping) (s : InstrumentTables)
    → let s' = (save_broker_mapping m s).1 in
      (s' ≡ s)
      ⊎ ((s'.instruments ≡ s.instruments)
          × (s'.broker_instrument_mappings ≡ m ∷ s.broker_instrument_mappings)
          × (get_broker_mapping m.mapped_instrument m.broker m.environment s ≡ none))
unfolding save_broker_mapping
save_broker_mapping-cases m s =
    elim (Option-cases (get_broker_mapping m.mapped_instrument m.broker m.environment s)) [
      | inr (stored, p) ↦ inl (ground arith)
      | inl fresh ↦ elim (Option-cases (get_instrument m.mapped_instrument s)) [
        | inl missing ↦ inl (ground arith)
        | inr (i, p) ↦
            elim (Bool-cases (
              any (has_number m.broker m.environment m.broker_instrument_id)
                s.broker_instrument_mappings)) [
                  | inl taken ↦ inl (ground arith)
                  | inr free ↦ inr (ground arith, ground arith, fresh)
                ]
      ]
    ]

pub record_mapping-cases :
    (m : BrokerInstrumentMapping) (s : InstrumentTables)
    → ((record_mapping m s).1 ≡ s) ⊎ ((record_mapping m s).1 ≡ (save_broker_mapping m s).1)
unfolding record_mapping
record_mapping-cases m s = elim (Result-cases (registered m.mapped_instrument s)) [
  | inr (e, p) ↦ inl (ground arith)
  | inl (i, p) ↦ elim (Bool-cases (str_eq m.exact_match_symbol i.canonical_symbol)) [
    | inl same ↦ inr (ground arith)
    | inr other ↦ inl (ground arith)
  ]
]
