-- ===== src/Registry/Laws.antt =====
-- execution/instruments.py and execution/store.py: identities over any sequence of calls.
use investing_agents.Prelude.{
  ◌≡◌, true, String, eq_iff, none, some, List, [], ◌∷◌, arith, inl, inr, Bool-cases, ap, ◌∙◌, sym,
  subst,
}
use investing_agents.Table.{find}
use investing_agents.Domain.Types.{Uuid, Instant, Environment, same_environment-eq}
use investing_agents.Registry.{
  Instrument, InstrumentTables, BrokerInstrumentMapping, instrument_key, is_listed_as,
  get_instrument, register_instrument, rename_instrument_symbol, record_mapping, no_instruments,
  first, get_broker_mapping, maps_in,
}
use investing_agents.Registry.Cases.{
  register_instrument-cases, rename_instrument_symbol-cases, save_broker_mapping-cases,
  record_mapping-cases,
}
use investing_agents.Registry.Listing.{IsUnambiguous, inserted-IsUnambiguous, updated-IsUnambiguous}

-- The calls that write.
pub data RegistryCall : Type 0 where
  registers : Instrument → Instant → RegistryCall
  renames : Uuid → String → Instant → RegistryCall
  maps : BrokerInstrumentMapping → RegistryCall

unfoldable pub perform_call : RegistryCall → InstrumentTables → InstrumentTables
perform_call (registers i now) s = (register_instrument i now s).1
perform_call (renames id symbol at) s = (rename_instrument_symbol id symbol at s).1
perform_call (maps m) s = (record_mapping m s).1

unfoldable pub run_calls : List RegistryCall → InstrumentTables → InstrumentTables
run_calls [] s = s
run_calls (call ∷ rest) s = run_calls rest (perform_call call s)

same-IsUnambiguous :
    (s s' : InstrumentTables) → s'.instruments ≡ s.instruments → IsUnambiguous s → IsUnambiguous s'
unfolding get_instrument
same-IsUnambiguous s s' same sound j k a b p q =
    sound j k a b (ap (find instrument_key j) (sym same) ∙ p)
      (ap (find instrument_key k) (sym same) ∙ q)

perform_call-IsUnambiguous :
    (call : RegistryCall) (s : InstrumentTables)
    → IsUnambiguous s
    → IsUnambiguous (perform_call call s)
unfolding perform_call
perform_call-IsUnambiguous (registers i now) s sound = elim (register_instrument-cases i now s) [
  | inl same ↦ same-IsUnambiguous s _ (ap (λ t. t.instruments) same) sound
  | inr (new, free, _) ↦ inserted-IsUnambiguous i s _ new free sound
]
perform_call-IsUnambiguous (renames id symbol at) s sound =
    elim (rename_instrument_symbol-cases id symbol at s) [
      | inl same ↦ same-IsUnambiguous s _ (ap (λ t. t.instruments) same) sound
      | inr (i, found, new, free, _) ↦ updated-IsUnambiguous i symbol s _ new found free sound
    ]
perform_call-IsUnambiguous (maps m) s sound = elim (record_mapping-cases m s) [
  | inl same ↦ same-IsUnambiguous s _ (ap (λ t. t.instruments) same) sound
  | inr saved ↦ elim (save_broker_mapping-cases m s) [
    | inl same ↦ same-IsUnambiguous s _ (ap (λ t. t.instruments) (saved ∙ same)) sound
    | inr (kept, _, _) ↦ same-IsUnambiguous s _ (ap (λ t. t.instruments) saved ∙ kept) sound
  ]
]

run_calls-IsUnambiguous :
    (calls : List RegistryCall) (s : InstrumentTables)
    → IsUnambiguous s
    → IsUnambiguous (run_calls calls s)
unfolding run_calls
run_calls-IsUnambiguous [] s sound = sound
run_calls-IsUnambiguous (call ∷ rest) s sound =
    run_calls-IsUnambiguous rest (perform_call call s) (perform_call-IsUnambiguous call s sound)

empty-IsUnambiguous : IsUnambiguous no_instruments
unfolding get_instrument find
empty-IsUnambiguous j k a b p q same = absurd (ground arith)

-- After any registrations, renamings and mappings on empty tables, whether they returned or raised,
-- two instruments that are found and have the same symbol on the same exchange are one.
pub symbol_identifies :
    (calls : List RegistryCall) (i j : Uuid) (a b : Instrument)
    → get_instrument i (run_calls calls no_instruments) ≡ some a
    → get_instrument j (run_calls calls no_instruments) ≡ some b
    → is_listed_as a.canonical_symbol a.exchange b ≡ true
    → i ≡ j
symbol_identifies calls = run_calls-IsUnambiguous calls no_instruments empty-IsUnambiguous

-- A new mapping in front does not hide one that is there.
cons-kept :
    (m n : BrokerInstrumentMapping) (id : Uuid) (broker : String) (environment : Environment)
    → (rows : List BrokerInstrumentMapping)
    → first (maps_in n.mapped_instrument n.broker n.environment) rows ≡ none
    → first (maps_in id broker environment) rows ≡ some m
    → first (maps_in id broker environment) (n ∷ rows) ≡ some m
unfolding first
cons-kept m n id broker environment rows fresh found =
    elim (Bool-cases (maps_in id broker environment n)) [
      | inr apart ↦ rw apart found
      | inl same ↦
          let one : n.mapped_instrument ≡ id = ground arith in
          let two : n.broker ≡ broker = (eq_iff n.broker broker).0 (ground arith) in
          let three : n.environment ≡ environment =
            same_environment-eq n.environment environment (ground arith) in
          let hidden : first (maps_in id broker environment) rows ≡ none =
            subst (λ k. first (maps_in k broker environment) rows ≡ none) one
              (subst (λ t. first (maps_in n.mapped_instrument t environment) rows ≡ none) two
                (subst (λ e. first (maps_in n.mapped_instrument n.broker e) rows ≡ none) three
                  fresh)) in
          absurd (ground (arith, hidden))
    ]

perform_call-mapping :
    (call : RegistryCall) (s : InstrumentTables) (id : Uuid) (broker : String)
    → (environment : Environment) (m : BrokerInstrumentMapping)
    → get_broker_mapping id broker environment s ≡ some m
    → get_broker_mapping id broker environment (perform_call call s) ≡ some m
unfolding perform_call get_broker_mapping
perform_call-mapping (registers i now) s id broker environment m h =
    elim (register_instrument-cases i now s) [
      | inl same ↦
          ap (λ t. first (maps_in id broker environment) t.broker_instrument_mappings) same ∙ h
      | inr (_, _, kept) ↦ ap (first (maps_in id broker environment)) kept ∙ h
    ]
perform_call-mapping (renames i symbol at) s id broker environment m h =
    elim (rename_instrument_symbol-cases i symbol at s) [
      | inl same ↦
          ap (λ t. first (maps_in id broker environment) t.broker_instrument_mappings) same ∙ h
      | inr (_, _, _, _, kept) ↦ ap (first (maps_in id broker environment)) kept ∙ h
    ]
perform_call-mapping (maps n) s id broker environment m h = elim (record_mapping-cases n s) [
  | inl same ↦ ap (λ t. first (maps_in id broker environment) t.broker_instrument_mappings) same ∙ h
  | inr saved ↦
      let rows = λ (t : InstrumentTables).
        first (maps_in id broker environment) t.broker_instrument_mappings in
      elim (save_broker_mapping-cases n s) [
        | inl same ↦ ap rows (saved ∙ same) ∙ h
        | inr (_, added, fresh) ↦
            ap rows saved
            ∙ ap (first (maps_in id broker environment)) added
            ∙ cons-kept m n id broker environment s.broker_instrument_mappings fresh h
      ]
]

-- A broker mapping that is stored stays the same, whatever is called after.
pub mapping_is_immutable :
    (calls : List RegistryCall) (s : InstrumentTables) (id : Uuid) (broker : String)
    → (environment : Environment) (m : BrokerInstrumentMapping)
    → get_broker_mapping id broker environment s ≡ some m
    → get_broker_mapping id broker environment (run_calls calls s) ≡ some m
unfolding run_calls
mapping_is_immutable [] s id broker environment m h = h
mapping_is_immutable (call ∷ rest) s id broker environment m h =
    mapping_is_immutable rest (perform_call call s) id broker environment m
      (perform_call-mapping call s id broker environment m h)
