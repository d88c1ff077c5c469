-- ===== src/Registry/Listing.antt =====
-- execution/store.py: the listings after an instrument is added or renamed.
use investing_agents.Prelude.{
  ◌≡◌, refl, true, false, String, str_eq, eq_iff, some, ◌∷◌, ◌==◌, arith, any, inl, inr, Bool-cases,
  ap, ◌∙◌, sym,
}
use investing_agents.Table.{find, find-cons, update, find-update, any-find, find-key}
use investing_agents.Domain.Types.{Uuid}
use investing_agents.Registry.{
  Instrument, InstrumentTables, instrument_key, is_listed_as, get_instrument, renamed,
  is_other_listed_as,
}

-- Two instruments with one symbol on one exchange are the same.
abbrev pub IsUnambiguous : InstrumentTables → Type 0
IsUnambiguous s =
    (i j : Uuid) (a b : Instrument)
    → get_instrument i s ≡ some a
    → get_instrument j s ≡ some b
    → is_listed_as a.canonical_symbol a.exchange b ≡ true
    → i ≡ j

str_eq_sym : (a b : String) → str_eq a b ≡ str_eq b a
str_eq_sym a b = grind (arith, eq_iff)

is_listed_as-sym :
    (a b : Instrument)
    → is_listed_as a.canonical_symbol a.exchange b ≡ is_listed_as b.canonical_symbol b.exchange a
is_listed_as-sym a b = rw (str_eq_sym a.canonical_symbol, str_eq_sym a.exchange) refl

pub inserted-IsUnambiguous :
    (i : Instrument) (s : InstrumentTables) (s' : InstrumentTables)
    → s'.instruments ≡ i ∷ s.instruments
    → any (is_listed_as i.canonical_symbol i.exchange) s.instruments ≡ false
    → IsUnambiguous s
    → IsUnambiguous s'
unfolding get_instrument
inserted-IsUnambiguous i s s' new free sound j k a b p q same =
    let at_head = λ (id : Uuid). find-cons instrument_key id i s.instruments in
    let p' = ap (find instrument_key j) (sym new) ∙ p in
    let q' = ap (find instrument_key k) (sym new) ∙ q in
    elim (Bool-cases (i.internal_instrument_id == j)) [
      | inl at_j ↦ elim (Bool-cases (i.internal_instrument_id == k)) [
        | inl at_k ↦ ground arith
        | inr off_k ↦
            let other : find instrument_key k s.instruments ≡ some b =
              ground (arith, q', at_head k) in
            let apart =
              any-find instrument_key (is_listed_as i.canonical_symbol i.exchange) k s.instruments b
                other free in
            absurd (ground (arith, p', at_head j, apart))
      ]
      | inr off_j ↦
          let other : find instrument_key j s.instruments ≡ some a =
            ground (arith, p', at_head j) in
          elim (Bool-cases (i.internal_instrument_id == k)) [
            | inl at_k ↦
                let apart =
                  any-find instrument_key (is_listed_as i.canonical_symbol i.exchange) j
                    s.instruments a other free in
                absurd (ground (arith, q', at_head k, apart, is_listed_as-sym a b))
            | inr off_k ↦ sound j k a b other (ground (arith, q', at_head k)) same
          ]
    ]

pub updated-IsUnambiguous :
    (i : Instrument) (symbol : String) (s s' : InstrumentTables)
    → s'.instruments ≡ update instrument_key i.internal_instrument_id (renamed symbol) s.instruments
    → get_instrument i.internal_instrument_id s ≡ some i
    → any (is_other_listed_as i.internal_instrument_id symbol i.exchange) s.instruments ≡ false
    → IsUnambiguous s
    → IsUnambiguous s'
unfolding get_instrument
updated-IsUnambiguous i symbol s s' new found free sound j k a b p q same =
    let id = i.internal_instrument_id in
    let at =
      λ (m : Uuid). find-update instrument_key m id (renamed symbol) s.instruments (λ r e. e) in
    let p' = ap (find instrument_key j) (sym new) ∙ p in
    let q' = ap (find instrument_key k) (sym new) ∙ q in
    elim (Bool-cases (j == id)) [
      | inl at_j ↦ elim (Bool-cases (k == id)) [
        | inl at_k ↦ ground arith
        | inr off_k ↦
            let other : find instrument_key k s.instruments ≡ some b = ground (arith, q', at k) in
            let apart =
              any-find instrument_key (is_other_listed_as id symbol i.exchange) k s.instruments b
                other free in
            let named = find-key instrument_key k s.instruments b other in
            absurd (ground (arith, p', at j, apart, found, named))
      ]
      | inr off_j ↦
          let other : find instrument_key j s.instruments ≡ some a = ground (arith, p', at j) in
          elim (Bool-cases (k == id)) [
            | inl at_k ↦
                let apart =
                  any-find instrument_key (is_other_listed_as id symbol i.exchange) j s.instruments
                    a other free in
                let named = find-key instrument_key j s.instruments a other in
                absurd (ground (arith, q', at k, apart, found, named, is_listed_as-sym a b))
            | inr off_k ↦ sound j k a b other (ground (arith, q', at k)) same
          ]
    ]
