-- ===== src/Fills/Columns.antt =====
-- execution/fill_ingestion.py: what a row says of an execution, column by column, and rows without a
-- repeated identity.
use investing_agents.Prelude.{
  Bool, ◌&&◌, ⊤, true, false, ==→eq, String, str_eq, eq_iff, Option, none, some, List, [], ◌∷◌,
  Memᴰ, same_option, is_some, ◌⊎◌, inl, inr, ◌≡◌, refl, arith, ap, ◌∙◌, subst, sym, Bool-cases,
}
use investing_agents.Decimal.{Decimal, add, eq}
use investing_agents.Domain.Types.{demo, same_environment-eq}
use investing_agents.Fills.{
  BrokerExecution, Fill, Staging, fill_of, timestamp_of, same_fill, fill_named, ids_differ,
}

-- The instant as the source gave it, or as it is formatted where the source gave none.
abbrev pub IsTimestamp : String → Option String → String → Type 0
IsTimestamp formatted none text = text ≡ formatted
IsTimestamp formatted (some given) text =
    ((str_eq given "" ≡ false) × (text ≡ given)) ⊎ ((str_eq given "" ≡ true) × (text ≡ formatted))

abbrev pub IsSameAmount : Option Decimal → Option Decimal → Type 0
IsSameAmount a b =
    ((a ≡ none) × (b ≡ none))
    ⊎ ((u : Decimal) × (v : Decimal) × (a ≡ some u) × (b ≡ some v) × (eq u v ≡ true))

-- The columns of a row that agrees with an execution; numbers agree numerically.
pub record AgreesWith (g : Staging) (row : Fill) (x : BrokerExecution) : Type 0 where
  pub fill_id : row.fill_id ≡ g.identity g.broker x.environment x.broker_execution_id
  pub ticker : row.ticker ≡ g.ticker_of x.broker_instrument_id
  pub side : row.side ≡ x.side
  pub action : row.action ≡ x.action
  pub broker : row.broker ≡ g.broker
  pub broker_execution_id : row.broker_execution_id ≡ x.broker_execution_id
  pub broker_order_id : row.broker_order_id ≡ x.broker_order_id
  pub broker_position_id : row.broker_position_id ≡ x.broker_position_id
  pub broker_reference_id : row.broker_reference_id ≡ x.broker_reference_id
  pub broker_rate_id : row.broker_rate_id ≡ x.price_rate_id
  pub currency : row.currency ≡ x.currency
  pub environment : row.environment ≡ x.environment
  pub broker_instrument_id : row.broker_instrument_id ≡ x.broker_instrument_id
  pub quantity : eq row.quantity x.units ≡ true
  pub fill_price : eq row.fill_price x.price ≡ true
  pub fees : eq row.fees (add x.fees x.taxes) ≡ true
  pub broker_fee : eq row.broker_fee x.fees ≡ true
  pub broker_tax : eq row.broker_tax x.taxes ≡ true
  pub fill_timestamp :
      IsTimestamp (g.isoformat x.executed_at) x.executed_at_source row.fill_timestamp
  pub executed_amount : IsSameAmount row.executed_amount x.executed_amount

-- A Demo execution of a mapped instrument, with a row of the table that agrees with it.
pub record HasRow (g : Staging) (fills : List Fill) (x : BrokerExecution) : Type 0 where
  pub of_demo : x.environment ≡ demo
  pub mapped : str_eq (g.ticker_of x.broker_instrument_id) "" ≡ false
  pub row : Fill
  pub there : Memᴰ row fills
  pub agrees : AgreesWith g row x

-- No row has the identity of a later one.
abbrev pub HaveDistinctIds : List Fill → Type 0
HaveDistinctIds [] = ⊤
HaveDistinctIds (f ∷ rest) =
    ((h : Fill) → Memᴰ h rest → ¬ (h.fill_id ≡ f.fill_id)) × HaveDistinctIds rest

timestamp_of-IsTimestamp :
    (g : Staging) (x : BrokerExecution)
    → IsTimestamp (g.isoformat x.executed_at) x.executed_at_source (timestamp_of g x)
timestamp_of-IsTimestamp g x = ground arith

same_amount : (a b : Option Decimal) → same_option eq a b ≡ true → IsSameAmount a b
same_amount none none h = inl (refl, refl)
same_amount none (some b) h = absurd (ground arith)
same_amount (some a) none h = absurd (ground arith)
same_amount (some a) (some b) h = inr (a, b, refl, refl, h)

and-parts : (a b : Bool) → (a && b) ≡ true → (a ≡ true) × (b ≡ true)
and-parts a b h = (ground arith, ground arith)

pub same_fill-AgreesWith :
    (g : Staging) (row : Fill) (x : BrokerExecution)
    → same_fill row (fill_of g x) ≡ true
    → AgreesWith g row x
unfolding same_fill
same_fill-AgreesWith g row x h =
    let p19 = and-parts _ _ h in
    let p18 = and-parts _ _ p19.0 in
    let p17 = and-parts _ _ p18.0 in
    let p16 = and-parts _ _ p17.0 in
    let p15 = and-parts _ _ p16.0 in
    let p14 = and-parts _ _ p15.0 in
    let p13 = and-parts _ _ p14.0 in
    let p12 = and-parts _ _ p13.0 in
    let p11 = and-parts _ _ p12.0 in
    let p10 = and-parts _ _ p11.0 in
    let p9 = and-parts _ _ p10.0 in
    let p8 = and-parts _ _ p9.0 in
    let p7 = and-parts _ _ p8.0 in
    let p6 = and-parts _ _ p7.0 in
    let p5 = and-parts _ _ p6.0 in
    let p4 = and-parts _ _ p5.0 in
    let p3 = and-parts _ _ p4.0 in
    let p2 = and-parts _ _ p3.0 in
    let p1 = and-parts _ _ p2.0 in
    let when : row.fill_timestamp ≡ timestamp_of g x = (eq_iff _ _).0 p7.1 in
    record {
      fill_id = (eq_iff _ _).0 p1.0;
      ticker = (eq_iff row.ticker (fill_of g x).ticker).0 p1.1;
      side = (eq_iff row.side (fill_of g x).side).0 p2.1;
      action = (eq_iff row.action (fill_of g x).action).0 p3.1;
      broker = (eq_iff row.broker (fill_of g x).broker).0 p8.1;
      broker_execution_id =
          (eq_iff row.broker_execution_id (fill_of g x).broker_execution_id).0 p10.1;
      broker_order_id = (eq_iff row.broker_order_id (fill_of g x).broker_order_id).0 p11.1;
      broker_position_id = (eq_iff row.broker_position_id (fill_of g x).broker_position_id).0 p12.1;
      broker_reference_id =
          (eq_iff row.broker_reference_id (fill_of g x).broker_reference_id).0 p13.1;
      broker_rate_id = (eq_iff row.broker_rate_id (fill_of g x).broker_rate_id).0 p15.1;
      currency = (eq_iff row.currency (fill_of g x).currency).0 p18.1;
      environment = same_environment-eq row.environment x.environment p9.1;
      broker_instrument_id = ==→eq row.broker_instrument_id x.broker_instrument_id p14.1;
      quantity = p4.1;
      fill_price = p5.1;
      fees = p6.1;
      broker_fee = p16.1;
      broker_tax = p17.1;
      fill_timestamp =
          subst (IsTimestamp (g.isoformat x.executed_at) x.executed_at_source) (sym when)
            (timestamp_of-IsTimestamp g x);
      executed_amount = same_amount row.executed_amount x.executed_amount p19.1;
    }

pub fill_named-Memᴰ :
    (id : String) (fills : List Fill) (f : Fill) → fill_named id fills ≡ some f → Memᴰ f fills
unfolding fill_named
fill_named-Memᴰ id [] f h = absurd (ground arith)
fill_named-Memᴰ id (g ∷ fills) f h = elim (Bool-cases (str_eq g.fill_id id)) [
  | inl here ↦ Memᴰ.head (ground (arith, h, here))
  | inr later ↦ Memᴰ.tail (fill_named-Memᴰ id fills f (ground (arith, h, later)))
]

unnamed :
    (id : String) (fills : List Fill) (f : Fill)
    → is_some (fill_named id fills) ≡ false
    → Memᴰ f fills
    → str_eq f.fill_id id ≡ false
unfolding fill_named
unnamed id [] f h m = elim m [ ]
unnamed id (g ∷ fills) f h (Memᴰ.head e) =
    ap (λ (y : Fill). str_eq y.fill_id id) e ∙ ground (arith, h)
unnamed id (g ∷ fills) f h (Memᴰ.tail m) =
    unnamed id fills f
      (elim (Bool-cases (str_eq g.fill_id id)) [
        | inl here ↦ absurd (ground (arith, h, here))
        | inr later ↦ ground (arith, h, later)
      ])
      m

pub ids_differ-HaveDistinctIds :
    (fills : List Fill) → ids_differ fills ≡ true → HaveDistinctIds fills
unfolding ids_differ
ids_differ-HaveDistinctIds [] h = tt
ids_differ-HaveDistinctIds (f ∷ rest) h = (
  λ g m same.
      let off = unnamed f.fill_id rest g (ground (arith, h)) m in
      ground (arith, off, (eq_iff g.fill_id f.fill_id).1 same),
  ids_differ-HaveDistinctIds rest (ground (arith, h)),
)
