-- ===== src/Risk/Evaluate/Merged.antt =====
-- risk/pretrade.py: the merged pending orders, without the evaluator's own tests.
use mathlib.Core.Logic.{◌↔◌}
use investing_agents.Prelude.{
  not, ◌||◌, true, false, Bool, str_eq, eq_iff, List, [], ◌∷◌, Memᴰ, ◌⊎◌, inl, inr, ◌≡◌, refl,
  arith, ap, sym, subst, ◌∙◌, ==→eq, if◌then◌else◌,
}
use investing_agents.Decimal.{Decimal, le, eq}
use investing_agents.Decimal.Order.{le_refl, le_trans}
use investing_agents.Domain.Types.{OrderSide, buy, sell, same_side}
use investing_agents.Risk.Account.{PendingOrderEvidence}
use investing_agents.Risk.Projection.{put_pending, merge_pending, contradicts, same_pending}
use investing_agents.Risk.Evaluate.Admissible.{IsMerged, AgreesOn, IsThere, HaveDistinctOrders}

-- A row of the merged orders is the new one or was there.
put_pending-from :
    (p x : PendingOrderEvidence) (seen : List PendingOrderEvidence)
    → Memᴰ x (put_pending p seen)
    → (x ≡ p) ⊎ Memᴰ x seen
unfolding put_pending
put_pending-from p x [] (Memᴰ.head e) = inl e
put_pending-from p x [] (Memᴰ.tail m) = elim m [ ]
put_pending-from p x (q ∷ rest) m =
    go (put_pending-from p x rest) (str_eq q.broker_order_id p.broker_order_id) m
  where
    go :
        (Memᴰ x (put_pending p rest) → (x ≡ p) ⊎ Memᴰ x rest)
        → (b : Bool) → Memᴰ x (if b then p ∷ rest else q ∷ put_pending p rest)
        → (x ≡ p) ⊎ Memᴰ x (q ∷ rest)
    go rec true (Memᴰ.head e) = inl e
    go rec true (Memᴰ.tail n) = inr (Memᴰ.tail n)
    go rec false (Memᴰ.head e) = inr (Memᴰ.head e)
    go rec false (Memᴰ.tail n) = elim (rec n) [
      | inl same ↦ inl same
      | inr there ↦ inr (Memᴰ.tail there)
    ]

refl-AgreesOn : (p : PendingOrderEvidence) → AgreesOn p p
refl-AgreesOn p =
    (refl, refl, refl, refl, le_refl p.remaining_notional, le_refl p.remaining_notional)

trans-AgreesOn : (p q r : PendingOrderEvidence) → AgreesOn p q → AgreesOn q r → AgreesOn p r
trans-AgreesOn p q r (id, kind, sector, side, below, above)
      (id', kind', sector', side', below', above') =
    (
      id' ∙ id,
      kind' ∙ kind,
      sector' ∙ sector,
      side' ∙ side,
      le_trans r.remaining_notional q.remaining_notional p.remaining_notional below' below,
      le_trans p.remaining_notional q.remaining_notional r.remaining_notional above above',
    )

same_side-eq : (s t : OrderSide) → same_side s t ≡ true → s ≡ t
same_side-eq buy buy h = refl
same_side-eq buy sell h = absurd (ground arith)
same_side-eq sell buy h = absurd (ground arith)
same_side-eq sell sell h = refl

eq-le : (a b : Decimal) → eq a b ≡ true → (le a b ≡ true) × (le b a ≡ true)
eq-le a b h = (ground (arith, h), ground (arith, h))

same_pending-AgreesOn : (q p : PendingOrderEvidence) → same_pending q p ≡ true → AgreesOn q p
same_pending-AgreesOn q p h =
    let (below, above) = eq-le q.remaining_notional p.remaining_notional (ground (arith, h)) in
    (
      sym ((eq_iff q.broker_order_id p.broker_order_id).0 (ground (arith, h))),
      sym (==→eq q.ordered_instrument p.ordered_instrument (ground (arith, h))),
      sym ((eq_iff q.sector p.sector).0 (ground (arith, h))),
      sym (same_side-eq q.side p.side (ground (arith, h))),
      above,
      below,
    )

IsThere-cons :
    (x q : PendingOrderEvidence) (ps : List PendingOrderEvidence)
    → IsThere x ps
    → IsThere x (q ∷ ps)
IsThere-cons x q ps (y, m, same) = (y, Memᴰ.tail m, same)

put_pending-new :
    (p : PendingOrderEvidence) (seen : List PendingOrderEvidence) → IsThere p (put_pending p seen)
unfolding put_pending
put_pending-new p [] = (p, Memᴰ.head refl, refl-AgreesOn p)
put_pending-new p (q ∷ rest) =
    go (put_pending-new p rest) (str_eq q.broker_order_id p.broker_order_id)
  where
    go :
        IsThere p (put_pending p rest)
        → (b : Bool) → IsThere p (if b then p ∷ rest else q ∷ put_pending p rest)
    go rec true = (p, Memᴰ.head refl, refl-AgreesOn p)
    go rec false = IsThere-cons p q (put_pending p rest) rec

-- Without a contradiction, a row that is replaced agrees with the new one.
put_pending-kept :
    (p x : PendingOrderEvidence) (seen : List PendingOrderEvidence)
    → contradicts p seen ≡ false
    → IsThere x seen
    → IsThere x (put_pending p seen)
unfolding put_pending contradicts
put_pending-kept p x [] clean (y, m, same) = elim m [ ]
put_pending-kept p x (q ∷ rest) clean (y, m, same) =
    go (put_pending-kept p x rest) m (str_eq q.broker_order_id p.broker_order_id) clean
  where
    go :
        (contradicts p rest ≡ false → IsThere x rest → IsThere x (put_pending p rest))
        → Memᴰ y (q ∷ rest)
        → (b : Bool) → (if b then not (same_pending q p) else contradicts p rest) ≡ false
        → IsThere x (if b then p ∷ rest else q ∷ put_pending p rest)
    go rec (Memᴰ.head e) true h = (
      p,
      Memᴰ.head refl,
      trans-AgreesOn x q p (subst (AgreesOn x) e same)
          (same_pending-AgreesOn q p (ground (arith, h))),
    )
    go rec (Memᴰ.head e) false h = (y, Memᴰ.head e, same)
    go rec (Memᴰ.tail n) true h = (y, Memᴰ.tail n, same)
    go rec (Memᴰ.tail n) false h = IsThere-cons x q (put_pending p rest) (rec h (y, n, same))

-- A new row keeps the identities apart.
put_pending-apart :
    (p : PendingOrderEvidence) (seen : List PendingOrderEvidence)
    → HaveDistinctOrders seen
    → HaveDistinctOrders (put_pending p seen)
unfolding put_pending
put_pending-apart p [] d = ((λ h m. elim m [ ]), tt)
put_pending-apart p (q ∷ rest) (first, others) =
    go (put_pending-apart p rest others) (str_eq q.broker_order_id p.broker_order_id)
      (eq_iff q.broker_order_id p.broker_order_id)
  where
    go :
        HaveDistinctOrders (put_pending p rest)
        → (b : Bool) → (b ≡ true) ↔ (q.broker_order_id ≡ p.broker_order_id)
        → HaveDistinctOrders (if b then p ∷ rest else q ∷ put_pending p rest)
    go rec true same = ((λ h m e. first h m (e ∙ sym (same.0 refl))), others)
    go rec false same = (
      (λ h m e. elim (put_pending-from p h rest m) [
        | inl new ↦ cc (same.1 (sym e ∙ ap (λ (x : PendingOrderEvidence). x.broker_order_id) new))
        | inr old ↦ first h old e
      ]),
      rec,
    )

merge_pending-from :
    (ps seen : List PendingOrderEvidence) (bad : Bool) (x : PendingOrderEvidence)
    → Memᴰ x (merge_pending ps seen bad).0
    → Memᴰ x ps ⊎ Memᴰ x seen
unfolding merge_pending
merge_pending-from [] seen bad x m = inr m
merge_pending-from (p ∷ ps) seen bad x m = elim (merge_pending-from ps (put_pending p seen) _ x m) [
  | inl later ↦ inl (Memᴰ.tail later)
  | inr put ↦ elim (put_pending-from p x seen put) [
    | inl same ↦ inl (Memᴰ.head same)
    | inr old ↦ inr old
  ]
]

merge_pending-clean :
    (ps seen : List PendingOrderEvidence) (bad : Bool)
    → (merge_pending ps seen bad).1 ≡ false
    → bad ≡ false
unfolding merge_pending
merge_pending-clean [] seen bad h = h
merge_pending-clean (p ∷ ps) seen bad h =
    let rest = merge_pending-clean ps (put_pending p seen) (bad || contradicts p seen) h in
    ground (arith, rest)

merge_pending-kept :
    (ps seen : List PendingOrderEvidence) (bad : Bool) (x : PendingOrderEvidence)
    → (merge_pending ps seen bad).1 ≡ false
    → IsThere x seen
    → IsThere x (merge_pending ps seen bad).0
unfolding merge_pending
merge_pending-kept [] seen bad x h there = there
merge_pending-kept (p ∷ ps) seen bad x h there =
    let rest = merge_pending-clean ps (put_pending p seen) (bad || contradicts p seen) h in
    merge_pending-kept ps (put_pending p seen) (bad || contradicts p seen) x h
      (put_pending-kept p x seen (ground (arith, rest)) there)

merge_pending-IsThere :
    (ps seen : List PendingOrderEvidence) (bad : Bool) (x : PendingOrderEvidence)
    → (merge_pending ps seen bad).1 ≡ false
    → Memᴰ x ps
    → IsThere x (merge_pending ps seen bad).0
unfolding merge_pending
merge_pending-IsThere [] seen bad x h m = elim m [ ]
merge_pending-IsThere (p ∷ ps) seen bad x h (Memᴰ.head e) =
    merge_pending-kept ps (put_pending p seen) (bad || contradicts p seen) x h
      (subst (λ t. IsThere t (put_pending p seen)) (sym e) (put_pending-new p seen))
merge_pending-IsThere (p ∷ ps) seen bad x h (Memᴰ.tail m) =
    merge_pending-IsThere ps (put_pending p seen) (bad || contradicts p seen) x h m

merge_pending-apart :
    (ps seen : List PendingOrderEvidence) (bad : Bool)
    → HaveDistinctOrders seen
    → HaveDistinctOrders (merge_pending ps seen bad).0
unfolding merge_pending
merge_pending-apart [] seen bad d = d
merge_pending-apart (p ∷ ps) seen bad d =
    merge_pending-apart ps (put_pending p seen) (bad || contradicts p seen)
      (put_pending-apart p seen d)

pub merge_pending-IsMerged :
    (ps : List PendingOrderEvidence)
    → (merge_pending ps [] false).1 ≡ false
    → IsMerged ps (merge_pending ps [] false).0
merge_pending-IsMerged ps clean = record {
  from_orders = λ p m. elim (merge_pending-from ps [] false p m) [
    | inl there ↦ there
    | inr nothing ↦ elim nothing [ ]
  ];
  all_there = λ p m. merge_pending-IsThere ps [] false p clean m;
  once = merge_pending-apart ps [] false tt;
}
