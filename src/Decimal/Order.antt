-- ===== src/Decimal/Order.antt =====
-- The order of exact decimals.
use investing_agents.Prelude.{
  ℕ, zero, suc, ◌+◌, ◌*◌, ◌^◌, ◌≤◌, ◌<◌, true, false, ◌≡◌, arith, inl, inr, Bool-cases, leb, ap,
  sym, ◌∙◌,
}
use native.Mathlib.Nat.{pow-succ'}
use investing_agents.Int.{ℤ, pos, negsuc, pos_part, neg_part, ◌*ℤ◌, +ℤ_parts, ltb_ℤ}
use investing_agents.Decimal.{Decimal, le, eq, add, lifted, is_positive, zero_decimal}

power_positive : (n : ℕ) → 1 ≤ 10 ^ n
power_positive zero = ground arith
power_positive (suc n) = ground (arith, power_positive n)

power_add : (m n : ℕ) → 10 ^ (m + n) ≡ 10 ^ m * 10 ^ n
power_add zero n = ground arith
power_add (suc m) n =
    let sum : suc m + n ≡ suc (m + n) = ground arith in
    ap (λ k. 10 ^ k) sum ∙ rw (pow-succ' 10 (m + n), pow-succ' 10 m, power_add m n) (ground arith)

mul_le : (a b c : ℕ) → a ≤ b → a * c ≤ b * c
mul_le a b zero h = ground arith
mul_le a b (suc c) h = ground (arith, h, mul_le a b c h)

scaled_pos : (a : ℤ) (p : ℕ) → 1 ≤ p → pos_part (a *ℤ pos p) ≡ pos_part a * p
unfolding ◌*ℤ◌
scaled_pos (pos n) p h = ground (arith, h)
scaled_pos (negsuc n) p h = ground (arith, h)

scaled_neg : (a : ℤ) (p : ℕ) → 1 ≤ p → neg_part (a *ℤ pos p) ≡ neg_part a * p
unfolding ◌*ℤ◌
scaled_neg (pos n) p h = ground (arith, h)
scaled_neg (negsuc n) zero h = absurd (ground (arith, h))
scaled_neg (negsuc n) (suc p) h = ground arith

-- Differences of naturals over positive scales, in order.
cross_trans :
    (a a' b b' c c' x y z : ℕ)
    → 1 ≤ y
    → a * y + b' * x ≤ b * x + a' * y
    → b * z + c' * y ≤ c * y + b' * z
    → a * z + c' * x ≤ c * x + a' * z
cross_trans a a' b b' c c' x y z wide h1 h2 =
    elim (Bool-cases (leb (a * z + c' * x) (c * x + a' * z))) [
      | inl fine ↦ ground (arith, fine)
      | inr far ↦
          let m1 = mul_le (a * y + b' * x) (b * x + a' * y) z h1 in
          let m2 = mul_le (b * z + c' * y) (c * y + b' * z) x h2 in
          let m3 = mul_le (c * x + a' * z + 1) (a * z + c' * x) y (ground (arith, far)) in
          absurd (omega (arith, m1, m2, m3, wide))
    ]

le-parts :
    (a b : Decimal)
    → le a b
      ≡ leb
          (pos_part a.coefficient * 10 ^ b.places + neg_part b.coefficient * 10 ^ a.places)
          (pos_part b.coefficient * 10 ^ a.places + neg_part a.coefficient * 10 ^ b.places)
le-parts a b =
    let x = power_positive a.places in
    let y = power_positive b.places in
    rw (
      scaled_pos a.coefficient (10 ^ b.places) y,
      scaled_neg a.coefficient (10 ^ b.places) y,
      scaled_pos b.coefficient (10 ^ a.places) x,
      scaled_neg b.coefficient (10 ^ a.places) x,
    )

pub le_trans : (a b c : Decimal) → le a b ≡ true → le b c ≡ true → le a c ≡ true
le_trans a b c h1 h2 =
    let p1 : leb (pos_part a.coefficient * 10 ^ b.places + neg_part b.coefficient * 10 ^ a.places)
          (pos_part b.coefficient * 10 ^ a.places + neg_part a.coefficient * 10 ^ b.places)
        ≡ true =
      sym (le-parts a b) ∙ h1 in
    let p2 : leb (pos_part b.coefficient * 10 ^ c.places + neg_part c.coefficient * 10 ^ b.places)
          (pos_part c.coefficient * 10 ^ b.places + neg_part b.coefficient * 10 ^ c.places)
        ≡ true =
      sym (le-parts b c) ∙ h2 in
    let done =
      cross_trans (pos_part a.coefficient) (neg_part a.coefficient) (pos_part b.coefficient)
        (neg_part b.coefficient) (pos_part c.coefficient) (neg_part c.coefficient) (10 ^ a.places)
        (10 ^ b.places) (10 ^ c.places) (power_positive b.places) (ground (arith, p1))
        (ground (arith, p2)) in
    le-parts a c ∙ ground (arith, done)

pub le_total : (a b : Decimal) → le a b ≡ false → le b a ≡ true
le_total a b h = ground (arith, h)

pub le_refl : (a : Decimal) → le a a ≡ true
le_refl a = ground arith

-- Adding a positive amount makes a decimal greater.
cross_add :
    (a a' b b' s s' x y : ℕ)
    → 1 ≤ x
    → 1 ≤ y
    → b' < b
    → s + a' * y + b' * x ≡ s' + a * y + b * x
    → s' * x + a * (x * y) < s * x + a' * (x * y)
cross_add a a' b b' s s' x y wx wy h e =
    let m = mul_le (b' + 1) b x (ground (arith, h)) in
    let m2 = mul_le ((b' + 1) * x) (b * x) x m in
    let w = mul_le 1 x x wx in let ex = ap (λ k. k * x) e in omega (arith, m2, w, wx, ex)

pub add-positive : (a b : Decimal) → is_positive b ≡ true → le (add a b) a ≡ false
unfolding add
add-positive a b h =
    let x = power_positive a.places in
    let y = power_positive b.places in
    let s = (add a b).coefficient in
    let parts = +ℤ_parts (lifted a b.places) (lifted b a.places) in
    let sum : pos_part s
          + neg_part a.coefficient * 10 ^ b.places
          + neg_part b.coefficient * 10 ^ a.places
        ≡ neg_part s
          + pos_part a.coefficient * 10 ^ b.places
          + pos_part b.coefficient * 10 ^ a.places =
      ground (
        arith,
        parts,
        scaled_pos a.coefficient (10 ^ b.places) y,
        scaled_neg a.coefficient (10 ^ b.places) y,
        scaled_pos b.coefficient (10 ^ a.places) x,
        scaled_neg b.coefficient (10 ^ a.places) x,
      ) in
    let more =
      cross_add (pos_part a.coefficient) (neg_part a.coefficient) (pos_part b.coefficient)
        (neg_part b.coefficient) (pos_part s) (neg_part s) (10 ^ a.places) (10 ^ b.places) x y
        (ground (arith, h)) sum in
    le-parts (add a b) a ∙ rw (power_add a.places b.places) (ground (arith, more))

scaled_sign : (a : ℤ) (p : ℕ) → 1 ≤ p → ltb_ℤ (pos 0) (a *ℤ pos p) ≡ ltb_ℤ (pos 0) a
unfolding ◌*ℤ◌
scaled_sign (pos zero) p h = ground arith
scaled_sign (pos (suc n)) (suc p) h = ground arith
scaled_sign (pos (suc n)) zero h = absurd (ground (arith, h))
scaled_sign (negsuc n) p h = ground arith

-- A decimal that a positive one does not exceed is positive.
pub positive_le : (a b : Decimal) → is_positive a ≡ true → le a b ≡ true → is_positive b ≡ true
positive_le a b positive order =
    let sa = scaled_sign a.coefficient (10 ^ b.places) (power_positive b.places) in
    let sb = scaled_sign b.coefficient (10 ^ a.places) (power_positive a.places) in
    ground (arith, positive, order, sa, sb)

pub positive_eq : (d : Decimal) → is_positive d ≡ true → eq d zero_decimal ≡ false
positive_eq d positive =
    let sd = scaled_sign d.coefficient (10 ^ 0) (ground arith) in
    let s0 = scaled_sign (pos 0) (10 ^ d.places) (power_positive d.places) in
    ground (arith, positive, sd, s0)
