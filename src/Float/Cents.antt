-- ===== src/Float/Cents.antt =====
-- Amounts in cents that become dollars and cents again, through doubles.
use native.Mathlib.Nat.{
  one-le-pow, div-eq_of_lt-le, lt_of_mul-lt-mul_right, le_antisymm, mul-le-mul_right,
}
use billtracker_plugin.Base.{
  ℕ, suc, ◌+◌, ◌-◌, ◌*◌, ◌/◌, ◌^◌, ◌≤◌, ◌<◌, ◌≡◌, refl, ap, ◌∙◌, Bool, true, false, arith, leb,
  lt→ltb, if◌then◌else◌,
}
use billtracker_plugin.Base.Int.{pos, neg_ℤ}
use billtracker_plugin.Float.{
  Float, finite, nearest, of_quotient, over_100, times_100, plus_half, to_int, int_of_whole,
  dollars_to_cents,
}
use billtracker_plugin.Float.Steps.{
  IsHundredth, IsClose, IsClose-times_100, IsHundredth-of_quotient, whole_part,
}
use billtracker_plugin.Float.Nearest.{Rounded, of_quotient-Rounded, nearest_bounds}

-- The double is the one nearest to n / 100, or to minus that.
pub record Hundredths (neg : Bool) (n : ℕ) (x : Float) : Type 0 where
  pub num : ℕ
  pub shift : ℕ
  pub is : x ≡ finite neg num shift
  pub fine : 512 ≤ 2 ^ shift
  pub near : IsHundredth n (2 ^ shift) num

module _ (neg : Bool) (n : ℕ) (small : n < 2 ^ 50) where
  -- The quotient that reading a text of n cents rounds.
  pub of_quotient-Hundredths : Hundredths neg n (of_quotient neg n 100)
  of_quotient-Hundredths =
      let r = of_quotient-Rounded neg n 100 9 (omega arith) (omega arith) (omega arith) in
      let up = r.above in
      let down = r.below in
      let fine = r.fine_enough in
      record {
        num = r.num;
        shift = r.shift;
        is = r.is;
        fine = omega arith;
        near = (omega arith, omega arith);
      }

  over_100_of : (w : Rounded neg n 1 0) → Hundredths neg n (over_100 (of_quotient neg n 1))
  over_100_of w =
      let S = 2 ^ w.shift in
      let positive : 0 < S = one-le-pow w.shift 2 (omega arith) in
      let more = w.above in
      let less = w.below in
      let exact : w.num ≡ n * S = le_antisymm (omega arith) (omega arith) in
      let bound : suc n * S ≤ 2 ^ 50 * S = mul-le-mul_right S small in
      let r =
        of_quotient-Rounded neg (n * S) (S * 100) 9 (omega arith) (omega arith) (omega arith) in
      let fine = r.fine_enough in
      record {
        num = r.num;
        shift = r.shift;
        is = ap over_100 (w.is ∙ ap (λ m. finite neg m w.shift) exact) ∙ r.is;
        fine = omega arith;
        near = IsHundredth-of_quotient n S (2 ^ r.shift) r.num positive r.above r.below;
      }

  -- A whole number, divided by 100.
  pub over_100-Hundredths : Hundredths neg n (over_100 (of_quotient neg n 1))
  over_100-Hundredths =
      over_100_of (of_quotient-Rounded neg n 1 0 (omega arith) (omega arith) (omega arith))

module _ {neg : Bool} {n : ℕ} {x : Float} (small : n < 2 ^ 50) (h : Hundredths neg n x) where
  -- Printed with two places, it is n again.
  pub nearest-Hundredths : nearest (h.num * 100) (2 ^ h.shift) ≡ n
  nearest-Hundredths =
      let S = 2 ^ h.shift in
      let fine = h.fine in
      let near = h.near in
      let (up, down) = nearest_bounds (h.num * 100) S (omega arith) in
      let low : n < suc (nearest (h.num * 100) S) = lt_of_mul-lt-mul_right S (omega arith) in
      let high : nearest (h.num * 100) S < suc n = lt_of_mul-lt-mul_right S (omega arith) in
      omega arith

  -- Times 100, it is close to n.
  times_100-Hundredths :
      (m s : ℕ) × (times_100 x ≡ finite neg m s) × (4 ≤ 2 ^ s) × IsClose n (2 ^ s) m
  times_100-Hundredths =
      let S = 2 ^ h.shift in
      let fine = h.fine in
      let near = h.near in
      let bound : suc n * S ≤ 2 ^ 50 * S = mul-le-mul_right S small in
      let r = of_quotient-Rounded neg (h.num * 100) S 2 (omega arith) (omega arith) (omega arith) in
      (
        r.num,
        r.shift,
        ap times_100 h.is ∙ r.is,
        r.fine_enough,
        IsClose-times_100 n S h.num (2 ^ r.shift) r.num h.fine r.fine_enough h.near r.above r.below,
      )

whole_is : (m s n : ℕ) → n * 2 ^ s ≤ m → m < (n + 1) * 2 ^ s → m / 2 ^ s ≡ n
whole_is m s n low high = div-eq_of_lt-le (2 ^ s) low high

int_of_whole_small :
    (neg : Bool) (n : ℕ) → n < 2 ^ 50 → int_of_whole neg n ≡ (if neg then neg_ℤ (pos n) else pos n)
int_of_whole_small neg n small = rw (lt→ltb n (2 ^ 63) (omega arith)) refl

module _ (n m s : ℕ) (small : n < 2 ^ 50) (four : 4 ≤ 2 ^ s) where
  plus_half_close : IsClose n (2 ^ s) m → to_int (plus_half (finite false m s)) ≡ pos n
  plus_half_close close =
      let S = 2 ^ s in
      let bound : suc n * S ≤ 2 ^ 50 * S = mul-le-mul_right S small in
      let r =
        of_quotient-Rounded false (2 * m + S) (2 * S) 2 (omega arith) (omega arith) (omega arith) in
      let (low, high) =
        whole_part n S (2 * m + S) (2 ^ r.shift) r.num (omega arith) r.fine_enough (omega arith)
          (omega arith) r.above r.below in
      ap to_int r.is
      ∙ ap (int_of_whole false) (whole_is r.num r.shift n low high)
      ∙ int_of_whole_small false n small

  minus_half_close :
      IsClose (n + 1) (2 ^ s) m → to_int (plus_half (finite true m s)) ≡ neg_ℤ (pos n)
  minus_half_close close =
      let S = 2 ^ s in
      let bound : suc n * S ≤ 2 ^ 50 * S = mul-le-mul_right S small in
      let over : leb (2 * m) S ≡ false = ground arith in
      let r =
        of_quotient-Rounded true (2 * m - S) (2 * S) 2 (omega arith) (omega arith) (omega arith) in
      let (low, high) =
        whole_part n S (2 * m - S) (2 ^ r.shift) r.num (omega arith) r.fine_enough (omega arith)
          (omega arith) r.above r.below in
      rw over (
        ap to_int r.is
        ∙ ap (int_of_whole true) (whole_is r.num r.shift n low high)
        ∙ int_of_whole_small true n small)

-- Dollars that are read from a text of n cents are made into n cents.
pub dollars_to_cents-Hundredths :
    (n : ℕ) (x : Float) → n < 2 ^ 50 → Hundredths false n x → dollars_to_cents x ≡ pos n
unfolding dollars_to_cents
dollars_to_cents-Hundredths n x small h =
    let (m, s, is, four, close) = times_100-Hundredths small h in
    ap (λ y. to_int (plus_half y)) is ∙ plus_half_close n m s small four close

-- Below zero they come out one cent too high.
pub dollars_to_cents_below :
    (n : ℕ) (x : Float)
    → n + 1 < 2 ^ 50
    → Hundredths true (n + 1) x
    → dollars_to_cents x ≡ neg_ℤ (pos n)
unfolding dollars_to_cents
dollars_to_cents_below n x small h =
    let (m, s, is, four, close) = times_100-Hundredths small h in
    ap (λ y. to_int (plus_half y)) is ∙ minus_half_close n m s (omega arith) four close
