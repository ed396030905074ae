-- ===== src/Float/Nearest.antt =====
-- How far rounding to a double goes from the exact value.
use native.Mathlib.Nat.{
  one-le-pow, mul-le-mul_left, pow-le-pow_right, mul-le-mul_right, div-add-mod', mod-lt,
}
use billtracker_plugin.Base.{
  ℕ, zero, suc, ◌+◌, ◌*◌, ◌/◌, ◌%◌, ◌^◌, ◌≤◌, ◌<◌, ◌≡◌, refl, ap, Bool, arith, ltb, ltb→lt, lt→ltb,
  ◌==◌, ==_iff, inl, inr, Bool-cases,
}
use billtracker_plugin.Float.{finite, nearest, places, of_quotient}

-- The rounded quotient is off by at most one half.
pub nearest_bounds :
    (p q : ℕ) → 0 < q → (2 * (nearest p q * q) ≤ 2 * p + q) × (2 * p ≤ 2 * (nearest p q * q) + q)
unfolding nearest
nearest_bounds p q h =
    let whole : p / q * q + p % q ≡ p = div-add-mod' p q in
    let rest : p % q < q = mod-lt p h in
    elim (Bool-cases (ltb (2 * (p % q)) q)) [
      | inl down ↦
          let is : nearest p q ≡ p / q = rw down refl in
          let low : 2 * (p % q) < q = ltb→lt _ _ down in rw is (omega arith, omega arith)
      | inr not_down ↦ elim (Bool-cases (ltb q (2 * (p % q)))) [
        | inl up ↦
            let is : nearest p q ≡ p / q + 1 = rw (not_down, up) refl in
            let high : q < 2 * (p % q) = ltb→lt _ _ up in rw is (omega arith, omega arith)
        | inr tie ↦
            let is : nearest p q ≡ p / q + p / q % 2 = rw (not_down, tie) refl in
            let halves : 2 * (p % q) ≡ q = ground arith in
            let odd : p / q % 2 * q ≤ 1 * q = mul-le-mul_right q (omega arith) in
            rw is (omega arith, omega arith)
      ]
    ]

pub places-reach :
    (limit k p q : ℕ) → k ≤ limit → p * 2 ^ k < 2 ^ 53 * q → 2 ^ k ≤ 2 ^ places limit p q
unfolding places
places-reach zero zero p q le h = omega arith
places-reach zero (suc k) p q le h = absurd (omega arith)
places-reach (suc limit) k p q le h = elim (Bool-cases (ltb (p * 2 ^ suc limit) (2 ^ 53 * q))) [
  | inl e ↦ rw e (pow-le-pow_right (omega arith) le)
  | inr e ↦ rw e (elim (Bool-cases (k == suc limit)) [
    | inl top ↦ absurd (ground (arith, ap (λ (t : ℕ). p * 2 ^ t) ((==_iff k (suc limit)).0 top)))
    | inr below ↦ places-reach limit k p q (ground arith) h
  ])
]

-- What rounding p / q, with `fine` binary places or more, gives.
pub record Rounded (neg : Bool) (p q fine : ℕ) : Type 0 where
  pub num : ℕ
  pub shift : ℕ
  pub is : of_quotient neg p q ≡ finite neg num shift
  pub fine_enough : 2 ^ fine ≤ 2 ^ shift
  pub above : 2 * (num * q) ≤ 2 * (p * 2 ^ shift) + q
  pub below : 2 * (p * 2 ^ shift) ≤ 2 * (num * q) + q

-- A quotient of less than 53 binary digits before the point is rounded behind it.
pub of_quotient-Rounded :
    (neg : Bool) (p q fine : ℕ)
    → 0 < q
    → fine ≤ 1074
    → p * 2 ^ fine < 2 ^ 53 * q
    → Rounded neg p q fine
unfolding of_quotient
of_quotient-Rounded neg p q fine h le small =
    let s = places 1074 p q in
    let near = nearest_bounds (p * 2 ^ s) q h in
    let one : p * 1 ≤ p * 2 ^ fine = mul-le-mul_left p (one-le-pow fine 2 (omega arith)) in
    record {
      num = nearest (p * 2 ^ s) q;
      shift = s;
      is = rw (lt→ltb p (2 ^ 53 * q) (omega arith)) refl;
      fine_enough = places-reach 1074 fine p q le small;
      above = near.0;
      below = near.1;
    }
