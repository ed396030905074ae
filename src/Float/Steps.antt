-- ===== src/Float/Steps.antt =====
-- The arithmetic of amounts that go through doubles: how far each step is from the exact value.
use native.Mathlib.Nat.{le_of_mul-le-mul_left, mul-le-mul_left, mul-le-mul_right}
use billtracker_plugin.Base.{ℕ, ◌+◌, ◌*◌, ◌≤◌, ◌<◌, arith}

-- The double m / S is nearly n / 100.
abbrev pub IsHundredth : ℕ → ℕ → ℕ → Type 0
IsHundredth n S m = (100 * m ≤ n * S + 50) × (n * S ≤ 100 * m + 50)

-- The double m / S is less than a quarter from n.
abbrev pub IsClose : ℕ → ℕ → ℕ → Type 0
IsClose n S m = (4 * m ≤ 4 * (n * S) + S) × (4 * (n * S) ≤ 4 * m + S)

pub IsClose-times_100 :
    (n S1 m1 S2 m2 : ℕ)
    → 512 ≤ S1
    → 4 ≤ S2
    → IsHundredth n S1 m1
    → 2 * (m2 * S1) ≤ 2 * (m1 * 100 * S2) + S1
    → 2 * (m1 * 100 * S2) ≤ 2 * (m2 * S1) + S1
    → IsClose n S2 m2
IsClose-times_100 n S1 m1 S2 m2 big four near up down =
    let a : 512 * S2 ≤ S1 * S2 = mul-le-mul_right S2 big in
    let b : S1 * 4 ≤ S1 * S2 = mul-le-mul_left S1 four in
    let c : 100 * m1 * S2 ≤ (n * S1 + 50) * S2 = mul-le-mul_right S2 near.0 in
    let d : n * S1 * S2 ≤ (100 * m1 + 50) * S2 = mul-le-mul_right S2 near.1 in
    let positive : 0 < S1 = omega arith in
    (
      le_of_mul-le-mul_left {k = S1} (omega arith) positive,
      le_of_mul-le-mul_left {k = S1} (omega arith) positive,
    )

-- A value between n + 1/4 and n + 3/4, rounded, has the whole part n.
pub whole_part :
    (n S p T m : ℕ)
    → 0 < S
    → 4 ≤ T
    → 4 * (n * S) + S ≤ 2 * p
    → 2 * p ≤ 4 * (n * S) + 3 * S
    → 2 * (m * (2 * S)) ≤ 2 * (p * T) + 2 * S
    → 2 * (p * T) ≤ 2 * (m * (2 * S)) + 2 * S
    → (n * T ≤ m) × (m < (n + 1) * T)
whole_part n S p T m positive large least most up down =
    let a : (4 * (n * S) + S) * T ≤ 2 * p * T = mul-le-mul_right T least in
    let b : 2 * p * T ≤ (4 * (n * S) + 3 * S) * T = mul-le-mul_right T most in
    let low : 4 * (n * T) + T ≤ 4 * m + 2 = le_of_mul-le-mul_left {k = S} (omega arith) positive in
    let high : 4 * m ≤ 4 * (n * T) + 3 * T + 2 =
      le_of_mul-le-mul_left {k = S} (omega arith) positive in
    (omega arith, omega arith)

pub IsHundredth-of_quotient :
    (n S T m : ℕ)
    → 0 < S
    → 2 * (m * (S * 100)) ≤ 2 * (n * S * T) + S * 100
    → 2 * (n * S * T) ≤ 2 * (m * (S * 100)) + S * 100
    → IsHundredth n T m
IsHundredth-of_quotient n S T m positive up down = (
  le_of_mul-le-mul_left {k = S} (omega arith) positive,
  le_of_mul-le-mul_left {k = S} (omega arith) positive,
)
