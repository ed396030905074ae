-- ===== src/Base/Decimal.antt =====
-- Decimal text, as `%d` of Go's fmt prints a number that is not negative, read back by
-- strconv.Atoi.
use Prim.Native.Nat.{ℕ, zero, suc, ◌+◌, ◌/◌, ◌%◌, ◌≤◌, ◌<◌}
use mathlib.Core.Path.{◌≡◌, refl}
use mathlib.Core.Logic.{inl, inr}
use mathlib.Core.Bool.{true}
use mathlib.Core.Option.{some}
use mathlib.Core.List.{[], ◌∷◌}
use native.Mathlib.Omega.{arith}
use billtracker_plugin.Base.Tests.{◌==◌, if◌then◌else◌, Bool-cases}
use billtracker_plugin.Base.Lists.{All}
use billtracker_plugin.Base.Strings.{Bytes}
use billtracker_plugin.Base.Int.{pos, fits_int64}
use billtracker_plugin.Base.Atoi.{is_digit, digits, digits_from, atoi}

-- The digits of `n` in front of `out`, with the number of rounds that may still be made.
decimal_onto : ℕ → ℕ → Bytes → Bytes
decimal_onto zero n out = out
decimal_onto (suc fuel) n out =
    let more = decimal_onto fuel (n / 10) ((b'0' + n % 10) ∷ out) in if n == 0 then out else more

-- A number has no more digits than its value.
unfoldable pub decimal : ℕ → Bytes
unfolding decimal_onto
decimal n = if n == 0 then b'0' ∷ [] else decimal_onto n n []

-- Reading the digits of `n` comes to reading on from `n`.
digits_from-decimal_onto :
    (fuel n : ℕ) (out : Bytes)
    → n ≤ fuel
    → digits_from 0 (decimal_onto fuel n out) ≡ digits_from n out
unfolding digits_from decimal_onto
digits_from-decimal_onto zero n out h = let e : n ≡ 0 = omega arith in rw e
digits_from-decimal_onto (suc fuel) n out h =
    ground (arith, digits_from-decimal_onto fuel (n / 10) ((b'0' + n % 10) ∷ out))

digits_positive : (s : Bytes) (n : ℕ) → 0 < n → digits_from 0 s ≡ some n → digits s ≡ some n
unfolding digits_from
digits_positive [] n h e = ground arith
digits_positive (c ∷ s) n h e = e

pub digits-decimal : (n : ℕ) → digits (decimal n) ≡ some n
unfolding decimal digits_from
digits-decimal n = elim (Bool-cases (n == 0)) [
  | inl e ↦ let z : n ≡ 0 = ground arith in rw z
  | inr e ↦ rw e (
      digits_positive (decimal_onto n n []) n (ground arith)
        (digits_from-decimal_onto n n [] (omega arith)))
]

-- Text that is read as digits begins with no sign.
atoi_of_digits :
    (s : Bytes) (n : ℕ) → digits s ≡ some n → fits_int64 (pos n) ≡ true → atoi s ≡ some (pos n)
unfolding atoi digits_from
atoi_of_digits [] n e fits = cc
atoi_of_digits (c ∷ s) n e fits = ground arith

-- A printed number is read back.
pub atoi-decimal : (n : ℕ) → fits_int64 (pos n) ≡ true → atoi (decimal n) ≡ some (pos n)
atoi-decimal n fits = atoi_of_digits (decimal n) n (digits-decimal n) fits

decimal_onto-All :
    (fuel n : ℕ) (out : Bytes)
    → All (λ c. is_digit c ≡ true) out
    → All (λ c. is_digit c ≡ true) (decimal_onto fuel n out)
unfolding decimal_onto
decimal_onto-All zero n out h = h
decimal_onto-All (suc fuel) n out h = elim (Bool-cases (n == 0)) [
  | inl e ↦ rw e h
  | inr e ↦ rw e (decimal_onto-All fuel (n / 10) ((b'0' + n % 10) ∷ out) (ground arith, h))
]

-- Every byte of a printed number is a digit.
pub decimal-All : (n : ℕ) → All (λ c. is_digit c ≡ true) (decimal n)
unfolding decimal
decimal-All n = elim (Bool-cases (n == 0)) [
  | inl e ↦ rw e (refl, tt)
  | inr e ↦ rw e (decimal_onto-All n n [] tt)
]
