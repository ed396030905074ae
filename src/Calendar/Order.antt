-- ===== src/Calendar/Order.antt =====
-- The order of days, the numbering of months, and what `add_days` comes to.
use billtracker_plugin.Base.{
  ℕ, zero, suc, ◌+◌, ◌-◌, ◌*◌, ◌/◌, ◌≤◌, ◌<◌, ◌≡◌, refl, ◌↔◌, true, false, arith,
}
use native.Mathlib.Numerals.{add-one}
use billtracker_plugin.Base.Int.{pos}
use billtracker_plugin.Calendar.{
  Date, is_leap, days_in_month, before, same_day, next_day, repeat, add_days, IsValid,
}

-- A number that grows with the day, for `omega`: months and days have room below 16 and 32.
abbrev pub rank : Date → ℕ
rank t = (t.year * 16 + t.month) * 32 + t.day

pub days_in_month_bounds : (y m : ℕ) → (28 ≤ days_in_month y m) × (days_in_month y m ≤ 31)
unfolding days_in_month
days_in_month_bounds y m = ground arith

module _ {t u : Date} (vt : IsValid t) (vu : IsValid u) where
  pub before→lt : before t u ≡ true → rank t < rank u
  unfolding before
  before→lt h =
      ground (arith, days_in_month_bounds t.year t.month, days_in_month_bounds u.year u.month)

  pub lt→before : rank t < rank u → before t u ≡ true
  unfolding before
  lt→before h =
      ground (arith, days_in_month_bounds t.year t.month, days_in_month_bounds u.year u.month)

  pub not-before→le : before t u ≡ false → rank u ≤ rank t
  unfolding before
  not-before→le h =
      ground (arith, days_in_month_bounds t.year t.month, days_in_month_bounds u.year u.month)

  pub le→not-before : rank u ≤ rank t → before t u ≡ false
  unfolding before
  le→not-before h =
      ground (arith, days_in_month_bounds t.year t.month, days_in_month_bounds u.year u.month)

pub same_day_iff : (t u : Date) → (same_day t u ≡ true) ↔ (t ≡ u)
unfolding same_day
same_day_iff t u = ground arith

-- The days before a year, and before a month of it, in the proleptic Gregorian calendar.
unfoldable pub days_before_year : ℕ → ℕ
days_before_year y = (y - 1) * 365 + (y - 1) / 4 - (y - 1) / 100 + (y - 1) / 400

unfoldable pub days_before_month : ℕ → ℕ → ℕ
days_before_month y zero = 0
days_before_month y (suc zero) = 0
days_before_month y (suc (suc m)) = days_before_month y (suc m) + days_in_month y (suc m)

-- The day number, with 0001-01-01 the first.
abbrev pub ordinal : Date → ℕ
ordinal t = days_before_year t.year + days_before_month t.year t.month + t.day

pub next_day-IsValid : (t : Date) → IsValid t → IsValid (next_day t)
unfolding next_day
next_day-IsValid t v =
    ground (arith, days_in_month_bounds t.year (t.month + 1), days_in_month_bounds (t.year + 1) 1)

days_before_month-suc :
    (y m : ℕ) → 1 ≤ m → days_before_month y (m + 1) ≡ days_before_month y m + days_in_month y m
unfolding days_before_month
days_before_month-suc y zero h = absurd (omega arith)
days_before_month-suc y (suc m) h = rw add-one

days_before_year-suc :
    (y : ℕ) → 1 ≤ y → days_before_year (y + 1) ≡ days_before_year y + days_before_month y 12 + 31
unfolding days_before_year days_before_month days_in_month is_leap
days_before_year-suc y h = ground arith

first_month : (y : ℕ) → days_before_month y 1 ≡ 0
unfolding days_before_month
first_month y = refl

december : (y : ℕ) → days_in_month y 12 ≡ 31
unfolding days_in_month
december y = refl

-- Each day's number is one more than that of the day before it.
pub ordinal-next_day : (t : Date) → IsValid t → ordinal (next_day t) ≡ ordinal t + 1
unfolding next_day
ordinal-next_day t v = ground (
  arith,
  days_before_month-suc t.year t.month,
  days_before_year-suc t.year,
  first_month (t.year + 1),
  december t.year,
)

repeat-next_day :
    (n : ℕ) (t : Date)
    → IsValid t
    → IsValid (repeat n next_day t) × (ordinal (repeat n next_day t) ≡ ordinal t + n)
unfolding repeat
repeat-next_day zero t v = (v, omega arith)
repeat-next_day (suc n) t v =
    let (valid, number) = repeat-next_day n (next_day t) (next_day-IsValid t v) in
    (valid, omega (arith, ordinal-next_day t v))

-- `AddDate(0, 0, n)` of a valid day is the valid day whose number is `n` more.
pub add_days-ordinal :
    (t : Date) (n : ℕ)
    → IsValid t
    → IsValid (add_days t (pos n)) × (ordinal (add_days t (pos n)) ≡ ordinal t + n)
unfolding add_days
add_days-ordinal t n v = repeat-next_day n t v
