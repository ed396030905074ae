-- ===== src/Calendar.antt =====
-- What the plugin uses of Go's time package on calendar days: every time that it compares or
-- stores stands for midnight of a day, so a `time.Time` is a `Date` here. The location is taken to
-- have no clock change at midnight. Years are from 1 on.
pub mod Order
use billtracker_plugin.Base.{
  ℕ, zero, suc, ◌+◌, ◌-◌, ◌%◌, ◌≤◌, Bool, true, false, not, ◌&&◌, ◌||◌, ltb, ◌==◌, if◌then◌else◌,
}
use billtracker_plugin.Base.Int.{ℤ, pos, negsuc}

pub record Date : Type 0 where
  pub year : ℕ
  pub month : ℕ
  pub day : ℕ

-- `time.Date` at midnight.
abbrev pub date : ℕ → ℕ → ℕ → Date
date y m d = record { day = d; month = m; year = y }

unfoldable pub is_leap : ℕ → Bool
is_leap y = y % 4 == 0 && (not (y % 100 == 0) || y % 400 == 0)

unfoldable pub days_in_month : ℕ → ℕ → ℕ
days_in_month y m =
    if m == 2
    then (if is_leap y then 29 else 28)
    else if m == 4 || m == 6 || m == 9 || m == 11
    then 30
    else 31

-- `t.Before(u)`, and `t.After(u)` is `before u t`.
unfoldable pub before : Date → Date → Bool
before t u =
    if t.year == u.year
    then (if t.month == u.month then ltb t.day u.day else ltb t.month u.month)
    else ltb t.year u.year

unfoldable pub same_day : Date → Date → Bool
same_day t u = t.year == u.year && t.month == u.month && t.day == u.day

-- `t.AddDate(0, 0, 1)` and `t.AddDate(0, 0, -1)`.
unfoldable pub next_day : Date → Date
next_day t =
    if ltb t.day (days_in_month t.year t.month)
    then record t { day = t.day + 1 }
    else if ltb t.month 12
    then date t.year (t.month + 1) 1
    else date (t.year + 1) 1 1

unfoldable pub prev_day : Date → Date
prev_day t =
    if ltb 1 t.day
    then record t { day = t.day - 1 }
    else if ltb 1 t.month
    then date t.year (t.month - 1) (days_in_month t.year (t.month - 1))
    else date (t.year - 1) 12 31

repeat : ℕ → (Date → Date) → Date → Date
repeat zero f t = t
repeat (suc n) f t = repeat n f (f t)

-- `t.AddDate(0, 0, days)`.
unfoldable pub add_days : Date → ℤ → Date
unfolding repeat
add_days t (pos n) = repeat n next_day t
add_days t (negsuc n) = repeat (suc n) prev_day t

-- `t.AddDate(0, 1, 0)` where `t` is the first of its month.
unfoldable pub next_month : Date → Date
next_month t = if ltb t.month 12 then date t.year (t.month + 1) t.day else date (t.year + 1) 1 t.day

-- The days that the calendar has.
pub record IsValid (d : Date) : Type 0 where
  pub year_in : 1 ≤ d.year
  pub month_in : (1 ≤ d.month) × (d.month ≤ 12)
  pub day_in : (1 ≤ d.day) × (d.day ≤ days_in_month d.year d.month)
