-- ===== src/Handlers/Forms/Days.antt =====
-- Days as Go's `Time.Format("2006-01-02")` prints them, read back by `time.Parse`.
use billtracker_plugin.Base.{
  ℕ, ◌+◌, ◌*◌, ◌/◌, ◌%◌, ◌≤◌, ◌≡◌, true, some, [], ◌∷◌, ◌++◌, Bytes, ltb, if◌then◌else◌, arith,
  lt→ltb,
}
use billtracker_plugin.Base.Decimal.{decimal}
use billtracker_plugin.Calendar.Order.{days_in_month_bounds}
use billtracker_plugin.Calendar.{Date}
use billtracker_plugin.Models.Rows.{date_exists}
use billtracker_plugin.Handlers.Forms.{parse_date, day_of, two_digits}

abbrev two_of : ℕ → Bytes
two_of n = (b'0' + n / 10 % 10) ∷ (b'0' + n % 10) ∷ []

-- A year has four digits at least.
abbrev year_text : ℕ → Bytes
year_text y = if ltb y 10_000 then two_of (y / 100) ++ two_of y else decimal y

-- `t.Format("2006-01-02")`.
unfoldable pub format_date : Date → Bytes
format_date t = year_text t.year ++ b'-' ∷ two_of t.month ++ b'-' ∷ two_of t.day

two_digits-two_of : (n : ℕ) → two_digits (b'0' + n / 10 % 10) (b'0' + n % 10) ≡ some (n % 100)
two_digits-two_of n = ground arith

day_of-parts :
    (t : Date)
    → date_exists t ≡ true
    → t.year ≤ 9999
    → day_of
        (some (t.year / 100 % 100))
        (some (t.year % 100))
        (some (t.month % 100))
        (some (t.day % 100))
      ≡ some t
day_of-parts t exists small =
    let year : t.year / 100 % 100 * 100 + t.year % 100 ≡ t.year = omega arith in
    let month : t.month % 100 ≡ t.month = ground arith in
    let day : t.day % 100 ≡ t.day = ground (arith, days_in_month_bounds t.year t.month) in
    rw (year, month, day) (ground arith)

-- A printed day of the years 1 to 9999 is read back.
pub parse_date-format_date :
    (t : Date) → date_exists t ≡ true → t.year ≤ 9999 → parse_date (format_date t) ≡ some t
unfolding parse_date format_date
parse_date-format_date t exists small =
    rw
      (
        lt→ltb t.year 10_000 (omega arith),
        two_digits-two_of (t.year / 100),
        two_digits-two_of t.year,
        two_digits-two_of t.month,
        two_digits-two_of t.day,
      )
      (day_of-parts t exists small)
