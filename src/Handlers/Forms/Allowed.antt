-- ===== src/Handlers/Forms/Allowed.antt =====
-- What a form or a line of bills.json that is accepted says: the database takes it.
use billtracker_plugin.Base.{
  ℕ, ◌≡◌, ◌≤◌, sym, subst, ◌==◌, [], ◌∷◌, Bool, true, false, ◌&&◌, Option, none, some, Bytes, codes,
  same, is_empty, trim_space, arith, if◌then◌else◌,
}
use billtracker_plugin.Base.Int.{ℤ, pos, negsuc, fits_int4}
use billtracker_plugin.Base.Atoi.{atoi}
use billtracker_plugin.Float.{dollars_to_cents}
use billtracker_plugin.Float.Scan.{cents_of}
use billtracker_plugin.Errors.{Result, ok}
use billtracker_plugin.Calendar.{Date}
use billtracker_plugin.Schedule.{monthly, quarterly, one_off, BillDefinition}
use billtracker_plugin.Models.Rows.{between, date_exists, schedule_allowed, row_allowed}
use billtracker_plugin.Handlers.Forms.{
  Form, in_range, two_digits, day_of, parse_date, unscheduled, monthly_bill, quarterly_bill,
  one_off_bill, scheduled, url_of, priced, parse_bill_form, BillBootstrap, listed,
  bill_bootstrap_to_definition,
}

-- A day, if there is one, is one that a DATE column holds, from the year 1 on.
abbrev InCalendar : Option Date → Type 0
InCalendar none = Unit
InCalendar (some t) = (1 ≤ t.year) → date_exists t ≡ true

abbrev Ranged : ℕ → ℕ → Option ℕ → Type 0
Ranged lo hi none = Unit
Ranged lo hi (some n) = between lo hi n ≡ true

in_range-Ranged : (lo hi : ℕ) (n : Option ℤ) → Ranged lo hi (in_range lo hi n)
in_range-Ranged lo hi none = tt
in_range-Ranged lo hi (some (pos n)) = ground arith
in_range-Ranged lo hi (some (negsuc n)) = ground arith

day_of-InCalendar : (hi lo m d : Option ℕ) → InCalendar (day_of hi lo m d)
day_of-InCalendar (some hi) (some lo) (some m) (some d) = ground arith
day_of-InCalendar (some hi) (some lo) (some m) none = tt
day_of-InCalendar (some hi) (some lo) none d = tt
day_of-InCalendar (some hi) none m d = tt
day_of-InCalendar none lo m d = tt

choice_known : (b : Bool) (t : Option Date) → InCalendar t → InCalendar (if b then t else none)
choice_known true t h = h
choice_known false t h = tt

pub parse_date-InCalendar : (s : Bytes) → InCalendar (parse_date s)
unfolding parse_date
parse_date-InCalendar (y1 ∷ y2 ∷ y3 ∷ y4 ∷ h1 ∷ m1 ∷ m2 ∷ h2 ∷ d1 ∷ d2 ∷ []) =
    choice_known (h1 == b'-' && h2 == b'-') _ (
      day_of-InCalendar (two_digits y1 y2) (two_digits y3 y4) (two_digits m1 m2) (two_digits d1 d2))
parse_date-InCalendar _ = tt

abbrev FromYearOne : Option Date → Type 0
FromYearOne none = Unit
FromYearOne (some t) = 1 ≤ t.year

-- What follows from both branches follows from the conditional.
in_branch :
    {A : Type 0} {x y z : Result A} {P : Type 0} (c : Bool)
    → (x ≡ z → P)
    → (y ≡ z → P)
    → (if c then x else y) ≡ z
    → P
in_branch true f g e = f e
in_branch false f g e = g e

listed_allowed :
    (entry : BillBootstrap) (d : BillDefinition)
    → fits_int4 (dollars_to_cents entry.amount) ≡ true
    → ok (listed entry) ≡ ok d
    → row_allowed d ≡ true
unfolding row_allowed schedule_allowed
listed_allowed entry d fits e = let is : listed entry ≡ d = cc in rw (← is, fits)

module _ (name : Bytes) (cents : ℤ) (url : Option Bytes) (fits : fits_int4 cents ≡ true)
    (d : BillDefinition) where
  abbrev b : BillDefinition
  b = unscheduled name cents url

  monthly_allowed :
      (day : Option ℕ) → Ranged 1 31 day → monthly_bill b day ≡ ok d → row_allowed d ≡ true
  unfolding row_allowed schedule_allowed
  monthly_allowed none r e = cc
  monthly_allowed (some day) r e =
      let is : record b { schedule_type = monthly; day_of_month = some day } ≡ d = cc in
      rw (← is, fits, r)

  quarterly_allowed :
      (day start : Option ℕ)
      → Ranged 1 31 day
      → Ranged 1 3 start
      → quarterly_bill b day start ≡ ok d
      → row_allowed d ≡ true
  unfolding row_allowed schedule_allowed
  quarterly_allowed none start r s e = cc
  quarterly_allowed (some day) none r s e = cc
  quarterly_allowed (some day) (some start) r s e =
      let is : record b {
        schedule_type = quarterly;
        day_of_month = some day;
        quarter_start_month = some start;
      }
          ≡ d =
        cc in
      rw (← is, fits, r, s)

  one_off_allowed :
      (t : Option Date)
      → InCalendar t
      → FromYearOne d.one_off_date
      → one_off_bill b t ≡ ok d
      → row_allowed d ≡ true
  unfolding row_allowed schedule_allowed
  one_off_allowed none h y e = cc
  one_off_allowed (some t) h y e =
      let is : record b { schedule_type = one_off; one_off_date = some t } ≡ d = cc in
      let year : FromYearOne (some t) = subst (λ x. FromYearOne x.one_off_date) (sym is) y in
      rw (← is, fits, h year)

  scheduled_allowed :
      (word : Bytes) (day start : Option ℤ) (t : Option Date)
      → InCalendar t
      → FromYearOne d.one_off_date
      → scheduled b word day start t ≡ ok d
      → row_allowed d ≡ true
  unfolding scheduled
  scheduled_allowed word day start t h y =
      in_branch (same word (codes "monthly")) (monthly_allowed _ (in_range-Ranged 1 31 day)) (
        in_branch (same word (codes "quarterly"))
          (quarterly_allowed _ _ (in_range-Ranged 1 31 day) (in_range-Ranged 1 3 start))
          (in_branch (same word (codes "one_off")) (one_off_allowed t h y) (λ e. cc)))

-- A form that is accepted gives a row that passes the table's CHECK constraints, where the amount
-- is in the range of INTEGER and the day of a one-off bill is not in the year 0.
pub parse_bill_form_allowed :
    (form : Form) (cents : ℤ) (d : BillDefinition)
    → parse_bill_form form ≡ ok d
    → cents_of (form (codes "amount")) ≡ some cents
    → fits_int4 cents ≡ true
    → FromYearOne d.one_off_date
    → row_allowed d ≡ true
unfolding parse_bill_form
parse_bill_form_allowed form cents d e is fits year =
    in_branch (is_empty (trim_space (form (codes "name")))) (λ e. cc)
      (λ accepted.
        scheduled_allowed _ cents _ fits d (form (codes "schedule"))
          (atoi (form (codes "day_of_month"))) (atoi (form (codes "quarter_start_month")))
          (parse_date (form (codes "one_off_date")))
          (parse_date-InCalendar (form (codes "one_off_date"))) year
          (subst (λ c. priced form c ≡ ok d) is accepted))
      e

-- An entry of bills.json that is accepted gives a row that passes the table's CHECK constraints,
-- where the amount is in the range of INTEGER and the day of a one-off bill is not in the year 0.
pub bill_bootstrap_allowed :
    (entry : BillBootstrap) (d : BillDefinition)
    → bill_bootstrap_to_definition entry ≡ ok d
    → fits_int4 (dollars_to_cents entry.amount) ≡ true
    → FromYearOne d.one_off_date
    → row_allowed d ≡ true
unfolding bill_bootstrap_to_definition
bill_bootstrap_allowed entry d e fits year =
    in_branch (is_empty entry.name) (λ e. cc)
      (in_branch (is_empty entry.connector)
        (scheduled_allowed entry.name (dollars_to_cents entry.amount)
          (url_of entry.vendor_url entry.vendor_url) fits d entry.schedule entry.day_of_month
          entry.quarter_start_month (parse_date entry.one_off_date)
          (parse_date-InCalendar entry.one_off_date) year)
        (listed_allowed entry d fits))
      e
