-- ===== src/Handlers/Forms.antt =====
-- internal/handlers/settings.go (`parseBillForm`) and bootstrap.go (`billBootstrapToDefinition`):
-- bills as people write them, checked and turned into definitions.
pub mod Allowed
pub mod Days
use billtracker_plugin.Base.{
  ℕ, ◌+◌, ◌-◌, ◌*◌, Bool, true, false, ◌&&◌, Option, none, some, List, [], ◌∷◌, Bytes, codes, same,
  is_empty, trim_space, leb, ltb, ◌==◌, if◌then◌else◌,
}
use billtracker_plugin.Base.Int.{ℤ, pos, pos_part, ltb_ℤ}
use billtracker_plugin.Base.Atoi.{atoi, is_digit}
use billtracker_plugin.Float.{Float, dollars_to_cents}
use billtracker_plugin.Float.Scan.{cents_of}
use billtracker_plugin.Errors.{
  Error, Result, ok, err, name_required, invalid_amount, bad_day_of_month, bad_quarter_start,
  bad_one_off_date, bad_schedule,
}
use billtracker_plugin.Calendar.{Date, date, days_in_month}
use billtracker_plugin.Schedule.{ScheduleType, monthly, quarterly, one_off, vendor, BillDefinition}
use billtracker_plugin.Models.Rows.{between}

-- `r.FormValue`: the empty text for a field that was not sent.
abbrev pub Form : Type 0
Form = Bytes → Bytes

-- `err != nil || n < lo || n > hi` fails; what passes is small enough for `int16`.
abbrev pub in_range : ℕ → ℕ → Option ℤ → Option ℕ
in_range lo hi none = none
in_range lo hi (some n) =
    if ltb_ℤ n (pos lo) then none else if ltb_ℤ (pos hi) n then none else some (pos_part n)

abbrev pub two_digits : ℕ → ℕ → Option ℕ
two_digits a b = if is_digit a && is_digit b then some ((a - b'0') * 10 + (b - b'0')) else none

abbrev pub day_of : Option ℕ → Option ℕ → Option ℕ → Option ℕ → Option Date
day_of (some hi) (some lo) (some m) (some d) =
    let y = hi * 100 + lo in
    if between 1 12 m && between 1 (days_in_month y m) d then some (date y m d) else none
day_of _ _ _ _ = none

-- `time.Parse("2006-01-02", s)`: four digits, two and two, and a day that exists.
unfoldable pub parse_date : Bytes → Option Date
parse_date (y1 ∷ y2 ∷ y3 ∷ y4 ∷ h1 ∷ m1 ∷ m2 ∷ h2 ∷ d1 ∷ d2 ∷ []) =
    if h1 == b'-' && h2 == b'-'
    then day_of (two_digits y1 y2) (two_digits y3 y4) (two_digits m1 m2) (two_digits d1 d2)
    else none
parse_date _ = none

-- A definition before its schedule is known; the columns that a form does not set are zero.
abbrev pub unscheduled : Bytes → ℤ → Option Bytes → BillDefinition
unscheduled name cents url = record {
  id = 0;
  name = name;
  amount_cents = cents;
  schedule_type = vendor;
  day_of_month = none;
  quarter_start_month = none;
  one_off_date = none;
  vendor_url = url;
  simplefin_account_id = none;
  bootstrap_managed = false;
}

abbrev monthly_bill : BillDefinition → Option ℕ → Result BillDefinition
monthly_bill b none = err bad_day_of_month
monthly_bill b (some day) = ok (record b { schedule_type = monthly; day_of_month = some day })

abbrev quarterly_bill : BillDefinition → Option ℕ → Option ℕ → Result BillDefinition
quarterly_bill b none start = err bad_day_of_month
quarterly_bill b (some day) none = err bad_quarter_start
quarterly_bill b (some day) (some start) = ok (record b {
  schedule_type = quarterly;
  day_of_month = some day;
  quarter_start_month = some start;
})

abbrev one_off_bill : BillDefinition → Option Date → Result BillDefinition
one_off_bill b none = err bad_one_off_date
one_off_bill b (some t) = ok (record b { schedule_type = one_off; one_off_date = some t })

-- The `switch` over the schedule's word, on the fields as they were read.
unfoldable pub scheduled :
    BillDefinition → Bytes → Option ℤ → Option ℤ → Option Date → Result BillDefinition
scheduled b word day start t =
    if same word (codes "monthly")
    then monthly_bill b (in_range 1 31 day)
    else if same word (codes "quarterly")
    then quarterly_bill b (in_range 1 31 day) (in_range 1 3 start)
    else if same word (codes "one_off")
    then one_off_bill b t
    else err bad_schedule

abbrev pub url_of : Bytes → Bytes → Option Bytes
url_of raw url = if is_empty raw then none else some url

abbrev pub priced : Form → Option ℤ → Result BillDefinition
priced form none = err invalid_amount
priced form (some cents) =
    let url = form (codes "vendor_url") in
    scheduled (unscheduled (trim_space (form (codes "name"))) cents (url_of url (trim_space url)))
      (form (codes "schedule")) (atoi (form (codes "day_of_month")))
      (atoi (form (codes "quarter_start_month"))) (parse_date (form (codes "one_off_date")))

-- `parseBillForm`.
unfoldable pub parse_bill_form : Form → Result BillDefinition
parse_bill_form form =
    if is_empty (trim_space (form (codes "name")))
    then err name_required
    else priced form (cents_of (form (codes "amount")))

-- internal/config/bills_bootstrap.go: `BillBootstrap`.
pub record BillBootstrap : Type 0 where
  pub name : Bytes
  pub amount : Float
  pub schedule : Bytes
  pub day_of_month : Option ℤ
  pub quarter_start_month : Option ℤ
  pub one_off_date : Bytes
  pub vendor_url : Bytes
  pub connector : Bytes
  pub tenant : Bytes
  pub username : Bytes
  pub password : Bytes
  pub password_file : Bytes

abbrev listed : BillBootstrap → BillDefinition
listed e = unscheduled e.name (dollars_to_cents e.amount) (url_of e.vendor_url e.vendor_url)

-- `billBootstrapToDefinition`; an entry with a connector has no schedule of its own.
unfoldable pub bill_bootstrap_to_definition : BillBootstrap → Result BillDefinition
bill_bootstrap_to_definition e =
    if is_empty e.name
    then err name_required
    else if is_empty e.connector
    then scheduled (listed e) e.schedule e.day_of_month e.quarter_start_month
        (parse_date e.one_off_date)
    else ok (listed e)
