-- ===== src/Handlers/Pages/Editing.antt =====
-- web/templates/settings/_bills_table.html and _bill_fields.html: the form that the settings page shows for a bill, filled
-- in from its row, as a browser sends it back when nobody changed a field.
use billtracker_plugin.Base.{
  ℕ, zero, suc, ◌^◌, ◌≤◌, ◌<◌, ◌≡◌, ◌≢◌, refl, ◌∙◌, true, false, not, ◌||◌, Option, none, some, [],
  Bytes, codes, same, is_empty, select, trim_space, ◌==◌, if◌then◌else◌, arith,
}
use billtracker_plugin.Base.Int.{ℤ, pos}
use billtracker_plugin.Base.Atoi.{atoi, digits_from}
use billtracker_plugin.Base.Decimal.{decimal, atoi-decimal}
use billtracker_plugin.Errors.{ok}
use billtracker_plugin.Float.Dollars.{up_reads}
use billtracker_plugin.Calendar.{Date}
use billtracker_plugin.Schedule.{ScheduleType, monthly, quarterly, one_off, vendor, BillDefinition}
use billtracker_plugin.Models.Rows.{between, row_allowed, schedule_allowed}
use billtracker_plugin.Handlers.Forms.{
  Form, unscheduled, in_range, scheduled, url_of, parse_bill_form, parse_date,
}
use billtracker_plugin.Handlers.Forms.Days.{parse_date-format_date}
use billtracker_plugin.Handlers.Pages.{text_of}
use billtracker_plugin.Handlers.Pages.Table.{
  number_of, schedule_word, day_text, SettingsBillDefRow, settings_bill_def_row,
}

-- What a `select` sends: the option whose value is the row's, or else its first.
abbrev one_of : Bytes → Bytes → Bytes → Bytes → Bytes
one_of first second third value =
    if same value second then second else if same value third then third else first

-- An `input` of type text has no line breaks.
abbrev on_one_line : Bytes → Bytes
on_one_line s = select (λ c. not (c == 10 || c == 13)) s

unfoldable pub bill_fields : SettingsBillDefRow → Form
bill_fields row field =
    if same field (codes "name")
    then on_one_line row.name
    else if same field (codes "amount")
    then row.amount_dollars
    else if same field (codes "schedule")
    then one_of (codes "monthly") (codes "quarterly") (codes "one_off") row.schedule_type
    else if same field (codes "day_of_month")
    then row.day_of_month
    else if same field (codes "quarter_start_month")
    then one_of (codes "1") (codes "2") (codes "3") row.quarter_start_month
    else if same field (codes "one_off_date")
    then row.one_off_date
    else if same field (codes "vendor_url")
    then on_one_line row.vendor_url
    else []

-- The whole form, with its hidden fields.
unfoldable pub edit_form : SettingsBillDefRow → Form
edit_form row field =
    if same field (codes "action")
    then codes "update_bill"
    else if same field (codes "id")
    then decimal row.id
    else bill_fields row field

-- Text that a field of type text keeps, and that `strings.TrimSpace` leaves alone.
pub record IsPlain (s : Bytes) : Type 0 where
  pub not_empty : is_empty s ≡ false
  pub trimmed : trim_space s ≡ s
  pub one_line : on_one_line s ≡ s

abbrev pub PlainUrl : Option Bytes → Type 0
PlainUrl none = Unit
PlainUrl (some url) = IsPlain url

abbrev pub WritableDay : Option Date → Type 0
WritableDay none = Unit
WritableDay (some t) = t.year ≤ 9999

-- The columns that the form has.
abbrev pub as_typed : BillDefinition → BillDefinition
as_typed d = record d { id = 0; simplefin_account_id = none; bootstrap_managed = false }

url_kept :
    (u : Option Bytes)
    → PlainUrl u
    → let typed = on_one_line (text_of u) in url_of typed (trim_space typed) ≡ u
unfolding trim_space
url_kept none h = refl
url_kept (some s) h = rw (h.one_line, h.trimmed, h.not_empty) refl

abbrev with_schedule :
    BillDefinition → ScheduleType → Option ℕ → Option ℕ → Option Date → BillDefinition
with_schedule b kind day start t = record b {
  schedule_type = kind;
  day_of_month = day;
  quarter_start_month = start;
  one_off_date = t;
}

-- The number of a rotation, as the `select` sends it.
abbrev rotation : Option ℕ → Bytes
rotation start = one_of (codes "1") (codes "2") (codes "3") (number_of start)

rotation_reads :
    (start : ℕ) → between 1 3 start ≡ true → atoi (rotation (some start)) ≡ some (pos start)
unfolding atoi digits_from same decimal
rotation_reads zero h = cc
rotation_reads (suc zero) h = refl
rotation_reads (suc (suc zero)) h = refl
rotation_reads (suc (suc (suc zero))) h = refl
rotation_reads (suc (suc (suc (suc n)))) h = absurd (ground arith)

day_reads :
    (lo hi : ℕ) (n : ℕ)
    → between lo hi n ≡ true
    → hi ≤ 31
    → in_range lo hi (atoi (decimal n)) ≡ some n
day_reads lo hi n h small = rw (atoi-decimal n (ground arith)) (ground arith)

module _ (name : Bytes) (cents : ℤ) (url : Option Bytes) where
  abbrev blank : BillDefinition
  blank = unscheduled name cents url

  -- The schedule's fields, as they are sent, give the schedule back.
  scheduled-sent :
      (kind : ScheduleType) (day start : Option ℕ) (t : Option Date)
      → schedule_allowed kind day start t ≡ true
      → kind ≢ vendor
      → WritableDay t
      → scheduled blank
          (one_of (codes "monthly") (codes "quarterly") (codes "one_off") (schedule_word kind))
          (atoi (number_of day))
          (atoi (rotation start))
          (parse_date (day_text t))
        ≡ ok (with_schedule blank kind day start t)
  unfolding scheduled same schedule_allowed
  scheduled-sent monthly (some day) none none h v w = rw (day_reads 1 31 day h (omega arith)) refl
  scheduled-sent quarterly (some day) (some start) none h v w =
      rw (day_reads 1 31 day (ground arith) (omega arith), rotation_reads start (ground arith))
        (ground arith)
  scheduled-sent one_off none none (some t) h v w = rw (parse_date-format_date t h w) refl
  scheduled-sent vendor _ _ _ h v w = absurd (v refl)
  scheduled-sent _ _ _ _ h v w = cc

module _ (d : BillDefinition) (name : IsPlain d.name) (url : PlainUrl d.vendor_url) where
  abbrev sent : Form
  sent = edit_form (settings_bill_def_row d)

  parse_of_parts :
      (n : ℕ) (word : Bytes) (day start : Option ℤ) (t : Option Date)
      → n < 2 ^ 50
      → d.amount_cents ≡ pos n
      → sent (codes "schedule") ≡ word
      → atoi (sent (codes "day_of_month")) ≡ day
      → atoi (sent (codes "quarter_start_month")) ≡ start
      → parse_date (sent (codes "one_off_date")) ≡ t
      → parse_bill_form sent ≡ scheduled (unscheduled d.name (pos n) d.vendor_url) word day start t
  unfolding parse_bill_form bill_fields edit_form same
  parse_of_parts n word day start t small amount w d' s t' =
      rw
        (
          name.one_line,
          name.trimmed,
          name.not_empty,
          amount,
          up_reads n small,
          w,
          d',
          s,
          t',
          url_kept d.vendor_url url,
          name.one_line,
          name.trimmed,
        )
        refl

-- A bill of the table that people set up, with an amount of zero or more, and with a name, a link and
-- a day that the form's fields can hold.
pub record IsEditable (d : BillDefinition) : Type 0 where
  pub cents : ℕ
  pub amount : d.amount_cents ≡ pos cents
  pub allowed : row_allowed d ≡ true
  pub scheduled_by_hand : d.schedule_type ≢ vendor
  pub day : WritableDay d.one_off_date
  pub plain_name : IsPlain d.name
  pub plain_url : PlainUrl d.vendor_url

-- The form that the settings page shows for such a bill, sent back with no field changed, is
-- accepted, and gives every column that the form has as it is in the row.
pub parse_bill_form-edit_form :
    (d : BillDefinition)
    → IsEditable d
    → parse_bill_form (edit_form (settings_bill_def_row d)) ≡ ok (as_typed d)
unfolding row_allowed bill_fields edit_form same
parse_bill_form-edit_form d h =
    let allowed = h.allowed in
    let amount = h.amount in
    parse_of_parts d h.plain_name h.plain_url h.cents _ _ _ _ (ground arith) amount refl refl refl
      refl
    ∙ scheduled-sent d.name (pos h.cents) d.vendor_url d.schedule_type d.day_of_month
        d.quarter_start_month d.one_off_date (ground arith) h.scheduled_by_hand h.day
    ∙ rw (← amount) refl
