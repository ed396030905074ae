-- ===== src/Tests/Requests.antt =====
-- Requests to the plugin, and its start.
use billtracker_plugin.Base.{
  ℕ, ◌≡◌, false, ◌++◌, refl, [], ◌∷◌, none, some, true, codes, All, arith, same, not, select,
  trim_space, if◌then◌else◌,
}
use billtracker_plugin.Base.Int.{pos}
use billtracker_plugin.Base.Atoi.{atoi, digits_from}
use billtracker_plugin.Float.{finite, dollars_to_cents, of_quotient, nearest, places}
use billtracker_plugin.Float.Scan.{cents_of, parse_float, mantissa, exponent}
use billtracker_plugin.Errors.{ok}
use billtracker_plugin.Calendar.{date, add_days}
use billtracker_plugin.Crypto.{encrypt}
use billtracker_plugin.Crypto.Hex
use billtracker_plugin.Schedule.{BillDefinition, monthly, next_due_dates}
use billtracker_plugin.Models.Rows.{Tables, row_allowed, schedule_allowed}
use billtracker_plugin.Models.Database.{Exec, pure}
use billtracker_plugin.Models.Database.Quiet.{quiet}
use billtracker_plugin.Models.Instances.Ensure.{has_instance}
use billtracker_plugin.Handlers.Auth
use billtracker_plugin.Handlers.Auth.{
  Answer, served, forbidden, unauthorized, bearer, plugin_token_settings_key, require_bearer_token,
  sent, unregistered_refuses, register_outcome, Registers, registered_admits,
}
use billtracker_plugin.Handlers.Forms.{
  Form, parse_bill_form, scheduled, BillBootstrap, bill_bootstrap_to_definition, unscheduled,
}
use billtracker_plugin.Handlers.Forms.Allowed.{parse_bill_form_allowed}
use billtracker_plugin.Handlers.Settings.{succeeded, add_bill, update_bill, delete_bill}
use billtracker_plugin.Handlers.Settings.Adding.{add_bill_schedules, numbered}
use billtracker_plugin.Handlers.Settings.Safe.{managed_bill_stays}
use billtracker_plugin.Handlers.Bootstrap.{bootstrap_bills, remove_unseen}
use billtracker_plugin.Handlers.Bootstrap.Removal.{is_doomed, remove_unseen_removes}
use billtracker_plugin.Handlers.Bootstrap.HandMade.{by_hand}
use billtracker_plugin.Handlers.Bootstrap.HandMade.Whole.{bootstrap_bills_leaves}
use billtracker_plugin.Models.Consistent.{IsConsistent}
use billtracker_plugin.Tests.Dates.{rent}
use billtracker_plugin.Tests.Jobs.{plain, noon, empty, rented}

-- A handler that answers with a number.
abbrev page : Exec (Answer ℕ)
page = pure (served 7)

register_outcome_example : Registers plain (codes "s") (codes "s") (1 ∷ []) (some (7 ∷ [])) empty (
    Auth.register plain
      (codes "s")
      (codes "s")
      (1 ∷ [])
      (some (7 ∷ []))
      (record { tables = empty; outages = true ∷ [] }))
register_outcome_example =
    register_outcome plain (codes "s") (codes "s") (1 ∷ []) (some (7 ∷ [])) empty (true ∷ [])

sealed : encrypt plain (some (7 ∷ [])) (Hex.encode (31 ∷ [])) ≡ ok (7 ∷ 49 ∷ 102 ∷ [])
unfolding encrypt Hex.encode
sealed = refl

registered_admits_example :
    let (answer, after) =
      Auth.register plain (codes "s") (codes "s") (31 ∷ []) (some (7 ∷ [])) (quiet empty) in
    (answer ≡ ok (served (Hex.encode (31 ∷ []))))
    × (require_bearer_token plain (codes "Bearer 1f") page after
        ≡ (if same (codes "Bearer 1f") (bearer ++ Hex.encode (31 ∷ []))
              then page
              else pure forbidden)
            after)
registered_admits_example =
    registered_admits plain (codes "s") (31 ∷ []) (7 ∷ []) (7 ∷ 49 ∷ 102 ∷ []) (codes "Bearer 1f")
      page empty refl (omega arith) sealed (omega arith, (omega arith, (omega arith, tt)))

-- The form of a bill of 12 dollars on the third of each month.
abbrev water : Form
water field =
    if same field (codes "name")
    then codes "Water"
    else if same field (codes "amount")
    then codes "12"
    else if same field (codes "schedule")
    then codes "monthly"
    else if same field (codes "day_of_month")
    then codes "3"
    else if same field (codes "id")
    then codes "1"
    else []

abbrev water_bill : BillDefinition
water_bill = record (unscheduled (codes "Water") (pos 1200) none) {
  schedule_type = monthly;
  day_of_month = some 3;
}

water_accepted : parse_bill_form water ≡ ok water_bill
unfolding parse_bill_form scheduled atoi digits_from same trim_space cents_of parse_float mantissa
    exponent dollars_to_cents of_quotient nearest places
water_accepted = refl

water_amount : cents_of (water (codes "amount")) ≡ some (pos 1200)
unfolding cents_of parse_float mantissa exponent dollars_to_cents of_quotient nearest places same
water_amount = refl

parse_bill_form_allowed_example : row_allowed water_bill ≡ true
parse_bill_form_allowed_example =
    parse_bill_form_allowed water (pos 1200) water_bill water_accepted water_amount refl tt

water_allowed : row_allowed water_bill ≡ true
unfolding row_allowed schedule_allowed
water_allowed = refl

add_bill_schedules_example :
    let (reply, after) = add_bill noon (pos 90) water (quiet rented) in
    (reply ≡ ok succeeded)
    × (after.tables.bill_definitions
        ≡ rented.bill_definitions ++ record water_bill { id = 2; simplefin_account_id = none } ∷ [])
    × All
        (λ due. has_instance 2 due after.tables ≡ true)
        (next_due_dates
          (numbered 2 water_bill)
          (date 2026 1 15)
          (add_days (date 2026 1 15) (pos 90)))
add_bill_schedules_example =
    add_bill_schedules noon (pos 90) water water_bill rented water_accepted water_allowed

abbrev managed : BillDefinition
managed = record rent { bootstrap_managed = true }

abbrev listed : Tables
listed = record rented { bill_definitions = managed ∷ [] }

first_row : atoi (water (codes "id")) ≡ some (pos 1)
unfolding atoi digits_from same
first_row = refl

managed_bill_stays_example :
    ((update_bill noon (pos 90) water (quiet listed)).1.tables ≡ listed)
    × ((delete_bill noon (pos 90) water (quiet listed)).1.tables ≡ listed)
managed_bill_stays_example =
    managed_bill_stays noon (pos 90) water (pos 1) managed (quiet listed) first_row refl refl

-- The rent, as a line of bills.json.
abbrev rent_entry : BillBootstrap
rent_entry = record {
  name = codes "Rent";
  amount = finite false 900 0;
  schedule = codes "monthly";
  day_of_month = some (pos 1);
  quarter_start_month = none;
  one_off_date = [];
  vendor_url = [];
  connector = [];
  tenant = [];
  username = [];
  password = [];
  password_file = [];
}

abbrev rent_listed : BillDefinition
rent_listed = record (unscheduled (codes "Rent") (pos 90000) none) {
  schedule_type = monthly;
  day_of_month = some 1;
}

rent_accepted : bill_bootstrap_to_definition rent_entry ≡ ok rent_listed
unfolding bill_bootstrap_to_definition scheduled same dollars_to_cents of_quotient nearest places
rent_accepted = refl

rent_allowed : row_allowed rent ≡ true
unfolding row_allowed schedule_allowed
rent_allowed = refl

rented-IsConsistent : IsConsistent rented
rented-IsConsistent = record {
  definition_ids = (tt, tt);
  definition_bound = (omega arith, tt);
  definitions_allowed = (rent_allowed, tt);
  instance_ids = (tt, tt);
  instance_bound = (omega arith, tt);
  instance_keys = (tt, tt);
  instance_bills = (refl, tt);
  vendor_keys = tt;
  vendor_bills = tt;
  account_keys = tt;
  one_connection = omega arith;
}

-- bills.json lists another bill of the same name, and the third statement fails.
bootstrap_bills_leaves_example :
    select by_hand
      (bootstrap_bills
        (λ path. none)
        plain
        (λ text. none)
        []
        noon
        (pos 60)
        (pos 90)
        (rent_entry ∷ [])
        (record { tables = rented; outages = false ∷ false ∷ true ∷ [] })).1.tables.bill_definitions
    ≡ select by_hand rented.bill_definitions
bootstrap_bills_leaves_example =
    bootstrap_bills_leaves (λ path. none) plain (λ text. none) [] noon (pos 60) (pos 90)
      (rent_entry ∷ []) (record { tables = rented; outages = false ∷ false ∷ true ∷ [] })
      rented-IsConsistent

remove_unseen_removes_example :
    (remove_unseen
      (λ path. none)
      plain
      (λ text. none)
      []
      noon
      (pos 60)
      (pos 90)
      (λ name. false)
      listed.bill_definitions
      (quiet listed)).1.tables.bill_definitions
    ≡ select
        (λ d. not (is_doomed (λ name. false) listed.bill_definitions d.id))
        listed.bill_definitions
remove_unseen_removes_example =
    remove_unseen_removes (λ path. none) plain (λ text. none) [] noon (pos 60) (pos 90)
      (λ name. false) listed.bill_definitions listed
