-- ===== src/Tests/Dates.antt =====
-- The due dates of a monthly and of a quarterly bill.
use billtracker_plugin.Base.{
  ◌≡◌, ◌<◌, ◌+◌, refl, [], ◌∷◌, none, some, codes, false, All, Any, Distinct, arith,
}
use billtracker_plugin.Base.Int.{pos}
use billtracker_plugin.Calendar.{
  date, before, days_in_month, is_leap, prev_day, next_month, IsValid,
}
use billtracker_plugin.Calendar.Order.{rank}
use billtracker_plugin.Schedule.{
  BillDefinition, monthly, quarterly, due_loop, rounds, next_due_dates,
}
use billtracker_plugin.Schedule.Ascending.{next_due_dates_ascending, due_loop_terminates}
use billtracker_plugin.Schedule.Due.{
  BillFallsDue, IsWellDated, next_due_dates_sound, next_due_dates_complete,
}
use billtracker_plugin.Schedule.Loop.{InWindow}

abbrev pub rent : BillDefinition
rent = record {
  id = 1;
  name = codes "Rent";
  amount_cents = pos 100000;
  schedule_type = monthly;
  day_of_month = some 31;
  quarter_start_month = none;
  one_off_date = none;
  vendor_url = none;
  simplefin_account_id = none;
  bootstrap_managed = false;
}

-- A bill due on the 31st falls due on the last day of February.
short_february :
    next_due_dates rent (date 2026 1 15) (date 2026 3 16) ≡ date 2026 1 31 ∷ date 2026 2 28 ∷ []
unfolding next_due_dates before days_in_month prev_day next_month is_leap
short_february = refl

abbrev insurance : BillDefinition
insurance = record rent {
  schedule_type = quarterly;
  day_of_month = some 15;
  quarter_start_month = some 2;
}

-- A bill of the second rotation falls due in February and May.
two_quarters :
    next_due_dates insurance (date 2026 1 1) (date 2026 6 30) ≡ date 2026 2 15 ∷ date 2026 5 15 ∷ []
unfolding next_due_dates before days_in_month prev_day next_month is_leap
two_quarters = refl

rent-IsWellDated : IsWellDated rent
rent-IsWellDated = record { day_in = omega arith; date_in = tt }

january-IsValid : IsValid (date 2026 1 15)
unfolding days_in_month
january-IsValid = omega arith

february-IsValid : IsValid (date 2026 2 28)
unfolding days_in_month is_leap
february-IsValid = ground arith

march-IsValid : IsValid (date 2026 3 16)
unfolding days_in_month
march-IsValid = omega arith

next_due_dates_sound_example :
    All
      (λ d. BillFallsDue rent d × InWindow (date 2026 1 15) (date 2026 3 16) d)
      (next_due_dates rent (date 2026 1 15) (date 2026 3 16))
next_due_dates_sound_example =
    next_due_dates_sound january-IsValid march-IsValid rent rent-IsWellDated

february_due : BillFallsDue rent (date 2026 2 28)
unfolding days_in_month is_leap
february_due = (february-IsValid, refl)

february_in : InWindow (date 2026 1 15) (date 2026 3 16) (date 2026 2 28)
february_in = (omega arith, omega arith)

next_due_dates_complete_example :
    Any (λ x. x ≡ date 2026 2 28) (next_due_dates rent (date 2026 1 15) (date 2026 3 16))
next_due_dates_complete_example =
    next_due_dates_complete january-IsValid march-IsValid rent (date 2026 2 28) rent-IsWellDated
      february_due february_in

next_due_dates_ascending_example :
    Distinct (λ a b. rank a < rank b) (next_due_dates rent (date 2026 1 15) (date 2026 3 16))
next_due_dates_ascending_example =
    next_due_dates_ascending january-IsValid march-IsValid rent rent-IsWellDated

due_loop_terminates_example :
    due_loop rent 31
      (date 2026 1 15)
      (date 2026 3 16)
      (rounds (date 2026 1 15) (date 2026 3 16) + 5)
      (date 2026 1 1)
    ≡ due_loop rent 31
        (date 2026 1 15)
        (date 2026 3 16)
        (rounds (date 2026 1 15) (date 2026 3 16))
        (date 2026 1 1)
due_loop_terminates_example = due_loop_terminates january-IsValid march-IsValid rent 31 5
