-- ===== src/Schedule.antt =====
-- internal/models/bill.go: bill definitions and `NextDueDates`, the schedule engine. The proofs are
-- in the modules below.
pub mod Due
pub mod Ascending
pub mod Loop
use billtracker_plugin.Base.{
  ℕ, zero, suc, ◌+◌, ◌-◌, ◌*◌, ◌%◌, Bool, true, false, not, ◌&&◌, List, [], ◌∷◌, ◌++◌, Option, none,
  some, Bytes, ltb, leb, ◌==◌, if◌then◌else◌,
}
use billtracker_plugin.Base.Int.{ℤ}
use billtracker_plugin.Calendar.{Date, date, before, prev_day, next_month}

pub data ScheduleType : Type 0 where
  monthly quarterly one_off vendor : ScheduleType

-- `CreatedAt` is not modelled: nothing reads it. A SERIAL id is never negative.
pub record BillDefinition : Type 0 where
  pub id : ℕ
  pub name : Bytes
  pub amount_cents : ℤ
  pub schedule_type : ScheduleType
  pub day_of_month : Option ℕ
  pub quarter_start_month : Option ℕ
  pub one_off_date : Option Date
  pub vendor_url : Option Bytes
  pub simplefin_account_id : Option ℕ
  pub bootstrap_managed : Bool

abbrev pub is_quarterly : ScheduleType → Bool
is_quarterly quarterly = true
is_quarterly _ = false

-- `((int(m)-start)%3+3)%3 == 0`; Go's `%` has the sign of the dividend.
pub rotation_due : ℕ → ℕ → Bool
rotation_due start m = (if leb start m then (m - start) % 3 + 3 else 3 - (start - m) % 3) % 3 == 0

-- `monthDue`.
pub month_due : ScheduleType → Option ℕ → ℕ → Bool
unfolding rotation_due
month_due quarterly (some start) m = rotation_due start m
month_due quarterly none m = rotation_due 0 m
month_due _ _ m = true

-- `cursor.AddDate(0, 1, -1).Day()`.
last_day : Date → ℕ
last_day cursor = (prev_day (next_month cursor)).day

-- The occurrence in the month of `cursor`: the day, clamped to the month's last.
pub occurrence : ℕ → Date → Date
unfolding last_day
occurrence day cursor =
    let last = last_day cursor in date cursor.year cursor.month (if ltb last day then last else day)

-- What one round of the loop appends to `out`.
pub month_occurrences : BillDefinition → ℕ → Date → Date → Date → List Date
month_occurrences def day from to cursor =
    let d = occurrence day cursor in
    if month_due def.schedule_type def.quarter_start_month cursor.month
    then (if not (before d from) && not (before to d) then d ∷ [] else [])
    else []

-- `for !cursor.After(to)`, with the number of rounds that may still be made.
pub due_loop : BillDefinition → ℕ → Date → Date → ℕ → Date → List Date
due_loop def day from to zero cursor = []
due_loop def day from to (suc fuel) cursor =
    let later = due_loop def day from to fuel (next_month cursor) in
    if before to cursor then [] else month_occurrences def day from to cursor ++ later

-- The months from that of `from` to that of `to`, and one round more.
pub rounds : Date → Date → ℕ
rounds from to = (to.year * 12 + to.month + 2) - (from.year * 12 + from.month)

one_off_due : Option Date → Date → Date → List Date
one_off_due none from to = []
one_off_due (some d) from to = if before d from then [] else if before to d then [] else d ∷ []

abbrev missing : Option ℕ → Bool
missing none = true
missing (some n) = false

recurring_due : BillDefinition → Option ℕ → Date → Date → List Date
unfolding due_loop month_occurrences rounds
recurring_due def none from to = []
recurring_due def (some day) from to =
    if is_quarterly def.schedule_type && missing def.quarter_start_month
    then []
    else due_loop def day from to (rounds from to) (date from.year from.month 1)

dispatch_due : ScheduleType → BillDefinition → Date → Date → List Date
unfolding recurring_due one_off_due
dispatch_due vendor def from to = []
dispatch_due one_off def from to = one_off_due def.one_off_date from to
dispatch_due _ def from to = recurring_due def def.day_of_month from to

-- `from` and `to` are days already, so the normalisation to local midnight is the identity.
unfoldable pub next_due_dates : BillDefinition → Date → Date → List Date
unfolding dispatch_due occurrence month_due
next_due_dates def from to = dispatch_due def.schedule_type def from to
