-- ===== src/Schedule/Ascending.antt =====
-- The order of the days that `NextDueDates` returns, and the end of its month loop.
use billtracker_plugin.Base.{
  ℕ, ◌+◌, ◌*◌, ◌<◌, ◌≡◌, inl, inr, Option, none, some, arith, Bool-cases, Distinct,
}
use billtracker_plugin.Calendar.{Date, date, before, IsValid}
use billtracker_plugin.Calendar.Order.{rank}
use billtracker_plugin.Schedule.{
  ScheduleType, BillDefinition, one_off, vendor, due_loop, rounds, dispatch_due, recurring_due,
  one_off_due, next_due_dates,
}
use billtracker_plugin.Schedule.Loop.{due_loop_ascending, due_loop_enough}
use billtracker_plugin.Schedule.Due.{Positive, startless, start_of, IsWellDated}

module _ {from to : Date} (vf : IsValid from) (vt : IsValid to) where
  recurring_ascending :
      (def : BillDefinition) (o : Option ℕ)
      → Positive o
      → Distinct (λ a b. rank a < rank b) (recurring_due def o from to)
  unfolding recurring_due
  recurring_ascending def none h = tt
  recurring_ascending def (some day) h =
      elim (Bool-cases (startless def.schedule_type def.quarter_start_month)) [
        | inl g ↦ rw g tt
        | inr g ↦ rw g (
            due_loop_ascending def day h vf vt (rounds from to) (date from.year from.month 1)
              (start_of from vf))
      ]

  one_off_ascending : (t : Option Date) → Distinct (λ a b. rank a < rank b) (one_off_due t from to)
  unfolding one_off_due
  one_off_ascending none = tt
  one_off_ascending (some t) = elim (Bool-cases (before t from)) [
    | inl b ↦ rw b tt
    | inr b ↦ elim (Bool-cases (before to t)) [ inl a ↦ rw (b, a) tt | inr a ↦ rw (b, a) (tt, tt) ]
  ]

  rounds_pass : to.year * 12 + to.month < (from.year * 12 + from.month) + rounds from to
  unfolding rounds
  rounds_pass = omega arith

  dispatch_due_ascending :
      (k : ScheduleType) (def : BillDefinition)
      → Positive def.day_of_month
      → Distinct (λ a b. rank a < rank b) (dispatch_due k def from to)
  unfolding dispatch_due
  dispatch_due_ascending vendor def w = tt
  dispatch_due_ascending one_off def w = one_off_ascending def.one_off_date
  dispatch_due_ascending _ def w = recurring_ascending def def.day_of_month w

  -- `NextDueDates` returns its days in strictly ascending order, so none twice, for a definition
  -- that the table's columns allow and a window of valid days.
  pub next_due_dates_ascending :
      (def : BillDefinition)
      → IsWellDated def
      → Distinct (λ a b. rank a < rank b) (next_due_dates def from to)
  unfolding next_due_dates
  next_due_dates_ascending def w = dispatch_due_ascending def.schedule_type def w.day_in

  -- The rounds that the model allows the month loop, over a window of valid days, are enough: with
  -- any more of them it returns the same.
  pub due_loop_terminates :
      (def : BillDefinition) (day more : ℕ)
      → due_loop def day from to (rounds from to + more) (date from.year from.month 1)
        ≡ due_loop def day from to (rounds from to) (date from.year from.month 1)
  due_loop_terminates def day more =
      due_loop_enough def day from to (rounds from to) more (date from.year from.month 1) vt
        (start_of from vf) rounds_pass
