-- ===== src/Schedule/Due.antt =====
-- `NextDueDates` against a description of the days on which a bill falls due.
use billtracker_plugin.Base.{
  ℕ, ◌+◌, ◌*◌, ◌%◌, ◌≤◌, ◌<◌, ◌≡◌, refl, ◌↔◌, inl, inr, Bool, true, false, [], ◌∷◌, Option, none,
  some, arith, Bool-cases, All, All-imp, Any, sym, subst, ◌&&◌,
}
use billtracker_plugin.Calendar.{Date, date, before, IsValid}
use billtracker_plugin.Calendar.Order.{days_in_month_bounds, not-before→le, le→not-before}
use billtracker_plugin.Schedule.{
  ScheduleType, BillDefinition, monthly, quarterly, one_off, vendor, is_quarterly, missing,
  rotation_due, month_due, rounds, dispatch_due, recurring_due, one_off_due, next_due_dates,
}
use billtracker_plugin.Schedule.Loop.{
  month_index, IsFirst, OnDay, InWindow, IsDue, due_loop_sound, due_loop_complete,
}

-- When a bill falls due, by its schedule: a monthly bill on its day of every month, or on the last
-- of a shorter month; a quarterly bill so in every third month from its start; a one-off bill on
-- its date; a vendor bill never.
abbrev pub FallsDue : ScheduleType → Option ℕ → Option ℕ → Option Date → Date → Type 0
FallsDue monthly (some day) start once d = IsValid d × OnDay day d
FallsDue quarterly (some day) (some start) once d =
    IsValid d × OnDay day d × (d.month % 3 ≡ start % 3)
FallsDue one_off day start (some t) d = d ≡ t
FallsDue _ _ _ _ d = ⊥

abbrev pub BillFallsDue : BillDefinition → Date → Type 0
BillFallsDue def =
    FallsDue def.schedule_type def.day_of_month def.quarter_start_month def.one_off_date

-- What the table's columns guarantee: days of the month from 1 on, and a date that exists.
abbrev pub Positive : Option ℕ → Type 0
Positive none = Unit
Positive (some n) = 1 ≤ n

abbrev Exists : Option Date → Type 0
Exists none = Unit
Exists (some t) = IsValid t

pub record IsWellDated (def : BillDefinition) : Type 0 where
  pub day_in : Positive def.day_of_month
  pub date_in : Exists def.one_off_date

-- The rotation test of the code holds of just the months that are congruent to the start month
-- modulo 3.
pub rotation_due_iff : (start m : ℕ) → (rotation_due start m ≡ true) ↔ (m % 3 ≡ start % 3)
unfolding rotation_due
rotation_due_iff start m = (λ h. ground arith, λ h. ground arith)

abbrev Recurring : ScheduleType → Type 0
Recurring monthly = Unit
Recurring quarterly = Unit
Recurring _ = ⊥

-- The guard of the code: a quarterly bill has a start.
abbrev pub startless : ScheduleType → Option ℕ → Bool
startless k start = is_quarterly k && missing start

due→falls :
    (k : ScheduleType) (day : ℕ) (start : Option ℕ) (once : Option Date) (d : Date)
    → Recurring k
    → startless k start ≡ false
    → IsValid d
    → OnDay day d
    → month_due k start d.month ≡ true
    → FallsDue k (some day) start once d
unfolding month_due
due→falls monthly day start once d r g v o m = (v, o)
due→falls quarterly day none once d r g v o m = cc
due→falls quarterly day (some s) once d r g v o m = (v, o, (rotation_due_iff s d.month).0 m)
due→falls one_off day start once d r g v o m = absurd r
due→falls vendor day start once d r g v o m = absurd r

falls→due :
    (k : ScheduleType) (day : ℕ) (start : Option ℕ) (once : Option Date) (d : Date)
    → Recurring k
    → FallsDue k (some day) start once d
    → IsValid d × OnDay day d × (month_due k start d.month ≡ true) × (startless k start ≡ false)
unfolding month_due
falls→due monthly day start once d r h = (h.0, h.1, refl, refl)
falls→due quarterly day none once d r h = absurd h
falls→due quarterly day (some s) once d r h = (h.0, h.1, (rotation_due_iff s d.month).1 h.2, refl)
falls→due one_off day start once d r h = absurd r
falls→due vendor day start once d r h = absurd r

not-falls :
    (k : ScheduleType) (start : Option ℕ) (once : Option Date) (d : Date)
    → Recurring k
    → ¬ FallsDue k none start once d
not-falls monthly start once d r h = h
not-falls quarterly start once d r h = h
not-falls one_off start once d r h = r
not-falls vendor start once d r h = r

pub start_of : (from : Date) → IsValid from → IsFirst (date from.year from.month 1)
start_of from v = record { first_day = refl; year_in = v.year_in; month_in = v.month_in }

module _ {from to : Date} (vf : IsValid from) (vt : IsValid to) where
  one_off_due_sound :
      (t : Option Date)
      → Exists t
      → All (λ d. FallsDue one_off none none t d × InWindow from to d) (one_off_due t from to)
  unfolding one_off_due
  one_off_due_sound none v = tt
  one_off_due_sound (some t) v = elim (Bool-cases (before t from)) [
    | inl b ↦ rw b tt
    | inr b ↦ elim (Bool-cases (before to t)) [
      | inl a ↦ rw (b, a) tt
      | inr a ↦ rw (b, a) ((refl, (not-before→le v vf b, not-before→le vt v a)), tt)
    ]
  ]

  one_off_due_complete :
      (t : Date) → IsValid t → InWindow from to t → one_off_due (some t) from to ≡ t ∷ []
  unfolding one_off_due
  one_off_due_complete t v w = rw (le→not-before v vf w.0, le→not-before vt v w.1)

  rounds_reach :
      (d : Date)
      → IsValid d
      → InWindow from to d
      → month_index d < (from.year * 12 + from.month) + rounds from to
  unfolding rounds
  rounds_reach d v w = omega (
    arith,
    days_in_month_bounds d.year d.month,
    days_in_month_bounds from.year from.month,
    days_in_month_bounds to.year to.month,
  )

  recurring_due_sound :
      (def : BillDefinition) (o : Option ℕ)
      → Recurring def.schedule_type
      → Positive o
      → All
          (λ d.
            FallsDue def.schedule_type o def.quarter_start_month def.one_off_date d
            × InWindow from to d)
          (recurring_due def o from to)
  unfolding recurring_due
  recurring_due_sound def none r h = tt
  recurring_due_sound def (some day) r h =
      elim (Bool-cases (startless def.schedule_type def.quarter_start_month)) [
        | inl g ↦ rw g tt
        | inr g ↦ rw g (
            All-imp (λ d. IsDue def day h vf vt d × (month_index first_of_from ≤ month_index d)) _
              (λ d p. (
                due→falls def.schedule_type day def.quarter_start_month def.one_off_date d r g
                    p.0.valid p.0.on_day p.0.on_month,
                p.0.window,
              ))
              (due_loop_sound def day h vf vt (rounds from to) first_of_from (start_of from vf)))
      ]
    where
      first_of_from : Date
      first_of_from = date from.year from.month 1

  recurring_due_complete :
      (def : BillDefinition) (o : Option ℕ) (d : Date)
      → Recurring def.schedule_type
      → Positive o
      → FallsDue def.schedule_type o def.quarter_start_month def.one_off_date d
      → InWindow from to d
      → Any (λ x. x ≡ d) (recurring_due def o from to)
  unfolding recurring_due
  recurring_due_complete def none d r h p w =
      absurd (not-falls def.schedule_type def.quarter_start_month def.one_off_date d r p)
  recurring_due_complete def (some day) d r h p w =
      let q = falls→due def.schedule_type day def.quarter_start_month def.one_off_date d r p in
      rw q.3 (
        due_loop_complete def day h vf vt (rounds from to) (date from.year from.month 1) d
          (start_of from vf) (record { valid = q.0; window = w; on_day = q.1; on_month = q.2 })
          (omega (
            arith,
            w,
            q.0,
            days_in_month_bounds d.year d.month,
            days_in_month_bounds from.year from.month,
          ))
          (rounds_reach d q.0 w))

  recurring_at :
      (k : ScheduleType) (def : BillDefinition)
      → def.schedule_type ≡ k
      → Recurring k
      → Positive def.day_of_month
      → All
          (λ d.
            FallsDue k def.day_of_month def.quarter_start_month def.one_off_date d
            × InWindow from to d)
          (recurring_due def def.day_of_month from to)
  recurring_at k def e r h =
      subst
        (λ k.
          All
            (λ d.
              FallsDue k def.day_of_month def.quarter_start_month def.one_off_date d
              × InWindow from to d)
            (recurring_due def def.day_of_month from to))
        e (recurring_due_sound def def.day_of_month (subst Recurring (sym e) r) h)

  dispatch_due_sound :
      (k : ScheduleType) (def : BillDefinition)
      → def.schedule_type ≡ k
      → IsWellDated def
      → All
          (λ d.
            FallsDue k def.day_of_month def.quarter_start_month def.one_off_date d
            × InWindow from to d)
          (dispatch_due k def from to)
  unfolding dispatch_due
  dispatch_due_sound vendor def e w = tt
  dispatch_due_sound one_off def e w = one_off_at def.one_off_date w.date_in
    where
      one_off_at :
          (t : Option Date)
          → Exists t
          → All
              (λ d.
                FallsDue one_off def.day_of_month def.quarter_start_month t d × InWindow from to d)
              (one_off_due t from to)
      one_off_at none v = one_off_due_sound none v
      one_off_at (some t) v = one_off_due_sound (some t) v
  dispatch_due_sound monthly def e w = recurring_at monthly def e tt w.day_in
  dispatch_due_sound quarterly def e w = recurring_at quarterly def e tt w.day_in

  -- Each day that `NextDueDates` returns lies in the window and is a day on which the bill falls
  -- due by its schedule, for a definition that the table's columns allow and a window of valid days.
  pub next_due_dates_sound :
      (def : BillDefinition)
      → IsWellDated def
      → All (λ d. BillFallsDue def d × InWindow from to d) (next_due_dates def from to)
  unfolding next_due_dates
  next_due_dates_sound def w = dispatch_due_sound def.schedule_type def refl w

  dispatch_due_complete :
      (k : ScheduleType) (def : BillDefinition) (d : Date)
      → def.schedule_type ≡ k
      → IsWellDated def
      → FallsDue k def.day_of_month def.quarter_start_month def.one_off_date d
      → InWindow from to d
      → Any (λ x. x ≡ d) (dispatch_due k def from to)
  unfolding dispatch_due
  dispatch_due_complete vendor def d e w p q = absurd p
  dispatch_due_complete one_off def d e w p q = one_off_at def.one_off_date w.date_in p
    where
      one_off_at :
          (t : Option Date)
          → Exists t
          → FallsDue one_off def.day_of_month def.quarter_start_month t d
          → Any (λ x. x ≡ d) (one_off_due t from to)
      one_off_at none v p = absurd p
      one_off_at (some t) v p =
          rw (one_off_due_complete t v (subst (InWindow from to) p q)) (inl (sym p))
  dispatch_due_complete monthly def d e w p q =
      recurring_due_complete def def.day_of_month d (subst Recurring (sym e) tt) w.day_in
        (subst (λ k. FallsDue k def.day_of_month def.quarter_start_month def.one_off_date d) (sym e)
          p)
        q
  dispatch_due_complete quarterly def d e w p q =
      recurring_due_complete def def.day_of_month d (subst Recurring (sym e) tt) w.day_in
        (subst (λ k. FallsDue k def.day_of_month def.quarter_start_month def.one_off_date d) (sym e)
          p)
        q

  -- Each day of the window on which the bill falls due is returned by `NextDueDates`, however long
  -- the window is, for a definition that the table's columns allow and a window of valid days.
  pub next_due_dates_complete :
      (def : BillDefinition) (d : Date)
      → IsWellDated def
      → BillFallsDue def d
      → InWindow from to d
      → Any (λ x. x ≡ d) (next_due_dates def from to)
  unfolding next_due_dates
  next_due_dates_complete def d w p q = dispatch_due_complete def.schedule_type def d refl w p q
