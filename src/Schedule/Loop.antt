-- ===== src/Schedule/Loop.antt =====
-- The month loop of `NextDueDates`: what a round appends, and what the whole loop returns.
use billtracker_plugin.Base.{
  ℕ, zero, suc, ◌+◌, ◌*◌, ◌≤◌, ◌<◌, min, ◌≡◌, refl, ap, ◌⊎◌, inl, inr, true, false, [], ◌∷◌, arith,
  Bool-cases, All, All-append, All-imp, Any, Any-append_right, Distinct, ◌==◌, ==_iff, ◌≢◌,
}
use native.Mathlib.Nat.{zero-add, suc-add}
use billtracker_plugin.Calendar.{Date, date, days_in_month, before, prev_day, next_month, IsValid}
use billtracker_plugin.Calendar.Order.{
  rank, days_in_month_bounds, lt→before, le→not-before, not-before→le,
}
use billtracker_plugin.Schedule.{
  BillDefinition, month_due, last_day, occurrence, month_occurrences, due_loop,
}

-- The months, numbered.
abbrev pub month_index : Date → ℕ
month_index t = t.year * 12 + t.month

-- Where the cursor of the loop always stands.
pub record IsFirst (t : Date) : Type 0 where
  pub first_day : t.day ≡ 1
  pub year_in : 1 ≤ t.year
  pub month_in : (1 ≤ t.month) × (t.month ≤ 12)

pub IsFirst-IsValid : (t : Date) → IsFirst t → IsValid t
IsFirst-IsValid t f = record {
  year_in = f.year_in;
  month_in = f.month_in;
  day_in = omega (arith, f.first_day, days_in_month_bounds t.year t.month);
}

next_month-IsFirst : (t : Date) → IsFirst t → IsFirst (next_month t)
unfolding next_month
next_month-IsFirst t f = ground arith

month_index-next_month : (t : Date) → IsFirst t → month_index (next_month t) ≡ month_index t + 1
unfolding next_month
month_index-next_month t f = ground arith

last_day-eq : (t : Date) → IsFirst t → last_day t ≡ days_in_month t.year t.month
unfolding last_day prev_day next_month days_in_month
last_day-eq t f = ground arith

-- The day of the month on which a bill due on day `day` falls.
abbrev pub OnDay : ℕ → Date → Type 0
OnDay day d = d.day ≡ min day (days_in_month d.year d.month)

pub occurrence_lem :
    (day : ℕ) (t : Date)
    → IsFirst t
    → occurrence day t ≡ date t.year t.month (min day (days_in_month t.year t.month))
unfolding occurrence
occurrence_lem day t f = ground (arith, last_day-eq t f)

abbrev pub InWindow : Date → Date → Date → Type 0
InWindow from to d = (rank from ≤ rank d) × (rank d ≤ rank to)

module _ (def : BillDefinition) (day : ℕ) (positive : 1 ≤ day) {from to : Date} (vf : IsValid from)
    (vt : IsValid to) where
  -- What is known of each day that the loop appends.
  pub record IsDue (d : Date) : Type 0 where
    pub valid : IsValid d
    pub window : InWindow from to d
    pub on_day : OnDay day d
    pub on_month : month_due def.schedule_type def.quarter_start_month d.month ≡ true

  occurrence-IsValid : (c : Date) → IsFirst c → IsValid (occurrence day c)
  occurrence-IsValid c f = rw (occurrence_lem day c f) (record {
    year_in = f.year_in;
    month_in = f.month_in;
    day_in = omega (arith, positive, days_in_month_bounds c.year c.month);
  })

  month_occurrences_sound :
      (c : Date)
      → IsFirst c
      → All (λ d. IsDue d × (month_index d ≡ month_index c)) (month_occurrences def day from to c)
  unfolding month_occurrences
  month_occurrences_sound c f =
      let d = occurrence day c in
      let v = occurrence-IsValid c f in
      let e = occurrence_lem day c f in
      elim (Bool-cases (month_due def.schedule_type def.quarter_start_month c.month)) [
        | inr m ↦ rw m tt
        | inl m ↦ elim (Bool-cases (before d from)) [
          | inl b ↦ rw (m, b) tt
          | inr b ↦ elim (Bool-cases (before to d)) [
            | inl a ↦ rw (m, b, a) tt
            | inr a ↦
                rw (m, b, a)
                  (
                    (
                      record {
                        valid = v;
                        window = (not-before→le v vf b, not-before→le vt v a);
                        on_day = rw e refl;
                        on_month = rw e m;
                      },
                      rw e refl,
                    ),
                    tt,
                  )
          ]
        ]
      ]

  pub due_loop_sound :
      (fuel : ℕ) (c : Date)
      → IsFirst c
      → All (λ d. IsDue d × (month_index c ≤ month_index d)) (due_loop def day from to fuel c)
  unfolding due_loop
  due_loop_sound zero c f = tt
  due_loop_sound (suc fuel) c f = elim (Bool-cases (before to c)) [
    | inl e ↦ rw e tt
    | inr e ↦ rw e (
        All-append (λ d. IsDue d × (month_index c ≤ month_index d))
          (month_occurrences def day from to c) _
          (All-imp (λ d. IsDue d × (month_index d ≡ month_index c)) _
            (λ d h. (h.0, omega (arith, h.1))) (month_occurrences_sound c f))
          (All-imp (λ d. IsDue d × (month_index (next_month c) ≤ month_index d)) _
            (λ d h. (h.0, omega (arith, h.1, month_index-next_month c f)))
            (due_loop_sound fuel (next_month c) (next_month-IsFirst c f))))
  ]

  -- The two numbers of a month determine it.
  same_month :
      (c d : Date)
      → IsFirst c
      → IsValid d
      → month_index d ≡ month_index c
      → (d.year ≡ c.year) × (d.month ≡ c.month)
  same_month c d f v e = omega arith

  occurrence_of_month :
      (c d : Date) → IsFirst c → IsDue d → month_index d ≡ month_index c → occurrence day c ≡ d
  occurrence_of_month c d f h e =
      let (y, m) = same_month c d f h.valid e in cc (occurrence_lem day c f, y, m, h.on_day)

  month_occurrences_complete :
      (c d : Date)
      → IsFirst c
      → IsDue d
      → month_index d ≡ month_index c
      → month_occurrences def day from to c ≡ d ∷ []
  unfolding month_occurrences
  month_occurrences_complete c d f h e =
      let (y, m) = same_month c d f h.valid e in
      let due : month_due def.schedule_type def.quarter_start_month c.month ≡ true =
        rw (← m) h.on_month in
      rw (
        due,
        occurrence_of_month c d f h e,
        le→not-before h.valid vf h.window.0,
        le→not-before vt h.valid h.window.1,
      )

  -- No day of the window is missed: the rounds reach its month.
  pub due_loop_complete :
      (fuel : ℕ) (c d : Date)
      → IsFirst c
      → IsDue d
      → month_index c ≤ month_index d
      → month_index d < month_index c + fuel
      → Any (λ x. x ≡ d) (due_loop def day from to fuel c)
  unfolding due_loop
  due_loop_complete zero c d f h le lt = absurd (omega arith)
  due_loop_complete (suc fuel) c d f h le lt =
      rw (le→not-before vt (IsFirst-IsValid c f) (omega (arith, h.window.1, f.first_day)))
        (elim (Bool-cases (month_index d == month_index c)) [
          | inl e ↦ rw (month_occurrences_complete c d f h ((==_iff _ _).0 e)) (inl refl)
          | inr e ↦
              Any-append_right (λ x. x ≡ d) (month_occurrences def day from to c) _
                (due_loop_complete fuel (next_month c) d (next_month-IsFirst c f) h
                  (omega (arith, month_index-next_month c f, later e))
                  (omega (arith, month_index-next_month c f)))
        ])
    where
      later : (month_index d == month_index c) ≡ false → month_index d ≢ month_index c
      later e q = ground arith

  month_occurrences_shape :
      (c : Date)
      → (month_occurrences def day from to c ≡ [])
        ⊎ (month_occurrences def day from to c ≡ occurrence day c ∷ [])
  unfolding month_occurrences
  month_occurrences_shape c = ground arith

  occurrence-lt :
      (c : Date)
      → IsFirst c
      → (d : Date) → IsDue d × (month_index (next_month c) ≤ month_index d)
      → rank (occurrence day c) < rank d
  occurrence-lt c f d h =
      let v = occurrence-IsValid c f in
      let e = occurrence_lem day c f in
      let same : month_index (occurrence day c) ≡ month_index c = ap month_index e in
      omega (
        arith,
        same,
        month_index-next_month c f,
        h.0.valid,
        v,
        days_in_month_bounds (occurrence day c).year (occurrence day c).month,
      )

  -- The days are appended in ascending order.
  pub due_loop_ascending :
      (fuel : ℕ) (c : Date)
      → IsFirst c
      → Distinct (λ a b. rank a < rank b) (due_loop def day from to fuel c)
  unfolding due_loop
  due_loop_ascending zero c f = tt
  due_loop_ascending (suc fuel) c f =
      let rest = due_loop_ascending fuel (next_month c) (next_month-IsFirst c f) in
      elim (Bool-cases (before to c)) [
        | inl e ↦ rw e tt
        | inr e ↦ elim (month_occurrences_shape c) [
          | inl s ↦ rw (e, s) rest
          | inr s ↦
              rw (e, s)
                (
                  All-imp (λ d. IsDue d × (month_index (next_month c) ≤ month_index d)) _
                      (occurrence-lt c f)
                      (due_loop_sound fuel (next_month c) (next_month-IsFirst c f)),
                  rest,
                )
        ]
      ]

-- Once the cursor is past the window more rounds change nothing: the fuel never ends the loop.
pub due_loop_enough :
    (def : BillDefinition) (day : ℕ) (from to : Date) (fuel more : ℕ) (c : Date)
    → IsValid to
    → IsFirst c
    → month_index to < month_index c + fuel
    → due_loop def day from to (fuel + more) c ≡ due_loop def day from to fuel c
unfolding due_loop
due_loop_enough def day from to zero zero c v f lt = refl
due_loop_enough def day from to zero (suc more) c v f lt = rw (
  zero-add,
  lt→before v (IsFirst-IsValid c f) (omega (arith, days_in_month_bounds to.year to.month)),
)
due_loop_enough def day from to (suc fuel) more c v f lt = rw (
  suc-add,
  due_loop_enough def day from to fuel more (next_month c) v (next_month-IsFirst c f)
      (omega (arith, month_index-next_month c f)),
)
