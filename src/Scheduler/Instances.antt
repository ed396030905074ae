-- ===== src/Scheduler/Instances.antt =====
-- `GenerateInstancesForDefinition` and the generation job: what they add, and that a second run
-- adds nothing.
use billtracker_plugin.Base.{
  ℕ, ◌≡◌, refl, ◌∙◌, true, false, List, [], ◌∷◌, ◌++◌, append_assoc, append-nil, ap, sym, subst,
  All, All-append, All-imp,
}
use billtracker_plugin.Base.Int.{ℤ}
use billtracker_plugin.Errors.{Result, ok}
use billtracker_plugin.Calendar.{Date, add_days}
use billtracker_plugin.Clock.{Clock}
use billtracker_plugin.Schedule.{BillDefinition, next_due_dates}
use billtracker_plugin.Models.Rows.{BillInstance, Tables}
use billtracker_plugin.Models.Database.{Db, pure}
use billtracker_plugin.Models.Database.Keeps.{
  Keeps, Keeps-statement, Keeps-bind, Keeps-ignoring, keeps_rules,
}
use billtracker_plugin.Models.Database.Quiet.{quiet, statement-quiet, bind_ok}
use billtracker_plugin.Models.Bills.{list_all}
use billtracker_plugin.Models.Instances.{has_key, ensure_query, ensure_instance}
use billtracker_plugin.Models.Instances.Ensure.{
  has_instance, ensure_query_adds, ensure_query_makes, ensure_query_again, definitions-ensure_query,
  has_instance-ensure_query,
}
use billtracker_plugin.Models.Consistent.{IsConsistent, has_bill}
use billtracker_plugin.Models.Consistent.Bills.{list_all-IsConsistent}
use billtracker_plugin.Models.Consistent.Instances.{ensure_instance-IsConsistent}
use billtracker_plugin.Scheduler.{
  ensure_all, generate_instances_for, generate_each, generate_instances,
}

-- The instances are those of `old`, in their places, with unpaid ones behind them.
abbrev pub Extends : List BillInstance → Tables → Type 0
Extends old t =
    (added : List BillInstance) × (t.bill_instances ≡ old ++ added)
    × All (λ i. i.paid ≡ false) added

pub extend :
    (old : List BillInstance) (k : ℕ) (due : Date) (t : Tables)
    → Extends old t
    → Extends old (ensure_query k due t).1
extend old k due t (added, e, unpaid) = behind (ensure_query_adds k due t)
  where
    behind :
        (more : List BillInstance) × ((ensure_query k due t).1.bill_instances
            ≡ t.bill_instances ++ more)
          × All (λ i. (has_key k due i ≡ true) × (i.paid ≡ false)) more
        → Extends old (ensure_query k due t).1
    behind (more, e', fresh) = (
      added ++ more,
      e' ∙ ap (λ rows. rows ++ more) e ∙ append_assoc old added more,
      All-append (λ i. i.paid ≡ false) added more unpaid
          (All-imp (λ i. (has_key k due i ≡ true) × (i.paid ≡ false)) more (λ i h. h.1) fresh),
    )

module _ (old : List BillInstance) where
  pub ensure_instance-Extends : (k : ℕ) (due : Date) → Keeps (Extends old) (ensure_instance k due)
  unfolding ensure_instance
  ensure_instance-Extends k due = Keeps-statement _ (λ t h. extend old k due t h)

  ensure_all-Extends : (k : ℕ) (dues : List Date) → Keeps (Extends old) (ensure_all k dues)
  unfolding ensure_all
  ensure_all-Extends k [] = search keeps_rules
  ensure_all-Extends k (due ∷ dues) =
      Keeps-bind _ _ (ensure_instance-Extends k due) (λ _. ensure_all-Extends k dues)

  generate_instances_for-Extends :
      (clock : Clock) (def : BillDefinition) (days : ℤ)
      → Keeps (Extends old) (generate_instances_for clock def days)
  unfolding generate_instances_for
  generate_instances_for-Extends clock def days = ensure_all-Extends def.id _

  generate_each-Extends :
      (clock : Clock) (days : ℤ) (defs : List BillDefinition)
      → Keeps (Extends old) (generate_each clock days defs)
  unfolding generate_each
  generate_each-Extends clock days [] = search keeps_rules
  generate_each-Extends clock days (def ∷ defs) =
      Keeps-ignoring _ _ (generate_instances_for-Extends clock def days)
        (generate_each-Extends clock days defs)

  list_all-Extends : Keeps (Extends old) list_all
  unfolding list_all
  list_all-Extends = Keeps-statement _ (λ t h. h)

  job-Extends : (clock : Clock) (days : ℤ) → Keeps (Extends old) (generate_instances clock days)
  unfolding generate_instances
  job-Extends clock days = search (keeps_rules, list_all-Extends, generate_each-Extends)

-- The generation job only ever adds unpaid instances behind those that are there: it changes and
-- removes none, so no bill loses its paid mark, whichever statements the database fails.
pub generate_instances_adds :
    (clock : Clock) (days : ℤ) (db : Db)
    → Extends db.tables.bill_instances (generate_instances clock days db).1.tables
generate_instances_adds clock days db =
    (job-Extends db.tables.bill_instances clock days).at db ([], rw append-nil, tt)

ensure_all-IsConsistent : (k : ℕ) (dues : List Date) → Keeps IsConsistent (ensure_all k dues)
unfolding ensure_all
ensure_all-IsConsistent k [] = search keeps_rules
ensure_all-IsConsistent k (due ∷ dues) =
    Keeps-bind _ _ (ensure_instance-IsConsistent k due) (λ _. ensure_all-IsConsistent k dues)

pub generate_instances_for-IsConsistent :
    (clock : Clock) (def : BillDefinition) (days : ℤ)
    → Keeps IsConsistent (generate_instances_for clock def days)
unfolding generate_instances_for
generate_instances_for-IsConsistent clock def days = ensure_all-IsConsistent def.id _

generate_each-IsConsistent :
    (clock : Clock) (days : ℤ) (defs : List BillDefinition)
    → Keeps IsConsistent (generate_each clock days defs)
unfolding generate_each
generate_each-IsConsistent clock days [] = search keeps_rules
generate_each-IsConsistent clock days (def ∷ defs) =
    Keeps-ignoring _ _ (generate_instances_for-IsConsistent clock def days)
      (generate_each-IsConsistent clock days defs)

pub generate_instances-IsConsistent :
    (clock : Clock) (days : ℤ) → Keeps IsConsistent (generate_instances clock days)
unfolding generate_instances
generate_instances-IsConsistent clock days =
    search (keeps_rules, list_all-IsConsistent, generate_each-IsConsistent)

-- The tables after each day has been ensured.
abbrev ensured : ℕ → List Date → Tables → Tables
ensured k [] t = t
ensured k (due ∷ dues) t = ensured k dues (ensure_query k due t).1

still_there :
    (k : ℕ) (due : Date) (t : Tables)
    → has_bill k t ≡ true
    → has_bill k (ensure_query k due t).1 ≡ true
still_there k due t b = rw (definitions-ensure_query k due t) b

ensure_instance-quiet :
    (k : ℕ) (due : Date) (t : Tables)
    → has_bill k t ≡ true
    → ensure_instance k due (quiet t) ≡ (ok tt, quiet (ensure_query k due t).1)
unfolding ensure_instance
ensure_instance-quiet k due t b =
    statement-quiet (ensure_query k due) t
    ∙ ap (λ (r : Result (Unit {0})). (r, quiet (ensure_query k due t).1))
        (ensure_query_makes k due t b).0

pub ensure_all-quiet :
    (k : ℕ) (dues : List Date) (t : Tables)
    → has_bill k t ≡ true
    → ensure_all k dues (quiet t) ≡ (ok tt, quiet (ensured k dues t))
unfolding ensure_all
ensure_all-quiet k [] t b = unfold pure in refl
ensure_all-quiet k (due ∷ dues) t b =
    bind_ok (ensure_instance k due) (λ _. ensure_all k dues) (quiet t)
      (quiet (ensure_query k due t).1) tt (ensure_instance-quiet k due t b)
    ∙ ensure_all-quiet k dues (ensure_query k due t).1 (still_there k due t b)

ensured_keeps :
    (k j : ℕ) (d : Date) (dues : List Date) (t : Tables)
    → has_instance j d t ≡ true
    → has_instance j d (ensured k dues t) ≡ true
ensured_keeps k j d [] t h = h
ensured_keeps k j d (due ∷ dues) t h =
    ensured_keeps k j d dues (ensure_query k due t).1 (has_instance-ensure_query k due t j d h)

ensured_makes :
    (k : ℕ) (dues : List Date) (t : Tables)
    → has_bill k t ≡ true
    → All (λ due. has_instance k due (ensured k dues t) ≡ true) dues
ensured_makes k [] t b = tt
ensured_makes k (due ∷ dues) t b = (
  ensured_keeps k k due dues (ensure_query k due t).1 (ensure_query_makes k due t b).1,
  ensured_makes k dues (ensure_query k due t).1 (still_there k due t b),
)

ensured_again :
    (k : ℕ) (dues : List Date) (t : Tables)
    → All (λ due. has_instance k due t ≡ true) dues
    → (ensured k dues t).bill_instances ≡ t.bill_instances
ensured_again k [] t h = refl
ensured_again k (due ∷ dues) t h =
    ensured_again k dues (ensure_query k due t).1 (
      All-imp (λ d. has_instance k d t ≡ true) dues (λ d. has_instance-ensure_query k due t k d)
        h.1)
    ∙ (ensure_query_again k due t h.0).1

has_bill-ensured :
    (k : ℕ) (dues : List Date) (t : Tables)
    → has_bill k t ≡ true
    → has_bill k (ensured k dues t) ≡ true
has_bill-ensured k [] t b = b
has_bill-ensured k (due ∷ dues) t b =
    has_bill-ensured k dues (ensure_query k due t).1 (still_there k due t b)

module _ (clock : Clock) (def : BillDefinition) (days : ℤ) (t : Tables)
    (b : has_bill def.id t ≡ true) where
  abbrev dues : List Date
  dues = next_due_dates def clock.today (add_days clock.today days)

  -- For a bill in the table and with no failing statement, generation returns no error, and every
  -- due date of the window has its instance afterwards.
  pub generate_instances_for_makes :
      ((generate_instances_for clock def days (quiet t)).0 ≡ ok tt)
      × All
          (λ due.
            has_instance def.id due (generate_instances_for clock def days (quiet t)).1.tables
            ≡ true)
          (next_due_dates def clock.today (add_days clock.today days))
  unfolding generate_instances_for
  generate_instances_for_makes =
      let e = ensure_all-quiet def.id dues t b in
      (
        ap (λ (x : Result (Unit {0}) × Db). x.0) e,
        subst
            (λ (x : Result (Unit {0}) × Db).
              All (λ due. has_instance def.id due x.1.tables ≡ true) dues)
            (sym e) (ensured_makes def.id dues t b),
      )

  -- For a bill in the table and with no failing statement, a second generation on the same day adds
  -- and changes no instance.
  pub generate_instances_for_again :
      (generate_instances_for clock def days
        (generate_instances_for clock def days (quiet t)).1).1.tables.bill_instances
      ≡ (generate_instances_for clock def days (quiet t)).1.tables.bill_instances
  unfolding generate_instances_for
  generate_instances_for_again =
      let after = ensured def.id dues t in
      subst
        (λ (x : Result (Unit {0}) × Db).
          (ensure_all def.id dues x.1).1.tables.bill_instances ≡ x.1.tables.bill_instances)
        (sym (ensure_all-quiet def.id dues t b))
        (ap (λ (x : Result (Unit {0}) × Db). x.1.tables.bill_instances)
            (ensure_all-quiet def.id dues after (has_bill-ensured def.id dues t b))
          ∙ ensured_again def.id dues after (ensured_makes def.id dues t b))
