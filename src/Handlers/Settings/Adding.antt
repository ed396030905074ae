-- ===== src/Handlers/Settings/Adding.antt =====
-- Adding a bill on the settings page: the row, and the instances of its coming due dates.
use billtracker_plugin.Base.{
  ℕ, ◌≡◌, refl, ap, ◌∙◌, none, List, [], ◌∷◌, ◌++◌, true, ◌==◌, All, exists-append_right, arith,
}
use billtracker_plugin.Base.Int.{ℤ}
use billtracker_plugin.Errors.{ok}
use billtracker_plugin.Calendar.{Date, add_days}
use billtracker_plugin.Clock.{Clock}
use billtracker_plugin.Schedule.{BillDefinition, next_due_dates}
use billtracker_plugin.Models.Rows.{Tables, row_allowed}
use billtracker_plugin.Models.Database.{pure, lift, attempt, statement}
use billtracker_plugin.Models.Database.Quiet.{quiet, attempt_ok}
use billtracker_plugin.Models.Database.Keeps.{Keeps, Keeps-statement, Keeps-pure, Keeps-bind}
use billtracker_plugin.Models.Bills
use billtracker_plugin.Models.Bills.{with_definition}
use billtracker_plugin.Models.Consistent.{has_bill}
use billtracker_plugin.Models.Instances.Ensure.{has_instance, definitions-ensure_query}
use billtracker_plugin.Models.Instances.{ensure_instance}
use billtracker_plugin.Scheduler.{ensure_all, generate_instances_for}
use billtracker_plugin.Scheduler.Instances.{generate_instances_for_makes}
use billtracker_plugin.Handlers.Forms.{Form, parse_bill_form}
use billtracker_plugin.Handlers.Settings.{succeeded, generate, add_bill}

-- The bills are those of a list.
abbrev HasBills : List BillDefinition → Tables → Type 0
HasBills bills t = t.bill_definitions ≡ bills

module _ (bills : List BillDefinition) where
  ensure_all-HasBills : (k : ℕ) (dues : List Date) → Keeps (HasBills bills) (ensure_all k dues)
  unfolding ensure_all ensure_instance
  ensure_all-HasBills k [] = Keeps-pure tt
  ensure_all-HasBills k (due ∷ dues) =
      Keeps-bind _ _ (Keeps-statement _ (λ t h. definitions-ensure_query k due t ∙ h))
        (λ _. ensure_all-HasBills k dues)

  generate_instances_for-HasBills :
      (clock : Clock) (def : BillDefinition) (days : ℤ)
      → Keeps (HasBills bills) (generate_instances_for clock def days)
  unfolding generate_instances_for
  generate_instances_for-HasBills clock def days = ensure_all-HasBills def.id _

abbrev pub numbered : ℕ → BillDefinition → BillDefinition
numbered id def = record def { id = id }

module _ (clock : Clock) (days : ℤ) (form : Form) (def : BillDefinition) (t : Tables) where
  add_bill_generates :
      parse_bill_form form ≡ ok def
      → row_allowed def ≡ true
      → add_bill clock days form (quiet t)
        ≡ generate clock days (numbered t.next_definition def) (quiet (with_definition def t))
  unfolding add_bill attempt lift Bills.create statement
  add_bill_generates accepted allowed = rw (accepted, allowed)

  has_bill-with_definition : has_bill t.next_definition (with_definition def t) ≡ true
  has_bill-with_definition =
      exists-append_right (λ d. d.id == t.next_definition) t.bill_definitions _ (ground arith)

  -- A form that is accepted, as a row that the table takes, on a database that fails nothing: the
  -- action succeeds, the bills are those before and, behind them, the form's under the next number
  -- and linked to no account, and each of its due dates within the days looked ahead has an instance.
  pub add_bill_schedules :
      parse_bill_form form ≡ ok def
      → row_allowed def ≡ true
      → let (reply, after) = add_bill clock days form (quiet t) in
        (reply ≡ ok succeeded)
        × (after.tables.bill_definitions
            ≡ t.bill_definitions
              ++ record def { id = t.next_definition; simplefin_account_id = none } ∷ [])
        × All
            (λ due. has_instance t.next_definition due after.tables ≡ true)
            (next_due_dates
              (numbered t.next_definition def)
              clock.today
              (add_days clock.today days))
  unfolding pure
  add_bill_schedules accepted allowed =
      let generated = numbered t.next_definition def in
      let start = quiet (with_definition def t) in
      let (fine, made) =
        generate_instances_for_makes clock generated days (with_definition def t)
          has_bill-with_definition in
      let kept = (generate_instances_for-HasBills _ clock generated days).at start refl in
      rw
        (
          add_bill_generates accepted allowed,
          attempt_ok (generate_instances_for clock generated days) _ (λ _. pure succeeded) start
              (generate_instances_for clock generated days start).1 tt
              (ap (λ r. (r, (generate_instances_for clock generated days start).1)) fine),
        )
        (refl, kept, made)
