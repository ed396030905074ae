-- ===== src/Models/Instances.antt =====
-- internal/models/bill.go: `BillInstanceStore`.
pub mod Ensure
pub mod Listed
use billtracker_plugin.Base.{
  ℕ, suc, Bool, true, false, not, ◌&&◌, Option, none, some, List, [], ◌∷◌, ◌++◌, ◌==◌,
  if◌then◌else◌, select, first, update, exists,
}
use billtracker_plugin.Base.Int.{ℤ, id_is}
use billtracker_plugin.Errors.{Result, ok, err, db_failure, instance_not_found}
use billtracker_plugin.Calendar.{Date, before, same_day}
use billtracker_plugin.Schedule.{BillDefinition}
use billtracker_plugin.Models.Rows.{Instant, BillInstance, BillInstanceView, Tables}
use billtracker_plugin.Models.Database.{Exec, statement}
use billtracker_plugin.Models.Sorting.{order_by}

abbrev view_of : BillInstance → BillDefinition → BillInstanceView
view_of i d = record {
  instance_id = i.id;
  definition_id = i.bill_definition_id;
  name = d.name;
  amount_cents = d.amount_cents;
  vendor_url = d.vendor_url;
  due_date = i.due_date;
  paid = i.paid;
}

-- `JOIN bt_bill_definitions d ON d.id = i.bill_definition_id`; ids are a primary key.
abbrev joined_with : BillInstance → Option BillDefinition → List BillInstanceView
joined_with i none = []
joined_with i (some d) = view_of i d ∷ []

unfoldable pub joined : List BillDefinition → List BillInstance → List BillInstanceView
joined ds [] = []
joined ds (i ∷ is) = joined_with i (first (λ d. d.id == i.bill_definition_id) ds) ++ joined ds is

by_due_date : List BillInstanceView → List BillInstanceView
by_due_date = order_by (λ a b. not (before b.due_date a.due_date))

abbrev pub is_upcoming_unpaid : Date → BillInstance → Bool
is_upcoming_unpaid to i = not i.paid && not (before to i.due_date)

-- `ListUpcomingUnpaid`: no lower bound.
unfoldable pub list_upcoming_unpaid : Date → Exec (List BillInstanceView)
unfolding by_due_date
list_upcoming_unpaid to = statement λ t. (
  ok (by_due_date (joined t.bill_definitions (select (is_upcoming_unpaid to) t.bill_instances))),
  t,
)

-- `ListAllForSettings`.
unfoldable pub list_all_for_settings : Date → Date → Exec (List BillInstanceView)
unfolding by_due_date
list_all_for_settings from to = statement λ t. (
  ok (
      by_due_date (
        joined t.bill_definitions (
          select (λ i. not (before i.due_date from) && not (before to i.due_date))
            t.bill_instances))),
  t,
)

-- Whether an instance is the one of a definition and a day, which are its UNIQUE key.
abbrev pub has_key : ℕ → Date → BillInstance → Bool
has_key definition_id due_date i =
    i.bill_definition_id == definition_id && same_day i.due_date due_date

abbrev pub new_instance : ℕ → ℕ → Date → BillInstance
new_instance id definition_id due_date = record {
  id = id;
  bill_definition_id = definition_id;
  due_date = due_date;
  paid = false;
  paid_at = none;
}

abbrev pub with_instance : ℕ → Date → Tables → Tables
with_instance definition_id due_date t = record t {
  bill_instances = t.bill_instances ++ new_instance t.next_instance definition_id due_date ∷ [];
  next_instance = suc t.next_instance;
}

-- The number of the row is handed out before the conflict is found.
abbrev pub ensure_query : ℕ → Date → Tables → Result (Unit {0}) × Tables
ensure_query definition_id due_date t =
    if exists (has_key definition_id due_date) t.bill_instances
    then (ok tt, record t { next_instance = suc t.next_instance })
    else if exists (λ d. d.id == definition_id) t.bill_definitions
    then (ok tt, with_instance definition_id due_date t)
    else (err db_failure, record t { next_instance = suc t.next_instance })

-- `EnsureInstance`; the foreign key refuses an unknown definition.
unfoldable pub ensure_instance : ℕ → Date → Exec (Unit {0})
ensure_instance definition_id due_date = statement (ensure_query definition_id due_date)

abbrev pub paid_now : Instant → BillInstance → BillInstance
paid_now now i = record i { paid = true; paid_at = some now }

-- `MarkPaid`: no row affected is an error.
unfoldable pub mark_paid : Instant → ℤ → Exec (Unit {0})
mark_paid now id = statement λ t.
    if exists (λ i. id_is id i.id) t.bill_instances
    then (
      ok tt,
      record t { bill_instances = update (λ i. id_is id i.id) (paid_now now) t.bill_instances },
    )
    else (err instance_not_found, t)
