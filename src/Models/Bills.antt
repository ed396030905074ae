-- ===== src/Models/Bills.antt =====
-- internal/models/bill.go: `BillDefinitionStore`.
use billtracker_plugin.Base.{
  ℕ, suc, Bool, not, ◌&&◌, Option, none, some, List, [], ◌∷◌, ◌++◌, Bytes, same, ◌==◌,
  if◌then◌else◌, select, first, update, exists,
}
use billtracker_plugin.Base.Int.{ℤ, id_is, fits_int4}
use billtracker_plugin.Errors.{Result, ok, err, db_failure, bill_not_found}
use billtracker_plugin.Schedule.{BillDefinition}
use billtracker_plugin.Models.Rows.{Tables, row_allowed}
use billtracker_plugin.Models.Database.{Exec, statement}
use billtracker_plugin.Models.Sorting.{order_by}

-- `ListAll`.
unfoldable pub list_all : Exec (List BillDefinition)
list_all = statement λ t. (ok (order_by (λ a b. t.collate a.name b.name) t.bill_definitions), t)

-- `scanBillDefinition`: no row is `ErrBillNotFound`.
abbrev scan_bill : Option BillDefinition → Result BillDefinition
scan_bill none = err bill_not_found
scan_bill (some d) = ok d

unfoldable pub get_by_id : ℤ → Exec BillDefinition
get_by_id i = statement λ t. (scan_bill (first (λ d. id_is i d.id) t.bill_definitions), t)

unfoldable pub get_by_name : Bytes → Exec BillDefinition
get_by_name name = statement λ t. (scan_bill (first (λ d. same d.name name) t.bill_definitions), t)

-- The row that `Create` inserts.
abbrev pub inserted : ℕ → BillDefinition → BillDefinition
inserted id b = record b { id = id; simplefin_account_id = none }

abbrev pub with_definition : BillDefinition → Tables → Tables
with_definition b t = record t {
  bill_definitions = t.bill_definitions ++ inserted t.next_definition b ∷ [];
  next_definition = suc t.next_definition;
}

-- A SERIAL column hands a number out also where the row is refused.
unfoldable pub create : BillDefinition → Exec ℕ
create b = statement λ t.
    if row_allowed b
    then (ok t.next_definition, with_definition b t)
    else (err db_failure, record t { next_definition = suc t.next_definition })

-- The columns that `Update` sets.
abbrev pub edited : BillDefinition → BillDefinition → BillDefinition
edited b d = record d {
  name = b.name;
  amount_cents = b.amount_cents;
  schedule_type = b.schedule_type;
  day_of_month = b.day_of_month;
  quarter_start_month = b.quarter_start_month;
  one_off_date = b.one_off_date;
  vendor_url = b.vendor_url;
}

-- The columns that `UpdateBootstrap` sets: all of those but the name.
abbrev pub edited_bootstrap : BillDefinition → BillDefinition → BillDefinition
edited_bootstrap b d = record d {
  amount_cents = b.amount_cents;
  schedule_type = b.schedule_type;
  day_of_month = b.day_of_month;
  quarter_start_month = b.quarter_start_month;
  one_off_date = b.one_off_date;
  vendor_url = b.vendor_url;
}

abbrev pub set_definitions : (ℕ → Bool) → (BillDefinition → BillDefinition) → Tables → Tables
set_definitions p f t = record t { bill_definitions = update (λ d. p d.id) f t.bill_definitions }

-- An UPDATE whose rows, if there are any, must pass the CHECK constraints.
abbrev pub checked_update :
    (ℕ → Bool) → Bool → (BillDefinition → BillDefinition) → Tables → Result (Unit {0}) × Tables
checked_update p allowed f t =
    if exists (λ d. p d.id) t.bill_definitions && not allowed
    then (err db_failure, t)
    else (ok tt, set_definitions p f t)

-- `Update`.
unfoldable pub update_bill : ℤ → BillDefinition → Exec (Unit {0})
update_bill i b = statement (checked_update (id_is i) (row_allowed b) (edited b))

-- `UpdateBootstrap`.
unfoldable pub update_bootstrap : ℕ → BillDefinition → Exec (Unit {0})
update_bootstrap i b = statement (checked_update (λ k. k == i) (row_allowed b) (edited_bootstrap b))

-- `UpdateAmount`.
unfoldable pub update_amount : ℕ → ℤ → Exec (Unit {0})
update_amount i cents =
    statement
      (checked_update (λ k. k == i) (fits_int4 cents) (λ d. record d { amount_cents = cents }))

-- The row and, by ON DELETE CASCADE, the instances and the vendor connection that refer to it.
abbrev pub without_definition : (ℕ → Bool) → Tables → Tables
without_definition p t = record t {
  bill_definitions = select (λ d. not (p d.id)) t.bill_definitions;
  bill_instances = select (λ i. not (p i.bill_definition_id)) t.bill_instances;
  vendor_connections = select (λ v. not (p v.bill_definition_id)) t.vendor_connections;
}

-- `Delete`.
unfoldable pub delete : ℤ → Exec (Unit {0})
delete i = statement λ t. (ok tt, without_definition (id_is i) t)
