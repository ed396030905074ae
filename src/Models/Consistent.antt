-- ===== src/Models/Consistent.antt =====
-- What the constraints of the schema and the stores' statements keep of the tables: keys are
-- unique, rows that refer to a bill refer to one that exists, the CHECK constraints hold, and there
-- is at most one SimpleFIN connection.
pub mod Bills
pub mod Instances
pub mod Accounts
use billtracker_plugin.Base.{
  ℕ, ◌≤◌, ◌<◌, ◌≡◌, ◌≢◌, Bool, true, false, refl, length, All, Distinct, exists, same, ◌==◌,
  if◌then◌else◌,
}
use billtracker_plugin.Errors.{Result}
use billtracker_plugin.Schedule.{BillDefinition}
use billtracker_plugin.Models.Rows.{BillInstance, VendorConnection, Account, Tables, row_allowed}
use billtracker_plugin.Models.Instances.{has_key}

-- Whether a bill is in the table.
abbrev pub has_bill : ℕ → Tables → Bool
has_bill k t = exists (λ d. d.id == k) t.bill_definitions

pub record IsConsistent (t : Tables) : Type 0 where
  pub definition_ids : Distinct (λ a b. (a.id == b.id) ≡ false) t.bill_definitions
  pub definition_bound : All (λ d. d.id < t.next_definition) t.bill_definitions
  pub definitions_allowed : All (λ d. row_allowed d ≡ true) t.bill_definitions
  pub instance_ids : Distinct (λ a b. (a.id == b.id) ≡ false) t.bill_instances
  pub instance_bound : All (λ i. i.id < t.next_instance) t.bill_instances
  pub instance_keys :
      Distinct (λ a b. has_key b.bill_definition_id b.due_date a ≡ false) t.bill_instances
  pub instance_bills : All (λ i. has_bill i.bill_definition_id t ≡ true) t.bill_instances
  pub vendor_keys :
      Distinct (λ a b. (a.bill_definition_id == b.bill_definition_id) ≡ false) t.vendor_connections
  pub vendor_bills : All (λ v. has_bill v.bill_definition_id t ≡ true) t.vendor_connections
  pub account_keys : Distinct (λ a b. same a.simplefin_id b.simplefin_id ≡ false) t.accounts
  pub one_connection : length t.simplefin_connections ≤ 1

-- A query that branches keeps a property if both branches do.
pub at_if :
    {A : Type 0} (P : Tables → Type 0) (b : Bool) (x y : Result A × Tables)
    → (b ≡ true → P x.1)
    → (b ≡ false → P y.1)
    → P (if b then x else y).1
at_if P true x y hx hy = hx refl
at_if P false x y hx hy = hy refl
