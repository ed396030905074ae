-- ===== src/Handlers/Pages.antt =====
-- internal/handlers/view.go (`View`): the rows that the view's template prints.
pub mod Rows
pub mod Table
pub mod Editing
use billtracker_plugin.Base.{
  ℕ, ◌-◌, Bool, true, false, not, ◌&&◌, Option, none, some, List, [], ◌∷◌, ◌++◌, map, Bytes, codes,
  ◌==◌, if◌then◌else◌,
}
use billtracker_plugin.Base.Int.{ℤ, pos, negsuc}
use billtracker_plugin.Base.Decimal.{decimal}
use billtracker_plugin.Float.{format_cents, format_cents_plain}
use billtracker_plugin.Errors.{Error, Result, ok, err, no_simplefin_connection}
use billtracker_plugin.Calendar.{Date, before, add_days}
use billtracker_plugin.Clock.{Clock}
use billtracker_plugin.Schedule.{ScheduleType, monthly, quarterly, one_off, vendor, BillDefinition}
use billtracker_plugin.Handlers.Forms.Days.{format_date}
use billtracker_plugin.Models.Rows.{Account, BillInstanceView, SimpleFinConnection, Instant}
use billtracker_plugin.Models.Database.{Exec, pure, fail, attempt, ◌>>=◌}
use billtracker_plugin.Models.Bills
use billtracker_plugin.Models.Instances
use billtracker_plugin.Models.Accounts
use billtracker_plugin.Models.SimpleFin

-- The text of a nullable column, empty for NULL.
abbrev text_of : Option Bytes → Bytes
text_of none = []
text_of (some s) = s

pub record ViewBillRow : Type 0 where
  pub name : Bytes
  pub amount : Bytes
  pub due : Date
  pub overdue : Bool

pub record ViewAccountRow : Type 0 where
  pub name : Bytes
  pub org_name : Bytes
  pub balance : Bytes
  pub is_credit : Bool

pub record ViewData : Type 0 where
  pub bills : List ViewBillRow
  pub accounts : List ViewAccountRow
  pub simplefin_connected : Bool

abbrev pub view_bill_row : Date → BillInstanceView → ViewBillRow
view_bill_row today i = record {
  name = i.name;
  amount = format_cents i.amount_cents;
  due = i.due_date;
  overdue = before i.due_date today;
}

abbrev pub view_account_row : Account → ViewAccountRow
view_account_row a = record {
  name = Accounts.effective_name a;
  org_name = text_of a.org_name;
  balance = format_cents a.balance_cents;
  is_credit = Accounts.is_credit a;
}

module _ {R : Type 0} (row : Account → R) where
  -- The loop that sorts account rows into `bankRows` and `creditRows`, and the two joined.
  unfoldable pub split_rows : List R → List R → List Account → List R
  split_rows bank credit [] = bank ++ credit
  split_rows bank credit (a ∷ as') =
      let as_credit = split_rows bank (credit ++ row a ∷ []) as' in
      let as_bank = split_rows (bank ++ row a ∷ []) credit as' in
      if Accounts.is_credit a then as_credit else as_bank

abbrev with_accounts : List ViewBillRow → List Account → ViewData
with_accounts bills accounts = record {
  bills = bills;
  accounts = split_rows view_account_row [] [] accounts;
  simplefin_connected = true;
}

abbrev without_accounts : List ViewBillRow → Bool → ViewData
without_accounts bills connected = record {
  bills = bills;
  accounts = [];
  simplefin_connected = connected;
}

-- What `View` hands to its template; an error of the first query is answered with status 500.
unfoldable pub view : Clock → Exec ViewData
view clock = Instances.list_upcoming_unpaid (add_days clock.today (pos 60)) >>= λ instances.
    let bills = map (view_bill_row clock.today) instances in
    attempt SimpleFin.get (λ _. pure (without_accounts bills false))
      λ _.
        attempt Accounts.list_visible (λ _. pure (without_accounts bills true))
          λ accounts. pure (with_accounts bills accounts)
