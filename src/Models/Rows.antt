-- ===== src/Models/Rows.antt =====
-- The rows of internal/db/migrations/00001_initial_schema.sql, as the structs of internal/models
-- read them, and the whole of the tables. `bt_bill_definitions` is `BillDefinition`.
use billtracker_plugin.Base.{ℕ, Bool, true, false, ◌&&◌, Option, none, some, List, Bytes, leb}
use billtracker_plugin.Base.Int.{ℤ, fits_int4}
use billtracker_plugin.Errors.{Error}
use billtracker_plugin.Calendar.{Date, days_in_month}
use billtracker_plugin.Schedule.{ScheduleType, monthly, quarterly, one_off, vendor, BillDefinition}

-- An instant, in nanoseconds.
abbrev pub Instant : Type 0
Instant = ℕ

pub record BillInstance : Type 0 where
  pub id : ℕ
  pub bill_definition_id : ℕ
  pub due_date : Date
  pub paid : Bool
  pub paid_at : Option Instant

pub record BillInstanceView : Type 0 where
  pub instance_id : ℕ
  pub definition_id : ℕ
  pub name : Bytes
  pub amount_cents : ℤ
  pub vendor_url : Option Bytes
  pub due_date : Date
  pub paid : Bool

-- `CreatedAt` is left out here too, and so is `Account.LastSyncError`, which is always NULL.
pub record Account : Type 0 where
  pub id : ℕ
  pub simplefin_id : Bytes
  pub org_name : Option Bytes
  pub name : Bytes
  pub display_name : Option Bytes
  pub currency : Bytes
  pub balance_cents : ℤ
  pub available_balance_cents : Option ℤ
  pub balance_date : Option Instant
  pub visible : Bool
  pub last_synced_at : Option Instant

pub record SimpleFinConnection : Type 0 where
  pub id : ℕ
  pub encrypted_access_url : Bytes
  pub connected_at : Instant
  pub last_synced_at : Option Instant
  pub last_sync_error : Option Error

pub record VendorConnection : Type 0 where
  pub id : ℕ
  pub bill_definition_id : ℕ
  pub connector : Bytes
  pub tenant : Bytes
  pub username : Bytes
  pub encrypted_password : Bytes
  pub last_account_number : Option Bytes
  pub last_synced_at : Option Instant
  pub last_sync_error : Option Error
  pub bootstrap_managed : Bool

-- The tables, each with the next number of its SERIAL id. `collate a b` says that text `a` sorts
-- no later than `b`: the database's collation, of which nothing is assumed.
pub record Tables : Type 0 where
  pub bill_definitions : List BillDefinition
  pub next_definition : ℕ
  pub bill_instances : List BillInstance
  pub next_instance : ℕ
  pub accounts : List Account
  pub next_account : ℕ
  pub simplefin_connections : List SimpleFinConnection
  pub next_simplefin : ℕ
  pub vendor_connections : List VendorConnection
  pub next_vendor : ℕ
  pub settings : List (Bytes × Bytes)
  pub collate : Bytes → Bytes → Bool

abbrev pub between : ℕ → ℕ → ℕ → Bool
between lo hi n = leb lo n && leb n hi

-- A DATE column holds days that exist.
abbrev pub date_exists : Date → Bool
date_exists t =
    leb 1 t.year && between 1 12 t.month && between 1 (days_in_month t.year t.month) t.day

-- The CHECK constraints on the schedule columns of bt_bill_definitions.
unfoldable pub schedule_allowed : ScheduleType → Option ℕ → Option ℕ → Option Date → Bool
schedule_allowed monthly (some day) none none = between 1 31 day
schedule_allowed quarterly (some day) (some start) none = between 1 31 day && between 1 3 start
schedule_allowed one_off none none (some t) = date_exists t
schedule_allowed vendor none none none = true
schedule_allowed _ _ _ _ = false

-- Whether the table takes the row: its CHECK constraints, and the range of INTEGER.
unfoldable pub row_allowed : BillDefinition → Bool
unfolding schedule_allowed
row_allowed d =
    fits_int4 d.amount_cents
    && schedule_allowed d.schedule_type d.day_of_month d.quarter_start_month d.one_off_date
