-- ===== src/Models/Vendors.antt =====
-- internal/models/vendor_connection.go: `VendorConnectionStore`.
use billtracker_plugin.Base.{
  ℕ, suc, Bool, not, Option, none, some, List, [], ◌∷◌, ◌++◌, Bytes, is_empty, leb, ◌==◌,
  if◌then◌else◌, select, first, update, exists,
}
use billtracker_plugin.Errors.{Error, Result, ok, err, db_failure, vendor_connection_not_found}
use billtracker_plugin.Models.Rows.{Instant, VendorConnection, Tables}
use billtracker_plugin.Models.Database.{Exec, statement}
use billtracker_plugin.Models.Sorting.{order_by}

-- `ListAll`.
unfoldable pub list_all : Exec (List VendorConnection)
list_all = statement λ t. (ok (order_by (λ a b. leb a.id b.id) t.vendor_connections), t)

abbrev scan_connection : Option VendorConnection → Result VendorConnection
scan_connection none = err vendor_connection_not_found
scan_connection (some v) = ok v

-- `GetByBillDefinitionID`.
unfoldable pub get_by_bill : ℕ → Exec VendorConnection
get_by_bill bill =
    statement
      λ t. (scan_connection (first (λ v. v.bill_definition_id == bill) t.vendor_connections), t)

-- The login that `Upsert` is given.
pub record Login : Type 0 where
  pub bill_definition_id : ℕ
  pub connector : Bytes
  pub tenant : Bytes
  pub username : Bytes
  pub encrypted_password : Bytes
  pub bootstrap_managed : Bool

abbrev pub relogged : Login → VendorConnection → VendorConnection
relogged l v = record v {
  connector = l.connector;
  tenant = l.tenant;
  username = l.username;
  encrypted_password = l.encrypted_password;
  bootstrap_managed = l.bootstrap_managed;
}

abbrev pub first_login : ℕ → Login → VendorConnection
first_login id l = record {
  id = id;
  bill_definition_id = l.bill_definition_id;
  connector = l.connector;
  tenant = l.tenant;
  username = l.username;
  encrypted_password = l.encrypted_password;
  last_account_number = none;
  last_synced_at = none;
  last_sync_error = none;
  bootstrap_managed = l.bootstrap_managed;
}

abbrev returned_id : Option VendorConnection → Result ℕ
returned_id none = err db_failure
returned_id (some v) = ok v.id

abbrev pub upsert_query : Login → Tables → Result ℕ × Tables
upsert_query l t =
    if exists (λ v. v.bill_definition_id == l.bill_definition_id) t.vendor_connections
    then (
      returned_id (first (λ v. v.bill_definition_id == l.bill_definition_id) t.vendor_connections),
      record t {
        vendor_connections =
            update (λ v. v.bill_definition_id == l.bill_definition_id) (relogged l)
              t.vendor_connections;
        next_vendor = suc t.next_vendor;
      },
    )
    else if exists (λ d. d.id == l.bill_definition_id) t.bill_definitions
    then (
      ok t.next_vendor,
      record t {
        vendor_connections = t.vendor_connections ++ first_login t.next_vendor l ∷ [];
        next_vendor = suc t.next_vendor;
      },
    )
    else (err db_failure, record t { next_vendor = suc t.next_vendor })

-- `Upsert`: one connection for each bill.
unfoldable pub upsert : Login → Exec ℕ
upsert l = statement (upsert_query l)

-- `Delete`.
unfoldable pub delete : ℕ → Exec (Unit {0})
delete id = statement λ t.
    (ok tt, record t { vendor_connections = select (λ v. not (v.id == id)) t.vendor_connections })

-- `COALESCE($3, last_account_number)`, where an empty number is NULL.
abbrev coalesce : Bytes → Option Bytes → Option Bytes
coalesce number last = if is_empty number then last else some number

-- `MarkSynced`; the error is kept as the value that its text prints.
abbrev pub synced : Instant → Bytes → Option Error → VendorConnection → VendorConnection
synced now number e v = record v {
  last_account_number = coalesce number v.last_account_number;
  last_synced_at = some now;
  last_sync_error = e;
}

unfoldable pub mark_synced : Instant → ℕ → Bytes → Option Error → Exec (Unit {0})
mark_synced now id number e = statement λ t. (
  ok tt,
  record t {
    vendor_connections = update (λ v. v.id == id) (synced now number e) t.vendor_connections;
  },
)
