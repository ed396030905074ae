-- ===== src/Scheduler/Outcome.antt =====
-- What one refresh of a vendor connection leaves in the tables: after a failure the bill as it was,
-- after an answer the vendor's amount and due day, and a cached connection is not asked again.
use billtracker_plugin.Base.{
  ℕ, ◌≡◌, refl, ap, ◌∙◌, true, Option, none, some, [], ◌∷◌, ◌++◌, arith, Bytes, ◌==◌, update, Bool,
  false, not, ◌&&◌, exists, exists-update, suc, is_empty, Bool-cases, inl, inr, if◌then◌else◌,
}
use billtracker_plugin.Base.Int.{ℤ, pos, ltb_ℤ, fits_int4}
use billtracker_plugin.Errors.{Error, Result, ok, err}
use billtracker_plugin.Clock.{Clock, minutes}
use billtracker_plugin.Crypto.{Aead}
use billtracker_plugin.Connectors.{Registry, BillSnapshot}
use billtracker_plugin.Models.Rows.{Instant, VendorConnection, Tables}
use billtracker_plugin.Models.Database.{Db, Exec, statement, pure, ignoring}
use billtracker_plugin.Models.Database.Keeps.{Keeps, Keeps-statement, Keeps-ignoring, Keeps-pure}
use billtracker_plugin.Models.Database.Quiet.{quiet, ignoring_runs}
use billtracker_plugin.Models.Bills.{set_definitions, update_amount}
use billtracker_plugin.Calendar.{same_day}
use billtracker_plugin.Models.Instances.{has_key, ensure_query, ensure_instance}
use billtracker_plugin.Models.Vendors
use billtracker_plugin.Models.Vendors.{synced}
use billtracker_plugin.Scheduler.{
  refresh_failed, ensure_owed, refresh_vendor_now, is_cached, refresh_vendor_if_stale,
}
use billtracker_plugin.Scheduler.Vendor.{vendor_answer, act_on, refresh_acts}

-- Bills and instances are as in `old`.
abbrev SameBills : Tables → Tables → Type 0
SameBills old t =
    (t.bill_definitions ≡ old.bill_definitions) × (t.bill_instances ≡ old.bill_instances)

mark_synced-SameBills :
    (old : Tables) (now : Instant) (id : ℕ) (number : Bytes) (e : Option Error)
    → Keeps (SameBills old) (Vendors.mark_synced now id number e)
unfolding Vendors.mark_synced
mark_synced-SameBills old now id number e = Keeps-statement _ λ t h. h

-- The tables after each statement that stores a snapshot on a quiet database.
abbrev with_amount : ℕ → ℤ → Tables → Tables
with_amount bill cents = set_definitions (λ k. k == bill) (λ d. record d { amount_cents = cents })

abbrev with_due : ℕ → BillSnapshot → Tables → Tables
with_due bill s t = if ltb_ℤ (pos 0) s.amount_cents then (ensure_query bill s.due_date t).1 else t

abbrev with_sync : Instant → ℕ → Bytes → Tables → Tables
with_sync now id number t = record t {
  vendor_connections = update (λ v. v.id == id) (synced now number none) t.vendor_connections;
}

-- What a vendor's answer comes to, column by column.
module _ (now : Instant) (conn : VendorConnection) (s : BillSnapshot) (t : Tables) where
  abbrev is_owed : Bool
  is_owed = ltb_ℤ (pos 0) s.amount_cents

  abbrev is_new : Bool
  is_new =
      is_owed
      && exists (λ d. d.id == conn.bill_definition_id) t.bill_definitions
      && not (
          exists
            (λ i. i.bill_definition_id == conn.bill_definition_id && same_day i.due_date s.due_date)
            t.bill_instances)

  abbrev pub billed : Tables
  billed = record t {
    bill_definitions =
        update (λ d. d.id == conn.bill_definition_id)
          (λ d. record d { amount_cents = s.amount_cents }) t.bill_definitions;
    bill_instances =
        if is_new
        then t.bill_instances
          ++ record {
            id = t.next_instance;
            bill_definition_id = conn.bill_definition_id;
            due_date = s.due_date;
            paid = false;
            paid_at = none;
          }
            ∷ []
        else t.bill_instances;
    next_instance = if is_owed then suc t.next_instance else t.next_instance;
    vendor_connections =
        update (λ v. v.id == conn.id)
          (λ v. record v {
            last_account_number =
                if is_empty s.account_number then v.last_account_number else some s.account_number;
            last_synced_at = some now;
            last_sync_error = none;
          })
          t.vendor_connections;
  }

  abbrev stored_tables : Tables
  stored_tables =
      with_sync now conn.id s.account_number
        (with_due conn.bill_definition_id s (with_amount conn.bill_definition_id s.amount_cents t))

  bill_stays :
      exists
        (λ d. d.id == conn.bill_definition_id)
        (with_amount conn.bill_definition_id s.amount_cents t).bill_definitions
      ≡ exists (λ d. d.id == conn.bill_definition_id) t.bill_definitions
  bill_stays =
      exists-update (λ d. d.id == conn.bill_definition_id) _ _ t.bill_definitions (λ d. refl)

  stored_tables-billed : stored_tables ≡ billed
  stored_tables-billed = elim (Bool-cases is_owed) [
    | inr e ↦ rw e refl
    | inl e ↦
        elim (Bool-cases (exists (has_key conn.bill_definition_id s.due_date) t.bill_instances)) [
          | inl there ↦ rw (e, there) (ground arith)
          | inr absent ↦ rw (e, absent, bill_stays) (ground arith)
        ]
  ]

update_amount_lem :
    (bill : ℕ) (cents : ℤ) (t : Tables)
    → fits_int4 cents ≡ true
    → update_amount bill cents (quiet t) ≡ (ok tt, quiet (with_amount bill cents t))
unfolding update_amount statement
update_amount_lem bill cents t fits = ground arith

ignoring-quiet :
    {A B : Type 0} (m : Exec A) (n : Exec B) (t t' : Tables)
    → (m (quiet t)).1 ≡ quiet t'
    → ignoring m n (quiet t) ≡ n (quiet t')
ignoring-quiet m n t t' e = ignoring_runs m n (quiet t) ∙ ap n e

module _ (gcm : Aead) (registry : Registry) (clock : Clock) (conn : VendorConnection) where
  refresh_failed-SameBills :
      (e : Error) (old : Tables) → Keeps (SameBills old) (refresh_failed gcm registry clock conn e)
  refresh_failed-SameBills e old =
      Keeps-ignoring _ _ (mark_synced-SameBills old clock.now conn.id [] (some e)) (Keeps-pure tt)

  -- Where the connector is unknown, the password does not open, or the vendor does not answer, a
  -- refresh leaves every bill and every instance as it was, whatever the database fails.
  pub failed_refresh_keeps_bills :
      (e : Error) (db : Db)
      → vendor_answer gcm registry clock conn ≡ err e
      → ((refresh_vendor_now gcm registry clock conn db).1.tables.bill_definitions
          ≡ db.tables.bill_definitions)
        × ((refresh_vendor_now gcm registry clock conn db).1.tables.bill_instances
            ≡ db.tables.bill_instances)
  failed_refresh_keeps_bills e db failed =
      rw (refresh_acts gcm registry clock conn db, failed)
        ((refresh_failed-SameBills e db.tables).at db (refl, refl))

  ensure_owed_lem :
      (s : BillSnapshot) (t : Tables)
      → (ensure_owed gcm registry conn.bill_definition_id s (quiet t)).1
        ≡ quiet (with_due conn.bill_definition_id s t)
  unfolding ensure_instance statement pure
  ensure_owed_lem s t = ground arith

  -- An answer with an amount that INTEGER holds, on a database that fails nothing: the refresh
  -- reports no error and leaves the tables as they were, but for this. The connection's bill has the
  -- amount. Where something is owed, a number is taken from the instances, and where the bill is
  -- there and has no instance on the due day, an unpaid one with this number comes behind the others.
  -- The connection is synced now, without an error, under the account number if there is one.
  pub answered_refresh_stores :
      (s : BillSnapshot) (t : Tables)
      → vendor_answer gcm registry clock conn ≡ ok s
      → fits_int4 s.amount_cents ≡ true
      → refresh_vendor_now gcm registry clock conn (quiet t)
        ≡ (ok tt, quiet (billed clock.now conn s t))
  unfolding Vendors.mark_synced statement pure
  answered_refresh_stores s t answered fits =
      refresh_acts gcm registry clock conn (quiet t)
      ∙ ap (λ r. act_on gcm registry clock conn r (quiet t)) answered
      ∙ ignoring-quiet _ _ t _ (
          ap (λ (x : Result (Unit {0}) × Db). x.1)
            (update_amount_lem conn.bill_definition_id s.amount_cents t fits))
      ∙ ignoring-quiet _ _ _ _
          (ensure_owed_lem s (with_amount conn.bill_definition_id s.amount_cents t))
      ∙ ignoring-quiet _ _ _ _ refl
      ∙ ap (λ after. (ok tt, quiet after)) (stored_tables-billed clock.now conn s t)

  -- A connection that was synced less than the interval ago is not asked, and nothing is written.
  pub cached_refresh_waits :
      (interval : ℤ) (db : Db)
      → is_cached gcm registry clock (minutes interval) conn.last_synced_at ≡ true
      → refresh_vendor_if_stale gcm registry clock interval conn db ≡ (ok tt, db)
  unfolding refresh_vendor_if_stale pure
  cached_refresh_waits interval db cached = rw cached
