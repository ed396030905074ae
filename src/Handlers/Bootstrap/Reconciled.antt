-- ===== src/Handlers/Bootstrap/Reconciled.antt =====
-- What reconciling with bills.json keeps, what it leaves alone, and what it removes.
use billtracker_plugin.Base.{
  ℕ, ◌≡◌, refl, Bool, true, false, not, ◌&&◌, ◌||◌, Option, some, List, [], ◌∷◌, Bytes, same,
  is_empty, first,
}
use billtracker_plugin.Base.Int.{ℤ}
use billtracker_plugin.Errors.{Error, Result, ok, err, bill_not_found, db_failure}
use billtracker_plugin.Clock.{Clock}
use billtracker_plugin.Connectors.{Registry}
use billtracker_plugin.Crypto.{Aead, encrypt}
use billtracker_plugin.Schedule.{BillDefinition}
use billtracker_plugin.Models.Rows.{Tables}
use billtracker_plugin.Models.Database.{Db, Exec, pure, attempt, statement}
use billtracker_plugin.Models.Bills
use billtracker_plugin.Models.Bills.{without_definition}
use billtracker_plugin.Models.Database.Keeps.{
  Keeps, Keeps-attempt, Keeps-ignoring, Keeps-pure, Keeps-lift, Keeps-if, Keeps-fail, Keeps-bind,
}
use billtracker_plugin.Models.Consistent.{IsConsistent}
use billtracker_plugin.Models.Consistent.Bills.{
  list_all-IsConsistent, get_by_name-IsConsistent, create-IsConsistent,
  update_bootstrap-IsConsistent, delete-IsConsistent,
}
use billtracker_plugin.Models.Consistent.Instances.{upsert-IsConsistent, get_by_bill-IsConsistent}
use billtracker_plugin.Scheduler.{done}
use billtracker_plugin.Scheduler.Instances.{generate_instances_for-IsConsistent}
use billtracker_plugin.Scheduler.Vendor.{refresh_vendor_if_stale-IsConsistent}
use billtracker_plugin.Handlers.Forms.{BillBootstrap, bill_bootstrap_to_definition}
use billtracker_plugin.Handlers.Bootstrap.{
  VendorConnectionBootstrap, attach, attach_vendor_connection, follow_up, on_missing, on_existing,
  reconcile, reconcile_entry, reconcile_each, remove_unseen, bootstrap_bills, with_password,
  lookup_failed, bootstrap_vendor_connection, bootstrap_vendor_connections,
}

module _ (existing : BillDefinition) (name : Bytes) (on_missing : Error → Exec (Unit {0}))
    (on_existing : BillDefinition → Exec (Unit {0})) where
  -- A lookup that finds a row on which nothing is done leaves the tables, if nothing is done about
  -- a failing database either.
  leaves :
      (t : Tables) (outages : List Bool)
      → first (λ d. same d.name name) t.bill_definitions ≡ some existing
      → on_existing existing ≡ done
      → on_missing db_failure ≡ done
      → (attempt
          (Bills.get_by_name name)
          on_missing
          on_existing
          (record { tables = t; outages = outages })).1.tables
        ≡ t
  unfolding attempt Bills.get_by_name statement pure
  leaves t [] found nothing quietly = rw (found, nothing)
  leaves t (false ∷ rest) found nothing quietly = rw (found, nothing)
  leaves t (true ∷ rest) found nothing quietly = rw quietly

module _ (read_file : Bytes → Option Bytes) (gcm : Aead) (random : Bytes → Option Bytes) where
  module _ (registry : Registry) (clock : Clock) (minutes days : ℤ) where
    attach-IsConsistent :
        (bill : ℕ) (entry : BillBootstrap) (password : Bytes)
        → Keeps IsConsistent
            (attach read_file gcm random registry clock minutes days bill entry password)
    attach-IsConsistent bill entry password =
        Keeps-if (is_empty entry.username || is_empty password) _ _ (λ _. Keeps-pure tt)
          λ _.
            Keeps-attempt _ _ _ (Keeps-lift (encrypt gcm (random password) password))
              (λ _. Keeps-pure tt)
              λ encrypted.
                Keeps-attempt _ _ _ (upsert-IsConsistent _) (λ _. Keeps-pure tt)
                  λ _.
                    Keeps-attempt _ _ _ (get_by_bill-IsConsistent bill) (λ _. Keeps-pure tt)
                      (refresh_vendor_if_stale-IsConsistent gcm registry clock minutes)

    pub follow_up-IsConsistent :
        (entry : BillBootstrap) (def : BillDefinition)
        → Keeps IsConsistent (follow_up read_file gcm random registry clock minutes days entry def)
    unfolding attach_vendor_connection
    follow_up-IsConsistent entry def =
        Keeps-if (not (is_empty entry.connector)) _ _
          (λ _.
            Keeps-attempt _ _ (attach read_file gcm random registry clock minutes days def.id entry)
              (Keeps-lift _) (λ _. Keeps-pure tt) (attach-IsConsistent def.id entry))
          (λ _.
            Keeps-ignoring _ _ (generate_instances_for-IsConsistent clock def days) (Keeps-pure tt))

    on_missing-IsConsistent :
        (entry : BillBootstrap) (def : BillDefinition) (e : Error)
        → Keeps IsConsistent
            (on_missing read_file gcm random registry clock minutes days entry def e)
    on_missing-IsConsistent entry def bill_not_found =
        Keeps-attempt _ _ _ (create-IsConsistent _) (λ _. Keeps-pure tt)
          (λ id. follow_up-IsConsistent entry _)
    on_missing-IsConsistent entry def _ = Keeps-pure tt

    pub on_existing-IsConsistent :
        (entry : BillBootstrap) (def existing : BillDefinition)
        → Keeps IsConsistent
            (on_existing read_file gcm random registry clock minutes days entry def existing)
    on_existing-IsConsistent entry def existing =
        Keeps-if (not existing.bootstrap_managed) _ _ (λ _. Keeps-pure tt)
          λ _.
            Keeps-attempt _ _ _ (update_bootstrap-IsConsistent existing.id _) (λ _. Keeps-pure tt)
              (λ _. follow_up-IsConsistent entry _)

    reconcile_entry-IsConsistent :
        (entry : BillBootstrap) (r : Result BillDefinition)
        → Keeps IsConsistent
            (reconcile_entry read_file gcm random registry clock minutes days entry r)
    reconcile_entry-IsConsistent entry (err e) = Keeps-pure tt
    reconcile_entry-IsConsistent entry (ok def) =
        Keeps-attempt _ _ _ (get_by_name-IsConsistent def.name) (on_missing-IsConsistent entry def)
          (on_existing-IsConsistent entry def)

    reconcile_each-IsConsistent :
        (entries : List BillBootstrap)
        → Keeps IsConsistent
            (reconcile_each read_file gcm random registry clock minutes days entries)
    unfolding reconcile_each
    reconcile_each-IsConsistent [] = Keeps-pure tt
    reconcile_each-IsConsistent (entry ∷ entries) =
        Keeps-ignoring _ _ (reconcile_entry-IsConsistent entry (bill_bootstrap_to_definition entry))
          (reconcile_each-IsConsistent entries)

    pub remove_unseen-IsConsistent :
        (listed : Bytes → Bool) (ds : List BillDefinition)
        → Keeps IsConsistent
            (remove_unseen read_file gcm random registry clock minutes days listed ds)
    unfolding remove_unseen
    remove_unseen-IsConsistent listed [] = Keeps-pure tt
    remove_unseen-IsConsistent listed (d ∷ ds) =
        Keeps-if (d.bootstrap_managed && not (listed d.name)) _ _
          (λ _. Keeps-ignoring _ _ (delete-IsConsistent _) (remove_unseen-IsConsistent listed ds))
          (λ _. remove_unseen-IsConsistent listed ds)

    -- Reconciling with any bills.json keeps the tables consistent, whatever the database fails and
    -- the vendors answer.
    pub bootstrap_bills-IsConsistent :
        (entries : List BillBootstrap)
        → Keeps IsConsistent
            (bootstrap_bills read_file gcm random registry clock minutes days entries)
    unfolding bootstrap_bills
    bootstrap_bills-IsConsistent entries =
        Keeps-ignoring _ _ (reconcile_each-IsConsistent entries) (
          Keeps-attempt _ _ _ list_all-IsConsistent (λ _. Keeps-pure tt)
            (remove_unseen-IsConsistent _))

    -- An entry that names a bill of the settings page changes nothing, whatever the database fails.
    reconcile_leaves_ui_bill :
        (entry : BillBootstrap) (def existing : BillDefinition) (db : Db)
        → first (λ d. same d.name def.name) db.tables.bill_definitions ≡ some existing
        → existing.bootstrap_managed ≡ false
        → (reconcile read_file gcm random registry clock minutes days entry def db).1.tables
          ≡ db.tables
    reconcile_leaves_ui_bill entry def existing db found theirs =
        leaves existing def.name _ _ db.tables db.outages found (rw theirs) refl

  lookup_failed-IsConsistent :
      (e : Error) → Keeps IsConsistent (lookup_failed read_file gcm random e)
  lookup_failed-IsConsistent bill_not_found = Keeps-fail _
  lookup_failed-IsConsistent _ = Keeps-fail _

  bootstrap_vendor_connection-IsConsistent :
      (entry : VendorConnectionBootstrap)
      → Keeps IsConsistent (bootstrap_vendor_connection read_file gcm random entry)
  unfolding bootstrap_vendor_connection
  bootstrap_vendor_connection-IsConsistent entry =
      Keeps-bind _ (with_password read_file gcm random entry) (Keeps-lift _) λ password.
        Keeps-if
          (is_empty entry.bill_name
            || is_empty entry.connector
            || is_empty entry.username
            || is_empty password)
          _ _ (λ _. Keeps-fail _)
          λ _.
            Keeps-attempt _ _ _ (get_by_name-IsConsistent entry.bill_name)
              lookup_failed-IsConsistent
              λ def.
                Keeps-bind _ _ (Keeps-lift (encrypt gcm (random password) password))
                  λ encrypted. Keeps-bind _ _ (upsert-IsConsistent _) λ _. Keeps-pure tt

  -- Attaching vendor connections from their own file keeps the tables consistent.
  pub bootstrap_vendor_connections-IsConsistent :
      (entries : List VendorConnectionBootstrap)
      → Keeps IsConsistent (bootstrap_vendor_connections read_file gcm random entries)
  unfolding bootstrap_vendor_connections
  bootstrap_vendor_connections-IsConsistent [] = Keeps-pure tt
  bootstrap_vendor_connections-IsConsistent (entry ∷ entries) =
      Keeps-ignoring _ _ (bootstrap_vendor_connection-IsConsistent entry)
        (bootstrap_vendor_connections-IsConsistent entries)
