-- ===== src/Scheduler/Vendor.antt =====
-- Refreshing a vendor-connected bill: when the vendor is asked, and what is stored.
use billtracker_plugin.Base.{◌≡◌, none, some, List, [], ◌∷◌, arith, Bytes}
use billtracker_plugin.Base.Int.{ℤ}
use billtracker_plugin.Errors.{Error, Result, ok, err}
use billtracker_plugin.Clock.{Clock}
use billtracker_plugin.Crypto.{Aead, decrypt}
use billtracker_plugin.Connectors
use billtracker_plugin.Connectors.{Registry, Connector, BillSnapshot}
use billtracker_plugin.Models.Rows.{VendorConnection}
use billtracker_plugin.Models.Database.{Db, Exec, lift, attempt}
use billtracker_plugin.Models.Database.Keeps.{
  Keeps, Keeps-ignoring, Keeps-attempt, Keeps-pure, Keeps-lift, Keeps-if,
}
use billtracker_plugin.Models.Consistent.{IsConsistent}
use billtracker_plugin.Models.Consistent.Bills.{update_amount-IsConsistent}
use billtracker_plugin.Models.Consistent.Instances.{
  ensure_instance-IsConsistent, mark_synced-IsConsistent, vendors_list_all-IsConsistent,
}
use billtracker_plugin.Scheduler.{
  refresh_failed, credentials, store_snapshot, refresh_vendor_now, refresh_vendor_if_stale,
  refresh_each, refresh_vendor_connections,
}

module _ (gcm : Aead) (registry : Registry) (clock : Clock) where
  refresh_failed-IsConsistent :
      (conn : VendorConnection) (e : Error)
      → Keeps IsConsistent (refresh_failed gcm registry clock conn e)
  refresh_failed-IsConsistent conn e =
      Keeps-ignoring _ _ (mark_synced-IsConsistent clock.now conn.id [] (some e)) (Keeps-pure tt)

  store_snapshot-IsConsistent :
      (conn : VendorConnection) (s : BillSnapshot)
      → Keeps IsConsistent (store_snapshot gcm registry clock conn s)
  store_snapshot-IsConsistent conn s =
      Keeps-ignoring _ _ (update_amount-IsConsistent conn.bill_definition_id s.amount_cents) (
        Keeps-ignoring _ _
          (Keeps-if _ _ _ (λ _. ensure_instance-IsConsistent conn.bill_definition_id s.due_date)
            (λ _. Keeps-pure tt))
          (Keeps-ignoring _ _ (mark_synced-IsConsistent clock.now conn.id s.account_number none)
            (Keeps-pure tt)))

  refresh_vendor_now-IsConsistent :
      (conn : VendorConnection) → Keeps IsConsistent (refresh_vendor_now gcm registry clock conn)
  unfolding refresh_vendor_now
  refresh_vendor_now-IsConsistent conn =
      Keeps-attempt _ _ _ (Keeps-lift _) (refresh_failed-IsConsistent conn) λ connector.
        Keeps-attempt _ _ _ (Keeps-lift _) (refresh_failed-IsConsistent conn) λ password.
          Keeps-attempt _ _ _ (Keeps-lift _) (refresh_failed-IsConsistent conn)
            (store_snapshot-IsConsistent conn)

  pub refresh_vendor_if_stale-IsConsistent :
      (interval : ℤ) (conn : VendorConnection)
      → Keeps IsConsistent (refresh_vendor_if_stale gcm registry clock interval conn)
  unfolding refresh_vendor_if_stale
  refresh_vendor_if_stale-IsConsistent interval conn =
      Keeps-if _ _ _ (λ _. Keeps-pure tt) (λ _. refresh_vendor_now-IsConsistent conn)

  refresh_each-IsConsistent :
      (interval : ℤ) (conns : List VendorConnection)
      → Keeps IsConsistent (refresh_each gcm registry clock interval conns)
  unfolding refresh_each
  refresh_each-IsConsistent interval [] = Keeps-pure tt
  refresh_each-IsConsistent interval (conn ∷ conns) =
      Keeps-ignoring _ _ (refresh_vendor_if_stale-IsConsistent interval conn)
        (refresh_each-IsConsistent interval conns)

  pub refresh_vendor_connections-IsConsistent :
      (interval : ℤ) → Keeps IsConsistent (refresh_vendor_connections gcm registry clock interval)
  unfolding refresh_vendor_connections
  refresh_vendor_connections-IsConsistent interval =
      Keeps-attempt _ _ _ vendors_list_all-IsConsistent (λ _. Keeps-pure tt)
        (refresh_each-IsConsistent interval)

  abbrev pub then_ask : VendorConnection → Connector → Result Bytes → Result BillSnapshot
  then_ask conn connector (err e) = err e
  then_ask conn connector (ok password) =
      connector.fetch_bill (credentials gcm registry conn password)

  abbrev pub then_unlock : VendorConnection → Result Connector → Result BillSnapshot
  then_unlock conn (err e) = err e
  then_unlock conn (ok connector) = then_ask conn connector (decrypt gcm conn.encrypted_password)

  -- What asking the connection's vendor comes to: the connector, the password, and the fetch.
  abbrev pub vendor_answer : VendorConnection → Result BillSnapshot
  vendor_answer conn = then_unlock conn (Connectors.get conn.connector registry)

  abbrev pub act_on : VendorConnection → Result BillSnapshot → Exec (Unit {0})
  act_on conn (err e) = refresh_failed gcm registry clock conn e
  act_on conn (ok s) = store_snapshot gcm registry clock conn s

  -- The ladder of error checks: an answer is stored, and any failure on the way recorded.
  pub refresh_acts :
      (conn : VendorConnection) (db : Db)
      → refresh_vendor_now gcm registry clock conn db ≡ act_on conn (vendor_answer conn) db
  unfolding refresh_vendor_now attempt lift
  refresh_acts conn db = ground arith
