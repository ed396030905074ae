-- ===== src/Scheduler.antt =====
-- internal/scheduler/scheduler.go: the jobs that generate bill instances, refresh SimpleFIN
-- balances and refresh vendor-connected bills. Logging is left out. The tickers only say when a
-- job runs: a job is one call of its function here.
pub mod Instances
pub mod Vendor
pub mod Outcome
pub mod Choices
pub mod Balances
pub mod Portal
pub mod Loops
pub mod Versions
use billtracker_plugin.Base.{
  ℕ, ◌-◌, Bool, true, false, Option, none, some, List, [], ◌∷◌, Bytes, if◌then◌else◌,
}
use billtracker_plugin.Base.Int.{ℤ, pos, ltb_ℤ, sub_ℕ}
use billtracker_plugin.Errors.{Error, Result, ok, err}
use billtracker_plugin.Calendar.{Date, add_days}
use billtracker_plugin.Clock.{Clock, minutes}
use billtracker_plugin.Crypto.{Aead, decrypt}
use billtracker_plugin.Schedule.{BillDefinition, next_due_dates}
use billtracker_plugin.Connectors
use billtracker_plugin.Connectors.{Registry, Connector, Credentials, BillSnapshot}
use billtracker_plugin.Models.Rows.{Instant, SimpleFinConnection, VendorConnection}
use billtracker_plugin.Models.Database.{Exec, pure, lift, attempt, ignoring, ◌>>=◌, ◌>>◌}
use billtracker_plugin.Models.Bills
use billtracker_plugin.Models.Instances.{ensure_instance}
use billtracker_plugin.Models.Accounts
use billtracker_plugin.Models.Accounts.{Synced}
use billtracker_plugin.Models.SimpleFin
use billtracker_plugin.Models.Vendors

abbrev pub done : Exec (Unit {0})
done = pure tt

-- `for _, due := range …`, up to the first error.
unfoldable pub ensure_all : ℕ → List Date → Exec (Unit {0})
ensure_all id [] = done
ensure_all id (due ∷ dues) = do ensure_instance id due; ensure_all id dues

-- `GenerateInstancesForDefinition`.
unfoldable pub generate_instances_for : Clock → BillDefinition → ℤ → Exec (Unit {0})
generate_instances_for clock def lookahead_days =
    let until = add_days clock.today lookahead_days in
    ensure_all def.id (next_due_dates def clock.today until)

-- The loop of `generateInstances`: an error is logged, and the next definition has its turn.
unfoldable pub generate_each : Clock → ℤ → List BillDefinition → Exec (Unit {0})
generate_each clock days [] = done
generate_each clock days (def ∷ defs) =
    ignoring (generate_instances_for clock def days) (generate_each clock days defs)

-- `generateInstances`.
unfoldable pub generate_instances : Clock → ℤ → Exec (Unit {0})
generate_instances clock days =
    attempt Bills.list_all (λ _. done) (λ defs. generate_each clock days defs)

-- The loop that stores the accounts: an error is logged.
unfoldable pub store_accounts : Instant → List Synced → Exec (Unit {0})
store_accounts now [] = done
store_accounts now (a ∷ rest) = ignoring (Accounts.upsert now a) (store_accounts now rest)

-- `fetch_accounts` is `simplefin.FetchAccounts`: what the bridge answers at the time.
module _ (gcm : Aead) (fetch_accounts : Bytes → Result (List Synced)) where
  abbrev pub sync_failed : Clock → SimpleFinConnection → Error → Exec (Unit {0})
  sync_failed clock conn e = ignoring (SimpleFin.mark_synced clock.now conn.id (some e)) done

  abbrev pub sync_connection : Clock → SimpleFinConnection → Exec (Unit {0})
  sync_connection clock conn =
      attempt (lift (decrypt gcm conn.encrypted_access_url)) (sync_failed clock conn) λ access_url.
        attempt (lift (fetch_accounts access_url)) (sync_failed clock conn) λ accounts.
          ignoring (store_accounts clock.now accounts)
            (ignoring (SimpleFin.mark_synced clock.now conn.id none) done)

  -- `RefreshSimpleFinNow`.
  unfoldable pub refresh_simplefin_now : Clock → Exec (Unit {0})
  refresh_simplefin_now clock = attempt SimpleFin.get (λ _. done) (sync_connection clock)

module _ (gcm : Aead) (registry : Registry) where
  abbrev refresh_failed : Clock → VendorConnection → Error → Exec (Unit {0})
  refresh_failed clock conn e = ignoring (Vendors.mark_synced clock.now conn.id [] (some e)) done

  abbrev pub credentials : VendorConnection → Bytes → Credentials
  credentials conn password = record {
    tenant = conn.tenant;
    username = conn.username;
    password = password;
  }

  -- A vendor to whom nothing is owed gets no instance.
  abbrev ensure_owed : ℕ → BillSnapshot → Exec (Unit {0})
  ensure_owed bill s =
      if ltb_ℤ (pos 0) s.amount_cents then ensure_instance bill s.due_date else done

  abbrev store_snapshot : Clock → VendorConnection → BillSnapshot → Exec (Unit {0})
  store_snapshot clock conn s =
      ignoring (Bills.update_amount conn.bill_definition_id s.amount_cents) (
        ignoring (ensure_owed conn.bill_definition_id s)
          (ignoring (Vendors.mark_synced clock.now conn.id s.account_number none) done))

  -- `RefreshVendorConnectionNow`.
  unfoldable pub refresh_vendor_now : Clock → VendorConnection → Exec (Unit {0})
  refresh_vendor_now clock conn =
      attempt (lift (Connectors.get conn.connector registry)) (refresh_failed clock conn)
        λ connector.
          attempt (lift (decrypt gcm conn.encrypted_password)) (refresh_failed clock conn)
            λ password.
              attempt (lift (connector.fetch_bill (credentials conn password)))
                (refresh_failed clock conn) (store_snapshot clock conn)

  -- Whether the connection was synced less than the interval ago; never synced is stale.
  abbrev pub is_cached : Clock → ℤ → Option Instant → Bool
  is_cached clock interval none = false
  is_cached clock interval (some t) = ltb_ℤ (sub_ℕ clock.now t) interval

  -- `RefreshVendorConnectionIfStale`.
  unfoldable pub refresh_vendor_if_stale : Clock → ℤ → VendorConnection → Exec (Unit {0})
  refresh_vendor_if_stale clock refresh_minutes conn =
      if is_cached clock (minutes refresh_minutes) conn.last_synced_at
      then done
      else refresh_vendor_now clock conn

  unfoldable pub refresh_each : Clock → ℤ → List VendorConnection → Exec (Unit {0})
  refresh_each clock days [] = done
  refresh_each clock days (conn ∷ conns) =
      ignoring (refresh_vendor_if_stale clock days conn) (refresh_each clock days conns)

  -- `refreshVendorConnections`.
  unfoldable pub refresh_vendor_connections : Clock → ℤ → Exec (Unit {0})
  refresh_vendor_connections clock refresh_minutes =
      attempt Vendors.list_all (λ _. done) (refresh_each clock refresh_minutes)
