-- ===== src/Handlers/Bootstrap.antt =====
-- internal/handlers/bootstrap.go and vendor_bootstrap.go: reconciling the bills with bills.json, and
-- attaching vendor connections.
pub mod Reconciled
pub mod Removal
pub mod HandMade
use billtracker_plugin.Base.{
  ℕ, Bool, true, false, not, ◌&&◌, ◌||◌, Option, none, some, List, [], ◌∷◌, Bytes, same, is_empty,
  trim_space, if◌then◌else◌,
}
use billtracker_plugin.Base.Int.{ℤ, pos}
use billtracker_plugin.Errors.{
  Error, Result, ok, err, bill_not_found, credentials_required, no_bill_named, passwords_exclusive,
  password_file_unreadable,
}
use billtracker_plugin.Clock.{Clock}
use billtracker_plugin.Connectors.{Registry}
use billtracker_plugin.Crypto.{Aead, encrypt}
use billtracker_plugin.Schedule.{BillDefinition}
use billtracker_plugin.Models.Database.{Exec, pure, fail, lift, attempt, ignoring, ◌>>=◌}
use billtracker_plugin.Models.Bills
use billtracker_plugin.Models.Vendors
use billtracker_plugin.Models.Vendors.{Login}
use billtracker_plugin.Scheduler.{done, generate_instances_for, refresh_vendor_if_stale}
use billtracker_plugin.Handlers.Forms.{BillBootstrap, bill_bootstrap_to_definition}

abbrev file_password : Option Bytes → Result Bytes
file_password none = err password_file_unreadable
file_password (some content) = ok (trim_space content)

-- internal/config/bills_bootstrap.go: `resolvePassword`. `read_file` is `os.ReadFile`.
unfoldable pub resolve_password : (Bytes → Option Bytes) → Bytes → Bytes → Result Bytes
resolve_password read_file password password_file =
    if not (is_empty password) && not (is_empty password_file)
    then err passwords_exclusive
    else if is_empty password_file
    then ok password
    else file_password (read_file password_file)

-- internal/config/vendor_connections_bootstrap.go: `VendorConnectionBootstrap`.
pub record VendorConnectionBootstrap : Type 0 where
  pub bill_name : Bytes
  pub connector : Bytes
  pub tenant : Bytes
  pub username : Bytes
  pub password : Bytes
  pub password_file : Bytes

abbrev pub login : ℕ → Bytes → Bytes → Bytes → Bytes → Login
login bill connector tenant username encrypted = record {
  bill_definition_id = bill;
  connector = connector;
  tenant = tenant;
  username = username;
  encrypted_password = encrypted;
  bootstrap_managed = true;
}

-- `random` gives, for the password of an entry, what the random reader gives for the nonce.
module _ (read_file : Bytes → Option Bytes) (gcm : Aead) (random : Bytes → Option Bytes) where
  module _ (registry : Registry) (clock : Clock) (refresh_minutes lookahead_days : ℤ) where
    -- What follows once the password is known.
    abbrev pub attach : ℕ → BillBootstrap → Bytes → Exec (Unit {0})
    attach bill entry password =
        if is_empty entry.username || is_empty password
        then done
        else attempt (lift (encrypt gcm (random password) password)) (λ _. done)
            λ encrypted.
              attempt
                (Vendors.upsert (login bill entry.connector entry.tenant entry.username encrypted))
                (λ _. done)
                λ _.
                  attempt (Vendors.get_by_bill bill) (λ _. done)
                    (refresh_vendor_if_stale gcm registry clock refresh_minutes)

    -- `attachVendorConnection`.
    unfoldable pub attach_vendor_connection : ℕ → BillBootstrap → Exec (Unit {0})
    attach_vendor_connection bill entry =
        attempt (lift (resolve_password read_file entry.password entry.password_file)) (λ _. done)
          (attach bill entry)

    abbrev pub follow_up : BillBootstrap → BillDefinition → Exec (Unit {0})
    follow_up entry def =
        if not (is_empty entry.connector)
        then attach_vendor_connection def.id entry
        else ignoring (generate_instances_for clock def lookahead_days) done

    abbrev pub on_missing : BillBootstrap → BillDefinition → Error → Exec (Unit {0})
    on_missing entry def bill_not_found =
        attempt (Bills.create (record def { bootstrap_managed = true })) (λ _. done)
          λ id. follow_up entry (record def { id = id; bootstrap_managed = true })
    on_missing entry def _ = done

    -- A connector's entry keeps the amount that the vendor last gave.
    abbrev refreshed : BillBootstrap → BillDefinition → BillDefinition → BillDefinition
    refreshed entry def existing = record def {
      id = existing.id;
      amount_cents =
          if not (is_empty entry.connector) then existing.amount_cents else def.amount_cents;
    }

    abbrev pub on_existing : BillBootstrap → BillDefinition → BillDefinition → Exec (Unit {0})
    on_existing entry def existing =
        if not existing.bootstrap_managed
        then done
        else attempt (Bills.update_bootstrap existing.id (refreshed entry def existing)) (λ _. done)
            λ _. follow_up entry (refreshed entry def existing)

    abbrev pub reconcile : BillBootstrap → BillDefinition → Exec (Unit {0})
    reconcile entry def =
        attempt (Bills.get_by_name def.name) (on_missing entry def) (on_existing entry def)

    -- The first loop of `BootstrapBills`; an entry that makes no definition is logged.
    abbrev reconcile_entry : BillBootstrap → Result BillDefinition → Exec (Unit {0})
    reconcile_entry entry (err e) = done
    reconcile_entry entry (ok def) = reconcile entry def

    unfoldable pub reconcile_each : List BillBootstrap → Exec (Unit {0})
    reconcile_each [] = done
    reconcile_each (entry ∷ entries) =
        ignoring (reconcile_entry entry (bill_bootstrap_to_definition entry))
          (reconcile_each entries)

    abbrev is_named : Bytes → Result BillDefinition → Bool
    is_named name (err e) = false
    is_named name (ok def) = same def.name name

    -- `seen` as the first loop leaves it.
    unfoldable pub seen : List BillBootstrap → Bytes → Bool
    seen [] name = false
    seen (entry ∷ entries) name =
        is_named name (bill_bootstrap_to_definition entry) || seen entries name

    -- The second loop.
    unfoldable pub remove_unseen : (Bytes → Bool) → List BillDefinition → Exec (Unit {0})
    remove_unseen listed [] = done
    remove_unseen listed (d ∷ ds) =
        if d.bootstrap_managed && not (listed d.name)
        then ignoring (Bills.delete (pos d.id)) (remove_unseen listed ds)
        else remove_unseen listed ds

    -- `BootstrapBills`.
    unfoldable pub bootstrap_bills : List BillBootstrap → Exec (Unit {0})
    bootstrap_bills entries =
        ignoring (reconcile_each entries)
          (attempt Bills.list_all (λ _. done) (remove_unseen (seen entries)))

  abbrev lookup_failed : Error → Exec (Unit {0})
  lookup_failed bill_not_found = fail no_bill_named
  lookup_failed e = fail e

  abbrev pub attach_to : VendorConnectionBootstrap → Bytes → BillDefinition → Exec (Unit {0})
  attach_to entry password def = lift (encrypt gcm (random password) password) >>= λ encrypted.
      Vendors.upsert (login def.id entry.connector entry.tenant entry.username encrypted) >>= λ _.
      done

  abbrev pub with_password : VendorConnectionBootstrap → Bytes → Exec (Unit {0})
  with_password entry password =
      if is_empty entry.bill_name
        || is_empty entry.connector
        || is_empty entry.username
        || is_empty password
      then fail credentials_required
      else attempt (Bills.get_by_name entry.bill_name) lookup_failed (attach_to entry password)

  -- `bootstrapVendorConnection`.
  unfoldable pub bootstrap_vendor_connection : VendorConnectionBootstrap → Exec (Unit {0})
  bootstrap_vendor_connection entry =
      lift (resolve_password read_file entry.password entry.password_file) >>= with_password entry

  -- `BootstrapVendorConnections`; an entry's error is logged.
  unfoldable pub bootstrap_vendor_connections : List VendorConnectionBootstrap → Exec (Unit {0})
  bootstrap_vendor_connections [] = done
  bootstrap_vendor_connections (entry ∷ entries) =
      ignoring (bootstrap_vendor_connection entry) (bootstrap_vendor_connections entries)
