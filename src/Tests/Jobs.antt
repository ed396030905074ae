-- ===== src/Tests/Jobs.antt =====
-- The stores and the scheduler's jobs on small tables.
use billtracker_plugin.Base.{◌≡◌, refl, [], ◌∷◌, none, some, true, false, codes, All, same}
use billtracker_plugin.Base.Int.{pos}
use billtracker_plugin.Errors.{ok, err, request_failed}
use billtracker_plugin.Calendar.{date, add_days}
use billtracker_plugin.Clock.{Clock}
use billtracker_plugin.Crypto.{Aead, decrypt}
use billtracker_plugin.Connectors.{Registry, Connector, BillSnapshot, Credentials}
use billtracker_plugin.Connectors
use billtracker_plugin.Schedule.{next_due_dates}
use billtracker_plugin.Models.Rows.{Tables, VendorConnection}
use billtracker_plugin.Models.Database.Quiet.{quiet}
use billtracker_plugin.Models.Instances.{new_instance}
use billtracker_plugin.Models.Instances.Ensure.{has_instance}
use billtracker_plugin.Models.SimpleFin.{connect}
use billtracker_plugin.Models.SimpleFin.Atomic.{Connects, connect_atomic}
use billtracker_plugin.Models.Consistent.{has_bill}
use billtracker_plugin.Scheduler.{
  generate_instances_for, generate_instances, refresh_vendor_now, refresh_simplefin_now,
}
use billtracker_plugin.Scheduler.Instances.{
  Extends, generate_instances_adds, generate_instances_for_makes, generate_instances_for_again,
}
use billtracker_plugin.Scheduler.Outcome.{
  failed_refresh_keeps_bills, answered_refresh_stores, billed,
}
use billtracker_plugin.Scheduler.Vendor.{vendor_answer}
use billtracker_plugin.Scheduler.Choices.{ChoicesStand, refresh_simplefin_now_keeps_choices}
use billtracker_plugin.System.{migrated}
use billtracker_plugin.Tests.Dates.{rent}

-- A cipher that leaves the text as it is.
abbrev pub plain : Aead
plain = record {
  nonce_size = 1;
  seal = λ nonce plaintext. plaintext;
  unseal = λ nonce ciphertext. some ciphertext;
  unseal-seal = λ nonce plaintext size. refl;
}

abbrev pub noon : Clock
noon = record { now = 1000000; today = date 2026 1 15; utc_midnight = date 2026 1 14 }

abbrev pub empty : Tables
empty = migrated (λ a b. true)

-- The rent, with the instance of January.
abbrev pub rented : Tables
rented = record empty {
  bill_definitions = rent ∷ [];
  next_definition = 2;
  bill_instances = new_instance 1 1 (date 2026 1 31) ∷ [];
  next_instance = 2;
}

rent_there : has_bill 1 rented ≡ true
rent_there = refl

generate_instances_for_makes_example :
    ((generate_instances_for noon rent (pos 90) (quiet rented)).0 ≡ ok tt)
    × All
        (λ due.
          has_instance 1 due (generate_instances_for noon rent (pos 90) (quiet rented)).1.tables
          ≡ true)
        (next_due_dates rent (date 2026 1 15) (add_days (date 2026 1 15) (pos 90)))
generate_instances_for_makes_example =
    generate_instances_for_makes noon rent (pos 90) rented rent_there

generate_instances_for_again_example :
    (generate_instances_for noon rent
      (pos 90)
      (generate_instances_for noon rent (pos 90) (quiet rented)).1).1.tables.bill_instances
    ≡ (generate_instances_for noon rent (pos 90) (quiet rented)).1.tables.bill_instances
generate_instances_for_again_example =
    generate_instances_for_again noon rent (pos 90) rented rent_there

generate_instances_adds_example :
    Extends rented.bill_instances (generate_instances noon (pos 90) (quiet rented)).1.tables
generate_instances_adds_example = generate_instances_adds noon (pos 90) (quiet rented)

connect_atomic_example :
    Connects 1000000
      (codes "x")
      rented
      (connect 1000000 (codes "x") (record { tables = rented; outages = false ∷ true ∷ [] }))
connect_atomic_example = connect_atomic 1000000 (codes "x") rented (false ∷ true ∷ [])

abbrev power : VendorConnection
power = record {
  id = 1;
  bill_definition_id = 1;
  connector = codes "power";
  tenant = [];
  username = codes "u";
  encrypted_password = 7 ∷ 1 ∷ [];
  last_account_number = none;
  last_synced_at = none;
  last_sync_error = none;
  bootstrap_managed = true;
}

abbrev snapshot : BillSnapshot
snapshot = record { amount_cents = pos 4250; due_date = date 2026 2 10; account_number = codes "9" }

abbrev answering : Registry
answering = record { slug = codes "power"; fetch_bill = λ c. ok snapshot } ∷ []

abbrev silent : Registry
silent = record { slug = codes "power"; fetch_bill = λ c. err request_failed } ∷ []

silent_answer : vendor_answer plain silent noon power ≡ err request_failed
unfolding Connectors.get decrypt same
silent_answer = refl

given : vendor_answer plain answering noon power ≡ ok snapshot
unfolding Connectors.get decrypt same
given = refl

failed_refresh_keeps_bills_example :
    ((refresh_vendor_now plain silent noon power (quiet rented)).1.tables.bill_definitions
      ≡ rented.bill_definitions)
    × ((refresh_vendor_now plain silent noon power (quiet rented)).1.tables.bill_instances
        ≡ rented.bill_instances)
failed_refresh_keeps_bills_example =
    failed_refresh_keeps_bills plain silent noon power request_failed (quiet rented) silent_answer

abbrev powered : Tables
powered = record rented { vendor_connections = power ∷ [] }

answered_refresh_stores_example :
    refresh_vendor_now plain answering noon power (quiet powered)
    ≡ (ok tt, quiet (billed 1000000 power snapshot powered))
answered_refresh_stores_example =
    answered_refresh_stores plain answering noon power snapshot powered given refl

refresh_simplefin_now_keeps_choices_example :
    ChoicesStand []
      (refresh_simplefin_now plain (λ url. err request_failed) noon (quiet rented)).1.tables
refresh_simplefin_now_keeps_choices_example =
    refresh_simplefin_now_keeps_choices plain (λ url. err request_failed) noon (quiet rented)
