-- ===== src/System.antt =====
-- The whole plugin over time: its requests and jobs as values, run one after another. What runs at
-- the same time in the plugin meets in the database, where each statement is one step; two runs
-- that interleave between statements are not modelled.
use billtracker_plugin.Base.{Bool, Option, List, [], ◌∷◌, Bytes, arith}
use billtracker_plugin.Base.Int.{ℤ}
use billtracker_plugin.Errors.{Result}
use billtracker_plugin.Clock.{Clock}
use billtracker_plugin.Crypto.{Aead}
use billtracker_plugin.Connectors.{Registry}
use billtracker_plugin.Models.Rows.{Tables}
use billtracker_plugin.Models.Database.{Exec, ignoring}
use billtracker_plugin.Models.Database.Keeps.{Keeps, Keeps-ignoring, Keeps-pure}
use billtracker_plugin.Models.Accounts.{Synced}
use billtracker_plugin.Models.Consistent.{IsConsistent}
use billtracker_plugin.Scheduler.{
  done, generate_instances, refresh_simplefin_now, refresh_vendor_connections,
}
use billtracker_plugin.Scheduler.Instances.{generate_instances-IsConsistent}
use billtracker_plugin.Scheduler.Vendor.{refresh_vendor_connections-IsConsistent}
use billtracker_plugin.Scheduler.Choices.{refresh_simplefin_now-IsConsistent}
use billtracker_plugin.Config.{Config}
use billtracker_plugin.Server.{App, Visit, serve, start_bills}
use billtracker_plugin.Server.Safe.{serve-IsConsistent, start_bills-IsConsistent}
use billtracker_plugin.Handlers.Forms.{BillBootstrap}
use billtracker_plugin.Handlers.Bootstrap.{VendorConnectionBootstrap, bootstrap_vendor_connections}
use billtracker_plugin.Handlers.Bootstrap.Reconciled.{bootstrap_vendor_connections-IsConsistent}

-- What the plugin does that may write, with what the outside gives it each time.
pub data Job : Type 0 where
  -- a request to the server
  request : App → Visit → Job
  -- at start: the text of bills.json, with its JSON parser, the files and the configuration
  started :
      (Bytes → Option (List BillBootstrap))
      → (Bytes → Option Bytes)
      → (Bytes → Option Bytes)
      → Config
      → Option Bytes
      → Job
  -- `BootstrapVendorConnections`, which the process has but does not call
  connections_listed :
      (Bytes → Option Bytes) → (Bytes → Option Bytes) → List VendorConnectionBootstrap → Job
  -- the scheduler's jobs
  instances_generated : ℤ → Job
  simplefin_refreshed : (Bytes → Result (List Synced)) → Job
  vendors_refreshed : ℤ → Job

module _ (gcm : Aead) where
  abbrev perform : Clock → Registry → Job → Exec (Unit {0})
  perform clock registry (request app v) = ignoring (serve app v) done
  perform clock registry (started parse_json read_file random cfg raw) =
      start_bills parse_json read_file gcm random registry clock cfg raw
  perform clock registry (connections_listed read_file random entries) =
      bootstrap_vendor_connections read_file gcm random entries
  perform clock registry (instances_generated days) = generate_instances clock days
  perform clock registry (simplefin_refreshed fetch_accounts) =
      refresh_simplefin_now gcm fetch_accounts clock
  perform clock registry (vendors_refreshed minutes) =
      refresh_vendor_connections gcm registry clock minutes

  -- A job at a time, with the vendors as they answer then and the statements that fail.
  pub record Run : Type 0 where
    pub clock : Clock
    pub registry : Registry
    pub outages : List Bool
    pub job : Job

  abbrev run_one : Run → Tables → Tables
  run_one r t =
      (perform r.clock r.registry r.job (record { tables = t; outages = r.outages })).1.tables

  -- The tables after the runs, in order.
  unfoldable pub run_all : List Run → Tables → Tables
  run_all [] t = t
  run_all (r ∷ rs) t = run_all rs (run_one r t)

  perform-IsConsistent :
      (clock : Clock) (registry : Registry) (job : Job)
      → Keeps IsConsistent (perform clock registry job)
  perform-IsConsistent clock registry (request app v) =
      Keeps-ignoring _ _ (serve-IsConsistent app v) (Keeps-pure tt)
  perform-IsConsistent clock registry (started parse_json read_file random cfg raw) =
      start_bills-IsConsistent parse_json read_file gcm random registry clock cfg raw
  perform-IsConsistent clock registry (connections_listed read_file random entries) =
      bootstrap_vendor_connections-IsConsistent read_file gcm random entries
  perform-IsConsistent clock registry (instances_generated days) =
      generate_instances-IsConsistent clock days
  perform-IsConsistent clock registry (simplefin_refreshed fetch_accounts) =
      refresh_simplefin_now-IsConsistent gcm fetch_accounts clock
  perform-IsConsistent clock registry (vendors_refreshed minutes) =
      refresh_vendor_connections-IsConsistent gcm registry clock minutes

  run_all-IsConsistent :
      (runs : List Run) (t : Tables) → IsConsistent t → IsConsistent (run_all runs t)
  unfolding run_all
  run_all-IsConsistent [] t h = h
  run_all-IsConsistent (r ∷ rs) t h = run_all-IsConsistent rs (run_one r t) (
      (perform-IsConsistent r.clock r.registry r.job).at
        (record { tables = t; outages = r.outages }) h)

-- The tables as the migration leaves them, under some collation.
abbrev pub migrated : (Bytes → Bytes → Bool) → Tables
migrated collate = record {
  bill_definitions = [];
  next_definition = 1;
  bill_instances = [];
  next_instance = 1;
  accounts = [];
  next_account = 1;
  simplefin_connections = [];
  next_simplefin = 1;
  vendor_connections = [];
  next_vendor = 1;
  settings = [];
  collate = collate;
}

migrated-IsConsistent : (collate : Bytes → Bytes → Bool) → IsConsistent (migrated collate)
migrated-IsConsistent collate = record {
  definition_ids = tt;
  definition_bound = tt;
  definitions_allowed = tt;
  instance_ids = tt;
  instance_bound = tt;
  instance_keys = tt;
  instance_bills = tt;
  vendor_keys = tt;
  vendor_bills = tt;
  account_keys = tt;
  one_connection = omega arith;
}

-- However the plugin's requests and jobs follow each other on a freshly migrated database, with
-- whatever input, answers, clocks and failing statements, the tables are consistent: ids and keys
-- are unique, every instance and every vendor connection belongs to a bill, every bill has the
-- columns of its schedule, and there is at most one SimpleFIN connection.
pub reached-IsConsistent :
    (gcm : Aead) (collate : Bytes → Bytes → Bool) (runs : List (Run gcm))
    → IsConsistent (run_all gcm runs (migrated collate))
reached-IsConsistent gcm collate runs =
    run_all-IsConsistent gcm runs (migrated collate) (migrated-IsConsistent collate)
