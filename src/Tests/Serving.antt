-- ===== src/Tests/Serving.antt =====
-- The server's routes, the calendar's events, the settings of the environment and of the database.
use billtracker_plugin.Base.{
  ◌≡◌, refl, [], ◌∷◌, none, some, true, false, codes, List, same, Bytes, Bool, ◌||◌, if◌then◌else◌,
}
use billtracker_plugin.Base.Int.{pos}
use billtracker_plugin.Errors.{Result, ok, err}
use billtracker_plugin.Calendar.{date, days_in_month}
use billtracker_plugin.Config.{Config, with_numbers, load, getenv, get_env_default}
use billtracker_plugin.Config.Loading.{Loads, load_outcome}
use billtracker_plugin.Models.Database.{attempt, pure, statement}
use billtracker_plugin.Models.Database.Quiet.{quiet}
use billtracker_plugin.Models.Instances.Listed.{paid_tables}
use billtracker_plugin.Models.Settings
use billtracker_plugin.Models.Settings.{lookup}
use billtracker_plugin.Models.Settings.Refines.{
  Call, get_call, set_call, run_calls, promised, Holds, settings_refine_map,
}
use billtracker_plugin.Handlers.Auth.{served, current_token}
use billtracker_plugin.Handlers.Events.{uid_of, action}
use billtracker_plugin.Handlers.Events.Taps.{LacksEvent, tapped_event_goes}
use billtracker_plugin.Handlers.Events.Refusals.{ActsOnly, action_outcome}
use billtracker_plugin.Handlers.Forms.{parse_date}
use billtracker_plugin.Server.Start.{Libraries, new_db, migrate, prepared, Starts, start_outcome}
use billtracker_plugin.Crypto.{new_encryptor}
use billtracker_plugin.Crypto.Hex
use billtracker_plugin.Base.Atoi.{atoi, digits_from}
use billtracker_plugin.Server.{Visit, App, serve}
use billtracker_plugin.Server.Guarded.{is_open, Refused, serve_refuses}
use billtracker_plugin.Models.Consistent.{IsConsistent}
use billtracker_plugin.System.{
  Run, migrated, run_all, reached-IsConsistent, request, instances_generated,
}
use billtracker_plugin.Tests.Jobs.{plain, noon, empty, rented}

january : parse_date (codes "2026-01-01") ≡ some (date 2026 1 1)
unfolding parse_date days_in_month
january = refl

march : parse_date (codes "2026-03-31") ≡ some (date 2026 3 31)
unfolding parse_date days_in_month
march = refl

tapped_event_goes_example :
    (action 1000000 (codes "mark_paid") (some (uid_of 1)) (quiet rented)
      ≡ (ok (served tt), quiet (paid_tables 1000000 1 rented)))
    × LacksEvent (uid_of 1) (codes "2026-01-01") (codes "2026-03-31") (paid_tables 1000000 1 rented)
tapped_event_goes_example =
    tapped_event_goes 1000000 1 rented (codes "2026-01-01") (codes "2026-03-31") (date 2026 1 1)
      (date 2026 3 31) refl refl january march

action_outcome_example :
    ActsOnly 1000000 (codes "mark_paid") (some (codes "bill-instance-1")) rented (
      action 1000000
        (codes "mark_paid")
        (some (codes "bill-instance-1"))
        (record { tables = rented; outages = true ∷ [] }))
action_outcome_example =
    action_outcome 1000000 rented (codes "mark_paid") (some (codes "bill-instance-1")) (true ∷ [])

abbrev cfg : Config
cfg =
    with_numbers (λ key. codes "x") (λ path. none)
      (record {
        lookahead_days = pos 60;
        simplefin_minutes = pos 60;
        vendor_minutes = pos 360;
        version_minutes = pos 1440;
      })

abbrev app : App
app = record {
  cfg = cfg;
  gcm = plain;
  version = codes "1.0.0";
  clock = noon;
  claim = λ token. ok [];
  random = some (7 ∷ []);
  raw_token = 31 ∷ [];
  releases = none;
}

abbrev settings_request : Visit
settings_request = record {
  method = codes "POST";
  path = codes "settings" ∷ [];
  authorization = codes "Bearer guess";
  connection_secret = [];
  from = [];
  to = [];
  form = none;
  uid = none;
}

no_token : current_token plain (quiet empty) ≡ (ok none, quiet empty)
unfolding current_token attempt pure statement Settings.get lookup
no_token = refl

closed : is_open (codes "POST") (codes "settings" ∷ []) ≡ false
unfolding same
closed = refl

serve_refuses_example :
    Refused (quiet empty) (quiet empty) (serve app settings_request (quiet empty))
serve_refuses_example =
    serve_refuses app settings_request (quiet empty) (quiet empty) none no_token refl closed

abbrev calls : List Call
calls =
    get_call (codes "k") (codes "d")
    ∷ set_call (codes "k") (codes "v")
    ∷ get_call (codes "k") []
    ∷ []

nothing_set : Holds (λ k. none) empty
unfolding lookup
nothing_set k = refl

settings_refine_map_example :
    run_calls calls (record { tables = empty; outages = false ∷ true ∷ [] })
    ≡ promised calls (false ∷ true ∷ []) (λ k. none)
settings_refine_map_example =
    settings_refine_map calls (false ∷ true ∷ []) (λ k. none) empty nothing_set

abbrev register_request : Visit
register_request = record settings_request {
  path = codes "register" ∷ [];
  connection_secret = codes "x";
}

-- A token is issued while the database fails once, and then instances are generated.
abbrev history : List (Run plain)
history =
    record { clock = noon; registry = []; outages = true ∷ []; job = request app register_request }
    ∷ record { clock = noon; registry = []; outages = []; job = instances_generated (pos 90) }
    ∷ []

reached-IsConsistent_example : IsConsistent (run_all plain history (migrated (λ a b. true)))
reached-IsConsistent_example = reached-IsConsistent plain (λ a b. true) history

-- An environment with a database and a key.
abbrev settled : Bytes → Bytes
settled key =
    if same key (codes "DB_HOST") || same key (codes "DB_NAME") || same key (codes "DB_USER")
    then codes "db"
    else if same key (codes "ENCRYPTION_KEY")
    then codes "000102030405060708090a0b0c0d0e0f101112131415161718191a1b1c1d1e1f"
    else []

-- The same with the user's name in a file.
abbrev with_file : Bytes → Bytes
with_file key = if same key (codes "DB_USER_FILE") then codes "/user" else settled key

load_outcome_example :
    Loads with_file (λ path. some (codes "me")) (load with_file (λ path. some (codes "me")))
load_outcome_example = load_outcome with_file (λ path. some (codes "me"))

abbrev helpful : Libraries
helpful = record {
  connects = λ dsn. true;
  ping = true;
  set_dialect = true;
  migrations_up = true;
  templates = true;
}

is_ok : {A : Type 0} → Result A → Bool
is_ok (ok a) = true
is_ok (err e) = false

starts_up : is_ok (prepared settled (λ path. none) helpful (λ key. plain)) ≡ true
unfolding prepared load new_db migrate new_encryptor same is_ok atoi digits_from get_env_default
    getenv Hex.decode
starts_up = refl

start_outcome_example :
    Starts settled
      (λ path. none)
      helpful
      (λ key. plain)
      (λ text. none)
      (λ path. none)
      []
      noon
      (λ cfg. some (codes "[]"))
      (record { tables = empty; outages = true ∷ [] })
start_outcome_example =
    start_outcome settled (λ path. none) helpful (λ key. plain) (λ text. none) (λ path. none) []
      noon (λ cfg. some (codes "[]")) (record { tables = empty; outages = true ∷ [] })
