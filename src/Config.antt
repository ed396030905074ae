-- ===== src/Config.antt =====
-- internal/config/config.go: the settings that the plugin reads from its environment.
pub mod Loading
use billtracker_plugin.Base.{
  Bool, true, false, ◌||◌, Option, none, some, List, [], ◌∷◌, ◌++◌, Bytes, codes, is_empty,
  if◌then◌else◌,
}
use billtracker_plugin.Base.Int.{ℤ}
use billtracker_plugin.Base.Atoi.{atoi}
use billtracker_plugin.Errors.{
  Result, ok, err, invalid_setting, database_unset, encryption_key_unset,
}
use billtracker_plugin.Clock.{minutes}

pub record Config : Type 0 where
  pub listen_addr : Bytes
  pub db_host : Bytes
  pub db_port : Bytes
  pub db_name : Bytes
  pub db_user : Bytes
  pub db_password : Bytes
  pub db_sslmode : Bytes
  pub config_dir : Bytes
  pub encryption_key : Bytes
  pub bill_instance_lookahead_days : ℤ
  pub simplefin_refresh_interval_minutes : ℤ
  pub vendor_refresh_interval_minutes : ℤ
  pub plugin_connection_secret : Bytes
  -- a `time.Duration`, in nanoseconds
  pub version_check_interval : ℤ

-- The four numbers, before the rest is known to be right.
pub record Numbers : Type 0 where
  pub lookahead_days : ℤ
  pub simplefin_minutes : ℤ
  pub vendor_minutes : ℤ
  pub version_minutes : ℤ

abbrev and_then : {A B : Type 0} → Result A → (A → Result B) → Result B
and_then (err e) f = err e
and_then (ok a) f = f a

-- `env` is `os.Getenv`, with no bytes for a variable that is not set; `read_file` is `os.ReadFile`,
-- with `none` for an error.
module _ (env : Bytes → Bytes) (read_file : Bytes → Option Bytes) where
  abbrev contents_or : Option Bytes → Bytes → Bytes
  contents_or none otherwise = otherwise
  contents_or (some contents) otherwise = contents

  abbrev pub file_variable : Bytes → Bytes
  file_variable key = key ++ codes "_FILE"

  -- `Getenv`.
  unfoldable pub getenv : Bytes → Bytes
  getenv key =
      if is_empty (env (file_variable key))
      then env key
      else contents_or (read_file (env (file_variable key))) (env key)

  -- `getEnvDefault`.
  unfoldable pub get_env_default : Bytes → Bytes → Bytes
  get_env_default key def = if is_empty (getenv key) then def else getenv key

  abbrev pub number_in : Bytes → Bytes → Option ℤ
  number_in key def = atoi (get_env_default key def)

  abbrev if_number : Bytes → Option ℤ → Result ℤ
  if_number key none = err (invalid_setting key)
  if_number key (some n) = ok n

  abbrev pub lookahead_key : Bytes
  lookahead_key = codes "BILL_INSTANCE_LOOKAHEAD_DAYS"

  abbrev pub simplefin_key : Bytes
  simplefin_key = codes "SIMPLEFIN_REFRESH_INTERVAL_MINUTES"

  abbrev pub vendor_key : Bytes
  vendor_key = codes "VENDOR_REFRESH_INTERVAL_MINUTES"

  abbrev pub version_key : Bytes
  version_key = codes "VERSION_CHECK_INTERVAL_MINUTES"

  abbrev number_or_error : Bytes → Bytes → Result ℤ
  number_or_error key def = if_number key (number_in key def)

  -- The four conversions, in their order.
  abbrev load_numbers : Result Numbers
  load_numbers = and_then (number_or_error lookahead_key (codes "60")) λ days.
      and_then (number_or_error simplefin_key (codes "60")) λ bridge.
        and_then (number_or_error vendor_key (codes "360")) λ portals.
          and_then (number_or_error version_key (codes "1440")) λ versions. ok (record {
            lookahead_days = days;
            simplefin_minutes = bridge;
            vendor_minutes = portals;
            version_minutes = versions;
          })

  abbrev pub with_numbers : Numbers → Config
  with_numbers n = record {
    listen_addr = get_env_default (codes "LISTEN_ADDR") (codes ":8090");
    db_host = getenv (codes "DB_HOST");
    db_port = get_env_default (codes "DB_PORT") (codes "5432");
    db_name = getenv (codes "DB_NAME");
    db_user = getenv (codes "DB_USER");
    db_password = getenv (codes "DB_PASSWORD");
    db_sslmode = get_env_default (codes "DB_SSLMODE") (codes "disable");
    config_dir = get_env_default (codes "CONFIG_DIR") (codes "./.config");
    encryption_key = getenv (codes "ENCRYPTION_KEY");
    bill_instance_lookahead_days = n.lookahead_days;
    simplefin_refresh_interval_minutes = n.simplefin_minutes;
    vendor_refresh_interval_minutes = n.vendor_minutes;
    plugin_connection_secret =
        get_env_default (codes "PLUGIN_CONNECTION_SECRET") (codes "hhq-plugin-connection");
    version_check_interval = minutes n.version_minutes;
  }

  abbrev pub lacks_database : Config → Bool
  lacks_database cfg = is_empty cfg.db_host || is_empty cfg.db_name || is_empty cfg.db_user

  abbrev checked : Config → Result Config
  checked cfg =
      if lacks_database cfg
      then err database_unset
      else if is_empty cfg.encryption_key
      then err encryption_key_unset
      else ok cfg

  -- `Load`.
  unfoldable pub load : Result Config
  load = and_then load_numbers λ n. checked (with_numbers n)

-- `DSN`.
unfoldable pub dsn : Config → Bytes
dsn c =
    codes "host="
    ++ c.db_host
    ++ codes " port="
    ++ c.db_port
    ++ codes " dbname="
    ++ c.db_name
    ++ codes " user="
    ++ c.db_user
    ++ codes " password="
    ++ c.db_password
    ++ codes " sslmode="
    ++ c.db_sslmode
