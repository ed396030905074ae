-- ===== src/Logging.antt =====
-- internal/logging/logging.go: the levels and formats, which messages are written, and how. The
-- standard library's JSON printer and the text of the time are parameters.
use billtracker_plugin.Base.{
  ℕ, ◌+◌, ◌-◌, ◌≡◌, true, refl, ◌++◌, [], ◌∷◌, Bool, ◌&&◌, ◌||◌, Option, none, some, Bytes, codes,
  same, leb, map, trim_space, if◌then◌else◌,
}

pub data Level : Type 0 where
  level_debug level_info level_warn level_error : Level

pub data OutputFormat : Type 0 where
  format_text format_json : OutputFormat

-- `strings.ToLower`, of ASCII text.
abbrev to_lower : Bytes → Bytes
to_lower s = map (λ c. if leb b'A' c && leb c b'Z' then c + 32 else c) s

abbrev pub setting_text : Bytes → Bytes
setting_text v = to_lower (trim_space v)

-- `levelFromEnv`.
unfoldable pub level_from_env : Bytes → Level
level_from_env v =
    if same (setting_text v) (codes "debug")
    then level_debug
    else if same (setting_text v) (codes "warn") || same (setting_text v) (codes "warning")
    then level_warn
    else if same (setting_text v) (codes "error")
    then level_error
    else level_info

-- `formatFromEnv`.
unfoldable pub format_from_env : Bytes → OutputFormat
format_from_env v = if same (setting_text v) (codes "json") then format_json else format_text

-- `Level.String`.
unfoldable pub level_string : Level → Bytes
level_string level_debug = codes "debug"
level_string level_info = codes "info"
level_string level_warn = codes "warn"
level_string level_error = codes "error"

-- The number of a level, by which levels are compared.
abbrev pub rank : Level → ℕ
rank level_debug = 0
rank level_info = 1
rank level_warn = 2
rank level_error = 3

-- `DebugEnabled`.
unfoldable pub debug_enabled : Level → Bool
debug_enabled current = leb (rank current) (rank level_debug)

-- `current` and `format`.
pub record Logger : Type 0 where
  pub current : Level
  pub format : OutputFormat

-- `init`, over `os.Getenv`.
unfoldable pub logger_from_env : (Bytes → Bytes) → Logger
logger_from_env getenv = record {
  current = level_from_env (getenv (codes "LOG_LEVEL"));
  format = format_from_env (getenv (codes "LOG_FORMAT"));
}

pub record JsonEntry : Type 0 where
  pub time : Bytes
  pub level : Bytes
  pub msg : Bytes

-- What is written: through `log.Printf`, which puts its own prefix in front, or as it is.
pub data Output : Type 0 where
  log_line : Bytes → Output
  raw_line : Bytes → Output

-- `strings.ToUpper`, of ASCII text.
abbrev to_upper : Bytes → Bytes
to_upper s = map (λ c. if leb b'a' c && leb c b'z' then c - 32 else c) s

abbrev pub text_line : Level → Bytes → Output
text_line level msg = log_line (codes "[" ++ to_upper (level_string level) ++ codes "] " ++ msg)

abbrev json_line : Level → Bytes → Option Bytes → Output
json_line level msg none = text_line level msg
json_line level msg (some b) = raw_line (b ++ (10 ∷ []))

error_above : (l : Level) → leb (rank l) (rank level_error) ≡ true
error_above level_debug = refl
error_above level_info = refl
error_above level_warn = refl
error_above level_error = refl

module _ (marshal : JsonEntry → Option Bytes) (now : Bytes) where
  -- `write`.
  unfoldable pub write : OutputFormat → Level → Bytes → Output
  write format_text level msg = text_line level msg
  write format_json level msg =
      json_line level msg (marshal (record { time = now; level = level_string level; msg = msg }))

  abbrev when_enabled : Logger → Level → Bytes → Option Output
  when_enabled logger level msg =
      if leb (rank logger.current) (rank level) then some (write logger.format level msg) else none

  -- `Debugf`, `Infof`, `Warnf` and `Errorf`, over the message that `Sprintf` makes; `none` writes
  -- nothing.
  unfoldable pub debugf : Logger → Bytes → Option Output
  debugf logger msg = when_enabled logger level_debug msg

  unfoldable pub infof : Logger → Bytes → Option Output
  infof logger msg = when_enabled logger level_info msg

  unfoldable pub warnf : Logger → Bytes → Option Output
  warnf logger msg = when_enabled logger level_warn msg

  unfoldable pub errorf : Logger → Bytes → Option Output
  errorf logger msg = some (write logger.format level_error msg)

  -- Errors are written at every level, as they would be if their level were compared.
  errorf-when_enabled :
      (logger : Logger) (msg : Bytes) → errorf logger msg ≡ when_enabled logger level_error msg
  unfolding errorf
  errorf-when_enabled logger msg = rw (error_above logger.current) refl
