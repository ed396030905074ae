-- ===== src/Clock.antt =====
-- What a function reads of the time: `time.Now()`, with its day in the local time zone, which
-- Go's time package knows. A function that reads the clock more than once is taken to be quick.
use billtracker_plugin.Base.{ℕ, ◌+◌, ◌-◌, ◌*◌}
use billtracker_plugin.Base.Int.{ℤ, pos, negsuc, wrap_int64}
use billtracker_plugin.Calendar.{Date}
use billtracker_plugin.Models.Rows.{Instant}

pub record Clock : Type 0 where
  pub now : Instant
  pub today : Date
  -- `time.Now().Truncate(24 * time.Hour)`: the local day at the last midnight of UTC
  pub utc_midnight : Date

-- The product of a positive constant and an integer.
abbrev pub scale : ℕ → ℤ → ℤ
scale n (pos k) = pos (n * k)
scale n (negsuc k) = negsuc (n * (k + 1) - 1)

-- `time.Duration(minutes) * time.Minute`, in nanoseconds.
unfoldable pub minutes : ℤ → ℤ
minutes n = wrap_int64 (scale 60000000000 n)
