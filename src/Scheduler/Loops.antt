-- ===== src/Scheduler/Loops.antt =====
-- internal/scheduler/scheduler.go: three of the loops that `Run` starts, each of which calls
-- its job at once and then at every tick. What comes to a loop is a list: a tick, at its time, or
-- the end of the context.
use billtracker_plugin.Base.{List, [], ◌∷◌, Bytes, if◌then◌else◌}
use billtracker_plugin.Base.Int.{ℤ, pos, ltb_ℤ}
use billtracker_plugin.Errors.{Result}
use billtracker_plugin.Clock.{Clock, minutes}
use billtracker_plugin.Config.{Config}
use billtracker_plugin.Connectors.{Registry}
use billtracker_plugin.Crypto.{Aead}
use billtracker_plugin.Models.Accounts.{Synced}
use billtracker_plugin.Models.Database.{Exec, pure, attempt}
use billtracker_plugin.Scheduler.{
  generate_instances, refresh_simplefin_now, refresh_vendor_connections,
}

pub data Signal : Type 0 where
  tick : Clock → Signal
  context_done : Signal

-- How a loop is left: it still waits, it has returned, or `time.NewTicker` has panicked.
pub data Loop : Type 0 where
  waiting returned panicked : Loop

abbrev then_do : Exec (Unit {0}) → Exec Loop → Exec Loop
then_do job rest = attempt job (λ _. rest) (λ _. rest)

-- The `for` with its `select`.
unfoldable pub on_signals : (Clock → Exec (Unit {0})) → List Signal → Exec Loop
on_signals job [] = pure waiting
on_signals job (context_done ∷ later) = pure returned
on_signals job (tick clock ∷ later) = then_do (job clock) (on_signals job later)

-- The first call, the ticker, which takes no interval of zero or below, and the loop.
unfoldable pub run_loop : (Clock → Exec (Unit {0})) → ℤ → Clock → List Signal → Exec Loop
run_loop job interval clock signals =
    then_do (job clock) (if ltb_ℤ (pos 0) interval then on_signals job signals else pure panicked)

-- `runInstanceGeneration`, every 6 hours.
unfoldable pub run_instance_generation : Config → Clock → List Signal → Exec Loop
run_instance_generation cfg =
    run_loop (λ clock. generate_instances clock cfg.bill_instance_lookahead_days)
      (minutes (pos 360))

-- `runSimpleFinRefresh`.
unfoldable pub run_simplefin_refresh :
    Aead → (Bytes → Result (List Synced)) → Config → Clock → List Signal → Exec Loop
run_simplefin_refresh gcm fetch_accounts cfg =
    run_loop (refresh_simplefin_now gcm fetch_accounts)
      (minutes cfg.simplefin_refresh_interval_minutes)

-- `runVendorRefresh`.
unfoldable pub run_vendor_refresh : Aead → Registry → Config → Clock → List Signal → Exec Loop
run_vendor_refresh gcm registry cfg =
    run_loop
      (λ clock. refresh_vendor_connections gcm registry clock cfg.vendor_refresh_interval_minutes)
      (minutes cfg.vendor_refresh_interval_minutes)
