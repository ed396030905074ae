-- ===== src/Scheduler/Versions.antt =====
-- internal/scheduler/scheduler.go: `runVersionCheck`, which checks at once and then at every tick, and
-- what the cache of internal/release/cache.go holds meanwhile.
use billtracker_plugin.Base.{true, ◌≡◌, refl, Option, some, List, [], ◌∷◌, if◌then◌else◌}
use billtracker_plugin.Base.Int.{ℤ, pos, ltb_ℤ}
use billtracker_plugin.Errors.{Result, ok, err}
use billtracker_plugin.Release.{Info, check_version}
use billtracker_plugin.Scheduler.Loops.{Loop, waiting, returned, panicked}

-- What comes to the loop: a tick, with what the check then gives, or the end of the context.
pub data CheckSignal : Type 0 where
  check_tick : Result Info → CheckSignal
  check_done : CheckSignal

unfoldable pub on_check_signals : List CheckSignal → Option Info → Loop × Option Info
on_check_signals [] cached = (waiting, cached)
on_check_signals (check_done ∷ later) cached = (returned, cached)
on_check_signals (check_tick answer ∷ later) cached =
    on_check_signals later (check_version cached answer)

-- `runVersionCheck`, with the first check's answer.
unfoldable pub run_version_check :
    ℤ → Result Info → List CheckSignal → Option Info → Loop × Option Info
run_version_check interval first_answer signals cached =
    let checked = check_version cached first_answer in
    if ltb_ℤ (pos 0) interval then on_check_signals signals checked else (panicked, checked)

-- The answers that the loop gets to see: those in front of the end of the context.
abbrev answers_seen : List CheckSignal → List (Result Info)
answers_seen [] = []
answers_seen (check_done ∷ later) = []
answers_seen (check_tick answer ∷ later) = answer ∷ answers_seen later

-- The last of some answers that is no error, if there is one.
abbrev last_good : Option Info → List (Result Info) → Option Info
last_good info [] = info
last_good info (err e ∷ answers) = last_good info answers
last_good info (ok found ∷ answers) = last_good (some found) answers

on_check_signals_lem :
    (signals : List CheckSignal) (cached : Option Info)
    → (on_check_signals signals cached).1 ≡ last_good cached (answers_seen signals)
unfolding on_check_signals check_version
on_check_signals_lem [] cached = refl
on_check_signals_lem (check_done ∷ later) cached = refl
on_check_signals_lem (check_tick (err e) ∷ later) cached = on_check_signals_lem later cached
on_check_signals_lem (check_tick (ok found) ∷ later) cached =
    on_check_signals_lem later (some found)

-- With an interval above zero, the cache holds what the last check that succeeded found, the first
-- check included, and what it held before if none did: a failing check loses nothing.
pub run_version_check_holds :
    (interval : ℤ) (first_answer : Result Info) (signals : List CheckSignal) (cached : Option Info)
    → ltb_ℤ (pos 0) interval ≡ true
    → (run_version_check interval first_answer signals cached).1
      ≡ last_good cached (first_answer ∷ answers_seen signals)
unfolding run_version_check check_version
run_version_check_holds interval (err e) signals cached h =
    rw h (on_check_signals_lem signals cached)
run_version_check_holds interval (ok found) signals cached h =
    rw h (on_check_signals_lem signals (some found))
