-- ===== src/Intervals/Examples.antt =====
-- Listeners of an interval: internal/config/time.go.
use magpie_backend.Prelude.{◌+◌, ◌*◌, ltb, if◌then◌else◌, ◌≡◌, List, [], ◌∷◌, arith}
use magpie_backend.Intervals.{Timer, calculate_between_time, second, initial}
use magpie_backend.Intervals.Latest.{
  calculate_between_time-exact, AreLatest, Event, run, run-latest,
}

abbrev day : Timer
day = record { days = 1; hours = 0; minutes = 0; seconds = 1 }

calculate_between_time-exact_example : calculate_between_time day ≡ (
    if ltb (1 * 86400 + 0 * 3600 + 0 * 60 + 1) 1
    then second
    else (1 * 86400 + 0 * 3600 + 0 * 60 + 1) * second)
calculate_between_time-exact_example = calculate_between_time-exact day (omega arith)

-- A listener that never reads, one that does, and two settings.
abbrev events : List Event
events = Event.subscribes ∷ Event.subscribes ∷ Event.sets 7 ∷ Event.receives 0 ∷ Event.sets 9 ∷ []

run-latest_example : AreLatest (run events (initial 5)).current (run events (initial 5)).listeners
run-latest_example = run-latest events 5
