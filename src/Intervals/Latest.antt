-- ===== src/Intervals/Latest.antt =====
-- What the intervals are and what their listeners read: internal/config/time.go.
use magpie_backend.Prelude.{
  ℕ, zero, suc, ◌+◌, ◌*◌, ◌≤◌, ◌==◌, ltb, if◌then◌else◌, ◌≡◌, Option, none, some, List, [], ◌∷◌,
  All, Bool-cases, inl, inr, arith,
}
use magpie_backend.Intervals.{
  Timer, Interval, calculate_milliseconds_of_checking_period, duration, calculate_between_time,
  send_latest_interval, on_each, or_else, set_time_between, interval_updates, receive, initial,
  second,
}

-- For a timer of at most 106751 days in all, the interval between checks is its length, and a second
-- where that is shorter: the arithmetic of the code does not wrap.
pub calculate_between_time-exact :
    (timer : Timer)
    → timer.days * 86400 + timer.hours * 3600 + timer.minutes * 60 + timer.seconds ≤ 9223286400
    → calculate_between_time timer ≡ (
        if ltb (timer.days * 86400 + timer.hours * 3600 + timer.minutes * 60 + timer.seconds) 1
        then second
        else (timer.days * 86400 + timer.hours * 3600 + timer.minutes * 60 + timer.seconds)
          * second)
unfolding calculate_between_time calculate_milliseconds_of_checking_period duration
calculate_between_time-exact timer h = ground arith

-- What a listener of the intervals for checks and scrapes has not read is the current value.
abbrev pub AreLatest : ℕ → List (Option ℕ) → Type 0
AreLatest current chs = All (λ ch. (v : ℕ) → ch ≡ some v → v ≡ current) chs

on_each-AreLatest :
    (n : ℕ) (chs : List (Option ℕ)) → AreLatest n (on_each (λ ch. send_latest_interval n ch) chs)
on_each-AreLatest n [] = tt
on_each-AreLatest n (none ∷ chs) = ((λ v e. ground arith), on_each-AreLatest n chs)
on_each-AreLatest n (some x ∷ chs) = ((λ v e. ground arith), on_each-AreLatest n chs)

set_time_between-AreLatest :
    (interval : ℕ) (i : Interval)
    → AreLatest i.current i.listeners
    → AreLatest (set_time_between interval i).current (set_time_between interval i).listeners
unfolding set_time_between
set_time_between-AreLatest interval i h = elim (Bool-cases (i.current == or_else second interval)) [
  | inl t ↦ rw (t, set_time_between) h
  | inr t ↦ rw (t, set_time_between) (on_each-AreLatest (or_else second interval) i.listeners)
]

receive-AreLatest :
    (k n : ℕ) (chs : List (Option ℕ)) → AreLatest n chs → AreLatest n (receive k chs).1
unfolding receive
receive-AreLatest k n [] h = tt
receive-AreLatest zero n (ch ∷ chs) h = ((λ v e. absurd (ground arith)), h.1)
receive-AreLatest (suc k) n (ch ∷ chs) h = (h.0, receive-AreLatest k n chs h.1)

-- The setter, a new listener, and a listener that reads.
pub data Event : Type 0 where
  sets : ℕ → Event
  subscribes : Event
  receives : ℕ → Event

unfoldable pub handle : Event → Interval → Interval
unfolding set_time_between interval_updates receive
handle (sets interval) i = set_time_between interval i
handle subscribes i = interval_updates i
handle (receives k) i = record i { listeners = (receive k i.listeners).1 }

unfoldable pub run : List Event → Interval → Interval
unfolding handle
run [] i = i
run (e ∷ es) i = run es (handle e i)

run-AreLatest :
    (es : List Event) (i : Interval)
    → AreLatest i.current i.listeners
    → AreLatest (run es i).current (run es i).listeners
unfolding run handle interval_updates
run-AreLatest [] i h = h
run-AreLatest (sets n ∷ es) i h =
    run-AreLatest es (handle (sets n) i) (set_time_between-AreLatest n i h)
run-AreLatest (subscribes ∷ es) i h =
    run-AreLatest es (handle subscribes i) ((λ v e. ground arith), h)
run-AreLatest (receives k ∷ es) i h =
    run-AreLatest es (handle (receives k) i) (receive-AreLatest k i.current i.listeners h)

-- After any sequence of settings of the interval between checks (or scrapes), subscriptions and reads,
-- a value that a listener has not read yet is the current interval: none reads an outdated one.
pub run-latest :
    (es : List Event) (start : ℕ)
    → AreLatest (run es (initial start)).current (run es (initial start)).listeners
unfolding initial
run-latest es start = run-AreLatest es (initial start) tt
