-- ===== src/Intervals.antt =====
-- The intervals between checks and their listeners: internal/config/time.go. A duration is a number of
-- nanoseconds; the code only asks of one that is not positive that it is not, so each of those is `0`.
-- A listener's channel holds at most one value.
use magpie_backend.Prelude.{
  ℕ, zero, suc, ◌+◌, ◌*◌, ◌%◌, ◌^◌, ◌==◌, ltb, if◌then◌else◌, ◌&&◌, Option, none, some, List, [],
  ◌∷◌,
}
pub mod Latest
mod Examples

-- Days to seconds are uint32 in the configuration.
pub record Timer : Type 0 where
  pub days : ℕ
  pub hours : ℕ
  pub minutes : ℕ
  pub seconds : ℕ

abbrev pub millisecond : ℕ
millisecond = 1000000

abbrev pub second : ℕ
second = 1000 * millisecond

abbrev pub hour : ℕ
hour = 3600 * second

unfoldable pub calculate_milliseconds_of_checking_period : Timer → ℕ
calculate_milliseconds_of_checking_period timer =
    (timer.days * 86400000 + timer.hours * 3600000 + timer.minutes * 60000 + timer.seconds * 1000)
    % (2 ^ 64)

-- `time.Duration(intervalMs) * time.Millisecond` as an int64: `0` where the product is not positive.
unfoldable pub duration : ℕ → ℕ
duration ms = let n = (ms * millisecond) % (2 ^ 64) in if ltb n (2 ^ 63) then n else 0

unfoldable pub calculate_between_time : Timer → ℕ
unfolding calculate_milliseconds_of_checking_period duration
calculate_between_time timer =
    let ms = calculate_milliseconds_of_checking_period timer in
    duration (if ltb ms 1000 then 1000 else ms)

-- The three settings that have a default for an empty timer.
unfoldable pub calculate_or_default : ℕ → Timer → ℕ
unfolding calculate_between_time
calculate_or_default default timer =
    if timer.days == 0 && timer.hours == 0 && timer.minutes == 0 && timer.seconds == 0
    then default
    else calculate_between_time timer

unfoldable pub calculate_blacklist_refresh_interval : Timer → ℕ
unfolding calculate_or_default
calculate_blacklist_refresh_interval timer = calculate_or_default (6 * hour) timer

unfoldable pub calculate_proxy_geo_refresh_interval : Timer → ℕ
unfolding calculate_or_default
calculate_proxy_geo_refresh_interval timer = calculate_or_default (24 * hour) timer

unfoldable pub calculate_geo_lite_update_interval : Timer → ℕ
unfolding calculate_or_default
calculate_geo_lite_update_interval timer = calculate_or_default (24 * hour) timer

-- An interval and the channels of its listeners.
pub record Interval : Type 0 where
  pub current : ℕ
  pub listeners : List (Option ℕ)

-- `init`.
unfoldable pub initial : ℕ → Interval
initial interval = record { current = interval; listeners = [] }

abbrev pub send_latest_interval : ℕ → Option ℕ → Option ℕ
send_latest_interval interval none = some interval
send_latest_interval interval (some unread) = some interval

-- A send with `default`.
abbrev pub send_or_drop : ℕ → Option ℕ → Option ℕ
send_or_drop interval none = some interval
send_or_drop interval (some unread) = some unread

abbrev pub on_each : (Option ℕ → Option ℕ) → List (Option ℕ) → List (Option ℕ)
on_each f [] = []
on_each f (ch ∷ chs) = f ch ∷ on_each f chs

abbrev pub or_else : ℕ → ℕ → ℕ
or_else default interval = if interval == 0 then default else interval

-- `setTimeBetweenChecks` and `setTimeBetweenScrapes`, under `listenersMu`.
unfoldable pub set_time_between : ℕ → Interval → Interval
set_time_between interval i =
    let next = or_else second interval in
    if i.current == next then i else record {
      current = next;
      listeners = on_each (λ ch. send_latest_interval next ch) i.listeners;
    }

-- The three setters whose send is dropped when a value is unread.
unfoldable pub set_interval : ℕ → ℕ → Interval → Interval
set_interval default interval i =
    let next = or_else default interval in
    if i.current == next
    then i
    else record { current = next; listeners = on_each (λ ch. send_or_drop next ch) i.listeners }

unfoldable pub set_blacklist_refresh_interval : ℕ → Interval → Interval
unfolding set_interval
set_blacklist_refresh_interval interval i = set_interval second interval i

unfoldable pub set_proxy_geo_refresh_interval : ℕ → Interval → Interval
unfolding set_interval
set_proxy_geo_refresh_interval interval i = set_interval (24 * hour) interval i

unfoldable pub set_geo_lite_update_interval : ℕ → Interval → Interval
unfolding set_interval
set_geo_lite_update_interval interval i = set_interval (24 * hour) interval i

-- `CheckIntervalUpdates`, `ScrapeIntervalUpdates` and the three others: the new channel holds the
-- current value. The others register before they send; here no setter runs between.
unfoldable pub interval_updates : Interval → Interval
interval_updates i = record i { listeners = some i.current ∷ i.listeners }

-- A listener reads: the value, if there is one, and the channel is empty.
unfoldable pub receive : ℕ → List (Option ℕ) → Option ℕ × List (Option ℕ)
receive k [] = (none, [])
receive zero (ch ∷ chs) = (ch, none ∷ chs)
receive (suc k) (ch ∷ chs) = let (v, rest) = receive k chs in (v, ch ∷ rest)

pub record Config : Type 0 where
  pub checker_timer : Timer
  pub scraper_timer : Timer
  pub blacklist_timer : Timer
  pub proxy_geo_refresh_timer : Timer
  pub geo_lite_update_timer : Timer

pub record Intervals : Type 0 where
  pub checks : Interval
  pub scrapes : Interval
  pub blacklist : Interval
  pub proxy_geo : Interval
  pub geo_lite : Interval

-- `SetBetweenTime`.
unfoldable pub set_between_time : Config → Intervals → Intervals
set_between_time cfg s = record {
  checks = set_time_between (calculate_between_time cfg.checker_timer) s.checks;
  scrapes = set_time_between (calculate_between_time cfg.scraper_timer) s.scrapes;
  blacklist =
      set_blacklist_refresh_interval (calculate_blacklist_refresh_interval cfg.blacklist_timer)
        s.blacklist;
  proxy_geo =
      set_proxy_geo_refresh_interval
        (calculate_proxy_geo_refresh_interval cfg.proxy_geo_refresh_timer) s.proxy_geo;
  geo_lite =
      set_geo_lite_update_interval (calculate_geo_lite_update_interval cfg.geo_lite_update_timer)
        s.geo_lite;
}
