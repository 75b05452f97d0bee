-- ===== src/Checker/Threads.antt =====
-- How many threads the checker starts: internal/jobs/checker/thread_handler.go.
use magpie_backend.Prelude.{ℕ, ◌+◌, ◌-◌, ◌*◌, ◌%◌, ◌≤◌, ◌<◌, ◌≡◌, Option, none, some, subst, arith}
use native.Mathlib.Nat.{mod-lt, mod-eq_of_lt, div-add-mod', le_trans, mul-le-mul_right}
use magpie_backend.Checker.{
  CheckerConfig, instances_of, max_threads_of, per_instance_proxies, check_work, period_of,
  required_threads, limit_threads, get_auto_threads,
}

limit_threads-le : (proxies limit required : ℕ) → limit_threads proxies limit required ≤ limit
unfolding limit_threads
limit_threads-le proxies limit required = ground arith

max_threads_of-pos : (cfg : CheckerConfig) → 0 < max_threads_of cfg
unfolding max_threads_of
max_threads_of-pos cfg = ground arith

-- `getAutoThreads` never gives more threads than the configuration allows, also where the queue's count fails.
pub get_auto_threads-le :
    (total instances : Option ℕ) (period : ℕ) (cfg : CheckerConfig)
    → get_auto_threads total instances period cfg ≤ max_threads_of cfg
unfolding get_auto_threads
get_auto_threads-le none instances period cfg = max_threads_of-pos cfg
get_auto_threads-le (some total) instances period cfg =
    limit_threads-le (per_instance_proxies total instances) (max_threads_of cfg)
      (required_threads (check_work (per_instance_proxies total instances) cfg) (period_of period))

limit_threads-ge :
    (proxies limit required : ℕ)
    → limit_threads proxies limit required < limit
    → limit_threads proxies limit required < 4294967295
    → required ≤ limit_threads proxies limit required
unfolding limit_threads
limit_threads-ge proxies limit required h k = ground arith

instances_of-pos : (instances : Option ℕ) → 0 < instances_of instances
instances_of-pos none = omega arith
instances_of-pos (some n) = ground arith

period_of-pos : (ms : ℕ) → 0 < period_of ms
period_of-pos ms = ground arith

required_threads-covers :
    (work period : ℕ)
    → 0 < period
    → work + period < 18446744073709551616
    → work ≤ required_threads work period * period
unfolding required_threads
required_threads-covers work period h fits =
    let unwrapped : (work + period - 1) % 18446744073709551616 ≡ work + period - 1 =
      mod-eq_of_lt (omega arith) in
    let whole = div-add-mod' (work + period - 1) period in
    let part = mod-lt (work + period - 1) h in rw unwrapped (omega arith)

per_instance_proxies-covers :
    (total : ℕ) (instances : Option ℕ)
    → total ≤ per_instance_proxies total instances * instances_of instances
unfolding per_instance_proxies
per_instance_proxies-covers total instances =
    let n = instances_of instances in
    let positive : 0 < instances_of instances = instances_of-pos instances in
    let whole = div-add-mod' (total + n - 1) n in
    let part = mod-lt (total + n - 1) positive in omega arith

check_work-exact :
    (proxies : ℕ) (cfg : CheckerConfig)
    → cfg.retries < 4294967295
    → proxies * 4 * (cfg.retries + 1) * cfg.timeout < 18446744073709551616
    → check_work proxies cfg ≡ proxies * 4 * (cfg.retries + 1) * cfg.timeout
unfolding check_work
check_work-exact proxies cfg few fits =
    let rounds : (cfg.retries + 1) % 4294967296 ≡ cfg.retries + 1 = mod-eq_of_lt (omega arith) in
    rw rounds (mod-eq_of_lt fits)

-- The threads are enough: the instances together have at least all proxies, and if the threads of one are fewer than the
-- configuration and a uint32 allow, retries + 1 fits a uint32 and the work with the period a uint64,
-- then in one period these threads do four requests for each of its proxies, each with its retries
-- and its full timeout.
pub get_auto_threads-enough :
    (total : ℕ) (instances : Option ℕ) (period : ℕ) (cfg : CheckerConfig)
    → let proxies = per_instance_proxies total instances in
      let work = proxies * 4 * (cfg.retries + 1) * cfg.timeout in
      let threads = get_auto_threads (some total) instances period cfg in
      cfg.retries < 4294967295
      → work + period_of period < 18446744073709551616
      → threads < max_threads_of cfg
      → threads < 4294967295
      → (total ≤ proxies * instances_of instances) × (work ≤ threads * period_of period)
unfolding get_auto_threads
get_auto_threads-enough total instances period cfg rounds fits few small =
    let proxies = per_instance_proxies total instances in
    let exact = check_work-exact proxies cfg rounds (omega arith) in
    let required = required_threads (check_work proxies cfg) (period_of period) in
    let covered =
      required_threads-covers (check_work proxies cfg) (period_of period) (period_of-pos period)
        (rw exact fits) in
    let enough = le_trans covered (
      mul-le-mul_right (period_of period)
        (limit_threads-ge proxies (max_threads_of cfg) required few small)) in
    (
      per_instance_proxies-covers total instances,
      subst (λ w. w ≤ get_auto_threads (some total) instances period cfg * period_of period) exact
          enough,
    )
