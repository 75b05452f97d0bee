-- ===== src/Lib.antt =====
-- A model of the core of the Magpie backend, which checks proxies for the workspaces of its users,
-- blocks, alerts and limits, with proofs of what the parts promise.
--
-- The parts, the files that model them, and how state and operations correspond to the code:
-- - Settings (internal/domain/checker_settings.go, internal/api/dto/checker_settings.go): the settings of a
--   checker are validated once, on write, over all sets of tags that a proxy may carry, and resolved for
--   each proxy. ValidateCheckerSettings is validate_checker_settings, ResolveCheckerSettings is
--   resolve_checker_settings. Settings/Resolution and Settings/Rejection relate the two.
-- - RateLimit (internal/app/server/auth_rate_limit.go): the limits on logins and registrations. A
--   fixedWindowLimiter is its counters and its heap of deadlines; incrementLocal, currentLocal, reset, allow
--   and the handler of wrap are functions of it, and Redis is a reply that they are given. RateLimit/Login
--   is the loginFailureLimiter; Local, Heap, Window and Retry hold the proofs.
-- - Blacklist (internal/blacklist/manager.go): buildBlacklistRangeCache, inRange and FilterProxies, on
--   addresses as numbers. Blacklist/Ranges is about spans, Blacklist/Prefixes about the configured list.
-- - Alerts (internal/database/alert_transitions.go, internal/domain/alert_model.go): one rule through the
--   transaction of applyAlertObservations, with the rows of its incidents. Alerts/Incidents holds the link
--   of a rule and its incident, Alerts/Sustain the two minutes before an incident.
-- - Routes (internal/database/database_proxy_lifecycle.go, internal/domain/workspace_model.go): the routes of
--   the workspaces and their states. PauseManagedProxy, DeleteActiveManagedProxy and SetManagedProxyState are
--   functions of the rows; Routes/Capacity is about the limit of a subscription.
-- - Failures (internal/jobs/checker/failure_tracker.go): failed checks count up a streak, which pauses or
--   deletes the route, by the operations of Routes, at the threshold of the workspace. processBatch is
--   process_batch, with applyFailureIncrements in statements of 200 entries. Failures/Streaks, Dialects,
--   Actions and Saturation hold the proofs.
-- - Checker (internal/jobs/checker/thread_handler.go, request_handler.go there): the worker that sends
--   requests with retries, gives each workspace its verdict and hands failures to the tracker, as events
--   of the type of Failures.
--   Checker/Threads, Retries, Workspaces, Caching and Evidence hold the proofs. The search for a header in a
--   body and the match of an expression are parameters.
-- - Judges (internal/jobs/checker/judges/judges_handler.go): the judges of a workspace by scheme, which the
--   worker takes in turn. The swap of the map under the mutex is a function from map to map.
-- - Graphql (internal/app/server/graphql_guard.go): the guard that bounds the depth and the fields of a
--   query. Graphql/Walk has the relation of what a query reaches through its fragments, Graphql/Fields
--   the one of how many fields it has with them.
-- - ProxyQueue (internal/jobs/queue/proxy, internal/jobs/queue/heads.go): the queue from which the workers take
--   proxies. A Store is what Redis holds: the heads, the sorted set of each queue, the payloads. Each Lua script
--   is a function on it: pop, complete, renew, remove, add and requeue_batch in ProxyQueue/Bulk, and migrate in
--   ProxyQueue/Migration.
--   ProxyQueue/Workers and Imports are the Go methods that run them; ProxyQueue/Steps is the relation of any
--   workers' scripts in any order. SortedSets models the commands of Redis. Heads, Popping, Index, BulkIndex
--   and Migrating are about the index of heads; Fencing, MigrationLeases, Stale and Reclaims about leases;
--   Earliest, Finds, Defects and Rounds about what pop.lua answers; Shards, Leases, Completes, BulkLeases,
--   Order and Placement about the Go methods.
-- - Payloads (internal/jobs/queue/proxy/proxy_queue.go, complete.lua there, internal/security/proxy_secret.go):
--   newQueuedProxy and toDomainProxy on the fields of the JSON, and the owners that complete.lua merges.
-- - Dequeue (internal/jobs/queue/proxy/proxy_queue.go, migrate.lua there): GetNextProxyContext is poll_next_proxy
--   for one round of its loop: pop, decode, check, and migrateDequeuedProxyMember. It joins ProxyQueue and
--   Payloads; the libraries that it calls are the fields of its Environment.
-- - Expiry (internal/support/expiry_cache.go): the cache of DNS answers and robots.txt verdicts. Expiry/History is
--   about the calls before, Expiry/Sound about what Get answers after them.
-- - Intervals (internal/config/time.go): the intervals that the configuration sets, and their listeners.
-- - Prelude: names of the libraries, tests on native numbers, lists, and maps as association lists. Each
--   part has an Examples module with concrete inputs.
--
-- Bounds and fuel: the loop of enforceLocalCapacityLocked runs on one more round than there are counters,
-- and each round but the last deletes one. The walk of a query recurses on the levels that are left, as the
-- code's does by its test on the depth. The order of a queue's members is found in as many
-- rounds as it has entries (zrange-Memᴰ). All other loops are structural. uint64, uint32 and
-- int64 arithmetic that can wrap is written with its modulus. pop.lua runs eight rounds, as the script does; each
-- repairs a head or removes a member, or ends the script.
-- A score of Redis counts half milliseconds, so that the marker of a lease is exact; the times of the proxy
-- queue are below 2^53 and their products below 2^63.
--
-- Not modelled: SQL and Redis themselves, whose replies are arguments or rows of a list, but for the
-- commands on sorted sets that the queue's scripts run; HTTP, downloads and text parsing; goroutines and
-- timers, whose effects are sequences of calls; a database error inside a batch of failures; JSON decoding
-- and AES-GCM, which are parameters; other workers' scripts between the scripts of one RequeueAll, or
-- between pop.lua and migrate.lua of one poll, which are steps of their own in ProxyQueue/Steps; the queue
-- of scrape sources, the statistics and the rotating proxies.
pub mod Prelude
pub mod SortedSets
pub mod ProxyQueue
pub mod Payloads
pub mod Dequeue
pub mod Expiry
pub mod Settings
pub mod RateLimit
pub mod Blacklist
pub mod Alerts
pub mod Routes
pub mod Failures
pub mod Graphql
pub mod Judges
pub mod Intervals
pub mod Checker
