-- ===== src/Checker.antt =====
-- The worker that checks proxies: internal/jobs/checker/thread_handler.go, with
-- checkForValidResponseWithHeaders of request_handler.go there. Strings are numbers, since the code
-- compares and stores them; the comparison with "default", the concatenation, the search for a
-- header in a body and the match of a regular expression are parameters. The loop over the checks
-- takes the validation of a response as a parameter, for which Checker/Evidence puts in the code's.
-- A map is an association list; the order in which Go ranges over the assignments is the order of
-- their list.
use magpie_backend.Prelude.{
  ℕ, zero, suc, ◌+◌, ◌-◌, ◌*◌, ◌/◌, ◌%◌, ◌^◌, ◌==◌, ltb, leb, if◌then◌else◌, Bool, true, false,
  ◌&&◌, ◌||◌, Option, none, some, List, [], ◌∷◌, ◌++◌, find, assign, ℕ_discrete,
}
use magpie_backend.Failures.{FailureEvent}
pub mod Threads
pub mod Retries
pub mod Caching
pub mod Evidence
pub mod Workspaces
mod Examples

pub record CheckerConfig : Type 0 where
  pub threads : ℕ
  pub max_threads : ℕ
  pub retries : ℕ
  pub timeout : ℕ

-- L172-179 of `getAutoThreads`.
unfoldable pub max_threads_of : CheckerConfig → ℕ
max_threads_of cfg =
    if cfg.max_threads == 0
    then (if ltb 0 cfg.threads then cfg.threads else 250)
    else cfg.max_threads

-- The instances that share the proxies; `none` is an error of the queue.
abbrev pub instances_of : Option ℕ → ℕ
instances_of none = 1
instances_of (some n) = if n == 0 then 1 else n

unfoldable pub per_instance_proxies : ℕ → Option ℕ → ℕ
per_instance_proxies total instances = (total + instances_of instances - 1) / instances_of instances

-- `numerator`, as a uint64; `retries+1` is a uint32.
unfoldable pub check_work : ℕ → CheckerConfig → ℕ
check_work proxies cfg = (proxies * 4 * ((cfg.retries + 1) % (2 ^ 32)) * cfg.timeout) % (2 ^ 64)

abbrev pub period_of : ℕ → ℕ
period_of ms = if ms == 0 then 86400000 else ms

unfoldable pub required_threads : ℕ → ℕ → ℕ
required_threads work period = ((work + period - 1) % (2 ^ 64)) / period

-- L168-184.
unfoldable pub limit_threads : ℕ → ℕ → ℕ → ℕ
limit_threads proxies limit required =
    let required' = if required == 0 && ltb 0 proxies then 1 else required in
    let capped = if ltb limit required' then limit else required' in
    if ltb 4294967295 capped then 4294967295 else capped

unfoldable pub get_auto_threads : Option ℕ → Option ℕ → ℕ → CheckerConfig → ℕ
unfolding per_instance_proxies check_work required_threads limit_threads max_threads_of
get_auto_threads none instances period_ms cfg = 1
get_auto_threads (some total) instances period_ms cfg =
    let proxies = per_instance_proxies total instances in
    limit_threads proxies (max_threads_of cfg)
      (required_threads (check_work proxies cfg) (period_of period_ms))

-- One round of the loop of `CheckProxyWithRetries`: the lease is lost, or a response with an error or not.
pub data Attempt : Type 0 where
  lease_lost : Attempt
  failed : ℕ → Attempt
  succeeded : ℕ → Attempt

pub data CheckError : Type 0 where
  no_error proxy_lease_lost request_failed : CheckError

abbrev pub has_no_error : CheckError → Bool
has_no_error no_error = true
has_no_error _ = false

abbrev pub is_lease_lost : CheckError → Bool
is_lease_lost proxy_lease_lost = true
is_lease_lost _ = false

pub record CheckResult : Type 0 where
  pub html : ℕ
  pub error : CheckError
  pub attempt : ℕ

-- The loop from round `i` with `left` rounds after it; `html` is the body so far.
unfoldable pub check_from : (ℕ → Attempt) → ℕ → ℕ → ℕ → CheckResult
check_from attempts i zero html = elim (attempts i) [
  | lease_lost ↦ record { html = html; error = proxy_lease_lost; attempt = i }
  | succeeded body ↦ record { html = body; error = no_error; attempt = i }
  | failed body ↦ record { html = body; error = request_failed; attempt = i }
]
check_from attempts i (suc left) html = elim (attempts i) [
  | lease_lost ↦ record { html = html; error = proxy_lease_lost; attempt = i }
  | succeeded body ↦ record { html = body; error = no_error; attempt = i }
  | failed body ↦ check_from attempts (suc i) left body
]

-- `CheckProxyWithRetries`: the empty body is `0`.
unfoldable pub check_proxy_with_retries : (ℕ → Attempt) → ℕ → CheckResult
unfolding check_from
check_proxy_with_retries attempts retries = check_from attempts 0 retries 0

pub record WorkspaceCheck : Type 0 where
  pub workspace_id : ℕ
  pub regex : ℕ
  pub config_key : ℕ
  pub headers : Option (List ℕ)

pub record RequestAssignment : Type 0 where
  pub judge : ℕ
  pub protocol_id : ℕ
  pub timeout : ℕ
  pub retries : ℕ
  pub budget_set : Bool
  pub checks : List WorkspaceCheck

pub record WorkspaceCheckEvidence : Type 0 where
  pub workspace_id : ℕ
  pub config_key : ℕ
  pub alive : Bool

pub record ProxyStatistic : Type 0 where
  pub check_timeout : ℕ
  pub check_retries : ℕ
  pub check_evidence : List WorkspaceCheckEvidence
  pub alive : Bool
  pub attempt : ℕ
  pub protocol_id : ℕ
  pub judge : ℕ
  pub workspace_ids : List ℕ

abbrev pub contains : ℕ → List ℕ → Bool
contains n [] = false
contains n (m ∷ ms) = m == n || contains n ms

-- `collectCheckWorkspaceIDs`; `seen` is the map.
unfoldable pub collect_check_workspace_ids : List ℕ → List WorkspaceCheck → List ℕ
collect_check_workspace_ids seen [] = []
collect_check_workspace_ids seen (c ∷ cs) =
    let skipped = collect_check_workspace_ids seen cs in
    let kept = collect_check_workspace_ids (c.workspace_id ∷ seen) cs in
    if c.workspace_id == 0 || contains c.workspace_id seen then skipped else c.workspace_id ∷ kept

unfoldable pub determine_judge_scheme : ℕ → ℕ → ℕ → ℕ → Bool → ℕ
determine_judge_scheme http https protocol protocol_id use_https =
    if leb protocol_id 2 then protocol else if use_https then https else http

-- A workspace as the checker reads it.
pub record Workspace : Type 0 where
  pub id : ℕ
  pub auto_remove : Bool
  pub failure_threshold : ℕ
  pub deletes : Bool

abbrev pub flag : Option Bool → Bool
flag none = false
flag (some b) = b

-- The events of `handleFailureTracking`.
unfoldable pub failure_events :
    List Workspace → List (ℕ × Bool) → List (ℕ × Bool) → List FailureEvent
unfolding find
failure_events [] success has_checks = []
failure_events (w ∷ ws) success has_checks =
    let rest = failure_events ws success has_checks in
    if flag (find ℕ_discrete w.id has_checks)
    then record {
      workspace_id = w.id;
      success = flag (find ℕ_discrete w.id success);
      auto_remove = w.auto_remove;
      failure_threshold = w.failure_threshold;
      deletes = w.deletes;
      has_eligible_checks = true;
    }
      ∷ rest
    else rest

unfoldable pub filter_removed_workspaces : List ℕ → List Workspace → List Workspace
filter_removed_workspaces removed [] = []
filter_removed_workspaces removed (w ∷ ws) =
    let rest = filter_removed_workspaces removed ws in
    if contains w.id removed then rest else w ∷ rest

-- `checkForValidResponseWithHeaders`: `has_header` is the search for a header in the body, with `-` for `_`
-- and in capitals, and `matches` the match of the compiled regular expression, false where it does
-- not compile. `none` is nil, for which the configured headers stand in.
module _ (has_header : ℕ → ℕ → Bool) (matches : ℕ → ℕ → Bool) (standard_header : List ℕ) where
  unfoldable pub has_headers : ℕ → List ℕ → Bool
  has_headers html [] = true
  has_headers html (h ∷ hs) = has_header html h && has_headers html hs

  unfoldable pub check_for_valid_response_with_headers : (ℕ → Bool) → ℕ → ℕ → Option (List ℕ) → Bool
  unfolding has_headers
  check_for_valid_response_with_headers is_default html regex headers =
      if is_default regex
      then has_headers html (elim headers [ none ↦ standard_header | some hs ↦ hs ])
      else matches regex html

-- What the loop over the checks of one request has so far.
pub record Verdicts : Type 0 where
  pub valid_by_regex : List (ℕ × Bool)
  pub evidence : List WorkspaceCheckEvidence
  pub alive : Bool
  pub success : List (ℕ × Bool)

module _ (is_default : ℕ → Bool) (concat : ℕ → ℕ → ℕ) (valid : ℕ → ℕ → Option (List ℕ) → Bool) where
  -- L528-531: the key under which a verdict is kept.
  unfoldable pub validation_key : WorkspaceCheck → ℕ
  validation_key c = if is_default c.regex then concat c.regex c.config_key else c.regex

  -- L534: `checkForValidResponseWithHeaders` on a response without an error.
  unfoldable pub valid_response : CheckResult → WorkspaceCheck → Bool
  valid_response result c = has_no_error result.error && valid result.html c.regex c.headers

  -- The body of the loop at L527, behind the verdict.
  unfoldable pub record_verdict : WorkspaceCheck → Bool → Verdicts → Verdicts
  unfolding assign
  record_verdict c ok v = record v {
    evidence =
        if c.config_key == 0
        then v.evidence
        else v.evidence
          ++ (record { workspace_id = c.workspace_id; config_key = c.config_key; alive = ok } ∷ []);
    alive = if ok then true else v.alive;
    success = if ok then assign ℕ_discrete c.workspace_id true v.success else v.success;
  }

  unfoldable pub run_checks : CheckResult → List WorkspaceCheck → Verdicts → Verdicts
  unfolding find assign validation_key valid_response record_verdict
  run_checks result [] v = v
  run_checks result (c ∷ cs) v = elim (find ℕ_discrete (validation_key c) v.valid_by_regex) [
    | some ok ↦ run_checks result cs (record_verdict c ok v)
    | none ↦
        let ok = valid_response result c in
        run_checks result cs (
          record_verdict c ok (record v {
            valid_by_regex = assign ℕ_discrete (validation_key c) ok v.valid_by_regex;
          }))
  ]

  -- The statistic of one request, and the success map after it.
  unfoldable pub process_assignment :
      RequestAssignment → ℕ → ℕ → CheckResult → List (ℕ × Bool) → ProxyStatistic × List (ℕ × Bool)
  unfolding run_checks collect_check_workspace_ids
  process_assignment item max_timeout max_retries result success =
      let v =
        run_checks result item.checks
          (record { valid_by_regex = []; evidence = []; alive = false; success = success }) in
      (
        record {
          check_timeout = if item.budget_set then item.timeout else max_timeout;
          check_retries = if item.budget_set then item.retries else max_retries;
          check_evidence = v.evidence;
          alive = v.alive;
          attempt = result.attempt;
          protocol_id = item.protocol_id;
          judge = item.judge;
          workspace_ids = collect_check_workspace_ids [] item.checks;
        },
        v.success,
      )

  -- `processJudgeAssignments`: `answers` is what each round of a request meets, and `done` whether the
  -- context has ended by then. The Boolean says that the cycle was abandoned.
  unfoldable pub process_judge_assignments :
      (RequestAssignment → ℕ → Attempt)
      → (RequestAssignment → Bool)
      → ℕ
      → ℕ
      → List RequestAssignment
      → List (ℕ × Bool)
      → List ProxyStatistic × List (ℕ × Bool) × Bool
  unfolding process_assignment check_proxy_with_retries
  process_judge_assignments answers done max_timeout max_retries [] success = ([], success, false)
  process_judge_assignments answers done max_timeout max_retries (item ∷ items) success =
      let retries = if item.budget_set then item.retries else max_retries in
      let result = check_proxy_with_retries (answers item) retries in
      let (statistic, success') = process_assignment item max_timeout max_retries result success in
      let (statistics, final, abandoned) =
        process_judge_assignments answers done max_timeout max_retries items success' in
      if is_lease_lost result.error || done item
      then ([], success, true)
      else (statistic ∷ statistics, final, abandoned)
