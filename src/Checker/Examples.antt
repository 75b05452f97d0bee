-- ===== src/Checker/Examples.antt =====
-- A check with retries, its verdicts and the threads: internal/jobs/checker/thread_handler.go.
use magpie_backend.Checker.Workspaces.{AreDistinct, any_of, process_assignment-workspace_ids}
use magpie_backend.Prelude.{
  ◌≢◌, ◌≡◌, ◌&&◌, ◌||◌, ◌∙◌, sym, ap, subst, All, Memᴰ, Option, find, ℕ_discrete, ℕ, zero, suc, ◌+◌,
  ◌*◌, ◌≤◌, ◌==◌, refl, Bool, true, false, some, List, [], ◌∷◌, arith,
}
use magpie_backend.Checker.{
  process_assignment, RequestAssignment, contains, Attempt, CheckError, CheckResult, WorkspaceCheck,
  CheckerConfig, has_no_error, has_headers, check_for_valid_response_with_headers, flag,
  check_proxy_with_retries, get_auto_threads, max_threads_of, check_work, per_instance_proxies,
  required_threads, limit_threads,
}
use magpie_backend.Checker.Retries.{Decided, check_proxy_with_retries-Decided}
use magpie_backend.Checker.Evidence.{
  evidence_of, any_valid, any_valid_of, process_assignment-verdicts,
}
use magpie_backend.Checker.Threads.{get_auto_threads-enough}

-- The second round succeeds.
abbrev attempts : ℕ → Attempt
attempts zero = Attempt.failed 3
attempts (suc n) = Attempt.succeeded 4

check_proxy_with_retries-Decided_example :
    Decided attempts 0 2 (check_proxy_with_retries attempts 2)
check_proxy_with_retries-Decided_example = check_proxy_with_retries-Decided attempts 2

-- Regular expression 1 is "default", and 2 matches every body. A body has the header 9 alone.
abbrev matches : ℕ → ℕ → Bool
matches regex html = regex == 2

abbrev has_header : ℕ → ℕ → Bool
has_header html header = header == 9

abbrev is_default : ℕ → Bool
is_default regex = regex == 1

abbrev concat : ℕ → ℕ → ℕ
concat regex key = 100 + key

abbrev valid : ℕ → ℕ → Option (List ℕ) → Bool
valid = check_for_valid_response_with_headers has_header matches [] is_default

-- The headers of a configuration are its key.
abbrev check : ℕ → ℕ → ℕ → WorkspaceCheck
check workspace regex key = record {
  workspace_id = workspace;
  regex = regex;
  config_key = key;
  headers = some (key ∷ []);
}

abbrev result : CheckResult
result = record { html = 4; error = CheckError.no_error; attempt = 1 }

-- Three checks of two workspaces by the headers of two configurations, and one by an expression.
abbrev request : RequestAssignment
request = record {
  judge = 8;
  protocol_id = 1;
  timeout = 7500;
  retries = 2;
  budget_set = true;
  checks = check 5 1 9 ∷ check 5 1 8 ∷ check 7 1 8 ∷ check 6 2 7 ∷ [];
}

All-Mem :
    (P : WorkspaceCheck → Type 0) (cs : List WorkspaceCheck) (c : WorkspaceCheck)
    → All P cs
    → Memᴰ c cs
    → P c
All-Mem P (x ∷ cs) c h (Memᴰ.head e) = subst P (sym e) h.0
All-Mem P [] c h m = elim m [ ]
All-Mem P (x ∷ cs) c h (Memᴰ.tail m) = All-Mem P cs c h.1 m

keyed_headers : (c : WorkspaceCheck) → Memᴰ c request.checks → c.headers ≡ some (c.config_key ∷ [])
keyed_headers c m =
    All-Mem (λ d. d.headers ≡ some (d.config_key ∷ [])) request.checks c
      (refl, (refl, (refl, (refl, tt)))) m

small_regex : (c : WorkspaceCheck) → Memᴰ c request.checks → c.regex ≤ 2
small_regex c m =
    All-Mem (λ d. d.regex ≤ 2) request.checks c
      (omega arith, (omega arith, (omega arith, (omega arith, tt)))) m

process_assignment-verdicts_example :
    let ok : WorkspaceCheck → Bool =
      λ c. has_no_error result.error && valid result.html c.regex c.headers in
    let (statistic, after) = process_assignment is_default concat valid request 9000 3 result [] in
    (statistic.check_evidence ≡ evidence_of ok request.checks)
    × (statistic.alive ≡ any_valid ok request.checks)
    × ((w : ℕ)
        → flag (find ℕ_discrete w after)
          ≡ (flag (find ℕ_discrete w []) || any_valid_of ok w request.checks))
process_assignment-verdicts_example =
    process_assignment-verdicts has_header matches [] is_default concat request 9000 3 result []
      (λ r s k l t u e. omega arith)
      (λ c d m n t u e. keyed_headers c m ∙ ap (λ k. some (k ∷ [])) e ∙ sym (keyed_headers d n))
      (λ c d m n t u e. let small = small_regex d n in omega arith)

-- The first configuration finds its header, the second does not.
judged :
    evidence_of (λ c. valid result.html c.regex c.headers) (check 5 1 9 ∷ check 7 1 8 ∷ [])
    ≡ record { workspace_id = 5; config_key = 9; alive = true }
      ∷ record { workspace_id = 7; config_key = 8; alive = false }
      ∷ []
unfolding evidence_of check_for_valid_response_with_headers has_headers
judged = refl

process_assignment-workspace_ids_example :
    let (statistic, _) = process_assignment is_default concat valid request 9000 3 result [] in
    AreDistinct [] statistic.workspace_ids
    × ((n : ℕ) → n ≢ 0 → contains n statistic.workspace_ids ≡ any_of n request.checks)
process_assignment-workspace_ids_example =
    process_assignment-workspace_ids is_default concat valid request 9000 3 result []

-- A thousand proxies on two instances.
abbrev config : CheckerConfig
config = record { threads = 0; max_threads = 0; retries = 2; timeout = 7500 }

get_auto_threads-enough_example :
    let proxies = per_instance_proxies 1000 (some 2) in
    (1000 ≤ proxies * 2)
    × (proxies * 4 * (2 + 1) * 7500
        ≤ get_auto_threads (some 1000) (some 2) 3600000 config * 3600000)
unfolding get_auto_threads max_threads_of check_work per_instance_proxies required_threads
    limit_threads
get_auto_threads-enough_example =
    get_auto_threads-enough 1000 (some 2) 3600000 config (omega arith) (omega arith) (omega arith)
      (omega arith)
