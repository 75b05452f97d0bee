-- ===== src/Checker/Retries.antt =====
-- Which round of the retries decides a check: internal/jobs/checker/thread_handler.go.
use magpie_backend.Prelude.{
  ℕ, zero, suc, ◌+◌, ◌≤◌, ◌<◌, ◌≡◌, refl, ◌⊎◌, inl, inr, subst, ℕ_discrete, arith,
}
use magpie_backend.Checker.{
  Attempt, lease_lost, failed, succeeded, no_error, proxy_lease_lost, request_failed, CheckResult,
  check_from, check_proxy_with_retries,
}

-- Round `k` is a failed request.
abbrev pub Fails : (ℕ → Attempt) → ℕ → Type 0
Fails attempts k = (body : ℕ) × (attempts k ≡ failed body)

-- What a result says of the rounds: a success or a lost lease at its round, or a failure at the last.
pub Explains : (ℕ → Attempt) → ℕ → CheckResult → Type 0
Explains attempts last r = elim r.error [
  | no_error ↦ attempts r.attempt ≡ succeeded r.html
  | proxy_lease_lost ↦ attempts r.attempt ≡ lease_lost
  | request_failed ↦ (r.attempt ≡ last) × (attempts r.attempt ≡ failed r.html)
]

Attempt-cases :
    (a : Attempt) → (a ≡ lease_lost) ⊎ (((b : ℕ) × (a ≡ failed b)) ⊎ ((b : ℕ) × (a ≡ succeeded b)))
Attempt-cases lease_lost = inl refl
Attempt-cases (failed b) = inr (inl (b, refl))
Attempt-cases (succeeded b) = inr (inr (b, refl))

-- The result is explained, its round is one of those asked for, and each round before it failed.
pub Decided : (ℕ → Attempt) → ℕ → ℕ → CheckResult → Type 0
Decided attempts first last r =
    Explains attempts last r
    × (first ≤ r.attempt)
    × (r.attempt ≤ last)
    × ((k : ℕ) → first ≤ k → k < r.attempt → Fails attempts k)

Decided-later :
    (attempts : ℕ → Attempt) (i last : ℕ) (r : CheckResult) (b : ℕ)
    → attempts i ≡ failed b
    → Decided attempts (suc i) last r
    → Decided attempts i last r
unfolding Decided
Decided-later attempts i last r b e (x, lo, hi, before) = (
  x,
  omega arith,
  hi,
  λ k h l. elim (ℕ_discrete i k) [
    | yes same ↦ (b, subst (λ n. attempts n ≡ failed b) same e)
    | no other ↦ before k (omega arith) l
  ],
)

check_from-Decided :
    (attempts : ℕ → Attempt) (i left html last : ℕ)
    → i + left ≡ last
    → Decided attempts i last (check_from attempts i left html)
unfolding check_from Explains Decided
check_from-Decided attempts i zero html last t = elim (Attempt-cases (attempts i)) [
  | inl e ↦ rw (e, check_from) (e, omega arith, omega arith, λ k h l. absurd (omega arith))
  | inr (inl (b, e)) ↦
      rw (e, check_from) ((omega arith, e), omega arith, omega arith, λ k h l. absurd (omega arith))
  | inr (inr (b, e)) ↦
      rw (e, check_from) (e, omega arith, omega arith, λ k h l. absurd (omega arith))
]
check_from-Decided attempts i (suc left) html last t = elim (Attempt-cases (attempts i)) [
  | inl e ↦ rw (e, check_from) (e, omega arith, omega arith, λ k h l. absurd (omega arith))
  | inr (inl (b, e)) ↦
      rw (e, check_from)
        (Decided-later attempts i last _ b e
          (check_from-Decided attempts (suc i) left b last (omega arith)))
  | inr (inr (b, e)) ↦
      rw (e, check_from) (e, omega arith, omega arith, λ k h l. absurd (omega arith))
]

-- `CheckProxyWithRetries` ends at a round from 0 to `retries`, and each round before it is a failed request.
-- Its result is a response if that round succeeded, a lost lease if that round lost it, and otherwise
-- the error of the last round.
pub check_proxy_with_retries-Decided :
    (attempts : ℕ → Attempt) (retries : ℕ)
    → Decided attempts 0 retries (check_proxy_with_retries attempts retries)
unfolding check_proxy_with_retries
check_proxy_with_retries-Decided attempts retries =
    check_from-Decided attempts 0 retries 0 retries (omega arith)
