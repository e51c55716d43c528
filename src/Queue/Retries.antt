-- ===== src/Queue/Retries.antt =====
-- How failures of a job end: retries with a growing delay, then a final status.
use clarityos.Prelude.{
  ℕ, ◌+◌, ◌*◌, ◌-◌, ◌^◌, ◌<◌, ◌≤◌, String, ◌≡◌, refl, sym, subst, true, false, Bool, ◌||◌, leb, ◌⊎◌,
  inl, inr, ap, ap₂, ◌∙◌, some, List, [], ◌∷◌, arith, ltb, nat_beq, if◌then◌else◌,
}
use clarityos.Python.Errors.{Exception, overflow_error}
use clarityos.Python.Directory.{read}
use clarityos.Queue.Job.{
  latest_time, JobStatus, dead_letter, failed, seconds, job_status_for_ready_at,
}
use clarityos.Queue.History.{QueueJob}
use clarityos.Queue.Access.{Jobs, apply_changes}
use clarityos.Queue.Lifecycle.{
  retry_delay, error_of, failed_for_good, retried_at, record_job_failure,
}
use clarityos.Queue.Healthy.{IsHealthy}
use clarityos.Python.Exec.{err}
use clarityos.Queue.Loading.{loaded, loaded-attempts, loaded-backoff, Replaces, load_job-Replaces}
use clarityos.Queue.Moves.{
  Moves, is_recorded, after_failure, record_job_failure-Moves, record_job_failure-overflows,
}

abbrev pub final_status : QueueJob → JobStatus
final_status j = if ltb 1 j.max_attempts then dead_letter else failed

-- The time of the next attempt: the backoff doubles with each attempt that was made.
abbrev pub next_attempt : ℕ → QueueJob → ℕ
next_attempt now j = now + seconds (j.retry_backoff_seconds * 2 ^ j.attempt_count)

le→leb : (m n : ℕ) → m ≤ n → leb m n ≡ true
le→leb m n h = ground arith

lt→not_leb : (m n : ℕ) → m < n → leb n m ≡ false
lt→not_leb m n h = ground arith

or_true : (a b : Bool) → b ≡ true → (a || b) ≡ true
or_true true b h = refl
or_true false b h = h

zero_factor : (b p : ℕ) → (if nat_beq b 0 then 0 else b * p) ≡ b * p
zero_factor b p = ground arith

retry_delay-eq :
    (j : QueueJob)
    → retry_delay j (j.attempt_count + 1) ≡ j.retry_backoff_seconds * 2 ^ j.attempt_count
unfolding retry_delay
retry_delay-eq j =
    let e : j.attempt_count + 1 - 1 ≡ j.attempt_count = omega arith in
    rw e (zero_factor j.retry_backoff_seconds (2 ^ j.attempt_count))

-- What a failure makes of a job.
pub record IsFailureOf (now : ℕ) (exc : Exception) (j j' : QueueJob) : Type 0 where
  pub counted : j'.attempt_count ≡ j.attempt_count + 1
  pub noted : j'.error ≡ some (error_of exc)
  pub same_limit : j'.max_attempts ≡ j.max_attempts
  pub same_backoff : j'.retry_backoff_seconds ≡ j.retry_backoff_seconds
  pub at_end : j.max_attempts ≤ j.attempt_count + 1 → j'.status ≡ final_status j
  pub retried :
      j.attempt_count + 1 < j.max_attempts
      → (j'.ready_at ≡ next_attempt now j)
        × (j'.status ≡ job_status_for_ready_at now (next_attempt now j))

recorded_if :
    (now : ℕ) (j : QueueJob)
    → (j.max_attempts ≤ j.attempt_count + 1) ⊎ (next_attempt now j ≤ latest_time)
    → is_recorded now j ≡ true
recorded_if now j (inl last) = rw (le→leb _ _ last) refl
recorded_if now j (inr fits) =
    rw (retry_delay-eq j) (or_true _ _ (le→leb (next_attempt now j) latest_time fits))

not_recorded_if :
    (now : ℕ) (j : QueueJob)
    → j.attempt_count + 1 < j.max_attempts
    → latest_time < next_attempt now j
    → is_recorded now j ≡ false
not_recorded_if now j more late =
    rw (retry_delay-eq j)
      (rw (lt→not_leb _ _ more) (lt→not_leb latest_time (next_attempt now j) late))

module _ (now : ℕ) (id : String) {d : Jobs} (h : IsHealthy d) (j : QueueJob)
    (found : read id d ≡ some j) (exc : Exception) where
  retry_delay-loaded :
      retry_delay (loaded now j) ((loaded now j).attempt_count + 1)
      ≡ j.retry_backoff_seconds * 2 ^ j.attempt_count
  retry_delay-loaded =
      retry_delay-eq (loaded now j)
      ∙ ap₂ (λ b n. b * 2 ^ n) (loaded-backoff now j) (loaded-attempts now j).0

  pub after_failure-fits : IsFailureOf now exc j (after_failure now id h j found exc)
  unfolding after_failure failed_for_good retried_at apply_changes
  after_failure-fits =
      rw retry_delay-loaded (ground (arith, loaded-attempts now j, loaded-backoff now j))

-- In a healthy directory, recording a failure of a stored job. If it was the last attempt, or the time of
-- the next one is not behind the year 9999: the call returns the job that it stores in its place and
-- changes no other file. That job has the error and one attempt more. If the attempts are used up it
-- is a dead letter (where more than one attempt was allowed) or failed; if not, it is due for the
-- next attempt after the job's backoff, doubled once for each earlier attempt. If there are attempts
-- left and that time is behind the year 9999: the call raises an OverflowError, and no more is
-- written than by loading the job, so that the failure is not counted.
pub record_job_failure_outcome :
    (now : ℕ) (id : String) {d : Jobs} (h : IsHealthy d) (j : QueueJob) (exc : Exception)
    → read id d ≡ some j
    → ((j.max_attempts ≤ j.attempt_count + 1) ⊎ (next_attempt now j ≤ latest_time)
        → (j' : QueueJob) × Moves id d j' (record_job_failure now id exc)
          × IsFailureOf now exc j j')
      × (j.attempt_count + 1 < j.max_attempts
          → latest_time < next_attempt now j
          → ((m : String) × ((record_job_failure now id exc d).0 ≡ err (overflow_error m)))
            × Replaces id (loaded now j) d (record_job_failure now id exc d).1)
record_job_failure_outcome now id {d} h j exc found = (
  λ fits. (
    after_failure now id h j found exc,
    record_job_failure-Moves now id h j found exc (recorded_if now j fits),
    after_failure-fits now id h j found exc,
  ),
  λ more late.
      let stopped =
        record_job_failure-overflows now id h j found exc (not_recorded_if now j more late) in
      (
        (_, ap (λ r. r.0) stopped),
        subst (λ r. Replaces id (loaded now j) d r.1) (sym stopped)
            (load_job-Replaces now id h j found).1,
      ),
)

-- Failures at the given times, one after the other; what each call returns is dropped.
pub fail_times : String → Exception → List ℕ → Jobs → Jobs
fail_times id exc [] d = d
fail_times id exc (now ∷ later) d = fail_times id exc later (record_job_failure now id exc d).1

-- For a job with the given backoff and attempts that fails at the given times: each failure but the last
-- has its next attempt before the year 9999 is over.
abbrev pub HaveRetries : (backoff attempts now : ℕ) → List ℕ → Type 0
HaveRetries backoff attempts now [] = Unit
HaveRetries backoff attempts now (next ∷ later) =
    (now + seconds (backoff * 2 ^ attempts) ≤ latest_time)
    × HaveRetries backoff (attempts + 1) next later
