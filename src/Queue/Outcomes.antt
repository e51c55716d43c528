-- ===== src/Queue/Outcomes.antt =====
-- How canceling, rescheduling, requeueing and completing a stored job end, on every branch, in terms of
-- the fields of the job that was stored.
use clarityos.Prelude.{
  ℕ, ◌+◌, String, ◌≡◌, ◌≢◌, refl, ◌∙◌, true, false, Option, none, some, arith, inl, inr, Bool-cases,
}
use clarityos.Python.Errors.{Exception}
use clarityos.Python.Exec.{result_cases, ok, err}
use clarityos.Python.Json.{Json}
use clarityos.Python.Directory.{read}
use clarityos.Queue.Job.{
  queued, running, completed, canceled, is_terminal, status_eq, RunAt, build_ready_at,
  job_status_for_ready_at,
}
use clarityos.Queue.History.{QueueJob}
use clarityos.Queue.Access.{Jobs, apply_changes, load_job}
use clarityos.Queue.Lifecycle.{
  requeued_as, requeue_job, completed_with, complete_job, canceled_as, cancel_job, rescheduled_for,
  reschedule_loaded, reschedule_job, can_reschedule, cannot,
}
use clarityos.Queue.Healthy.{IsHealthy}
use clarityos.Queue.Loading.{loaded, after_load, loaded-reschedulable}
use clarityos.Queue.Moves.{
  Moves, after_requeue, requeue_job-Moves, after_cancel, cancel_job-Moves, cancel_job-refused,
  after_completion, complete_job-Moves, after_reschedule, reschedule_job-Moves,
  reschedule_job-refused,
}

-- The job `j` canceled: a running job keeps its worker, which has yet to let go of it.
pub record IsCanceled (now : ℕ) (reason : String) (j j' : QueueJob) : Type 0 where
  pub status : j'.status ≡ canceled
  pub time : j'.canceled_at ≡ some now
  pub why : j'.cancel_reason ≡ some reason
  pub no_lease : j'.lease_expires_at ≡ none
  pub no_retry : j'.next_retry_at ≡ none
  pub owner_kept : j.status ≡ running → j'.worker_id ≡ j.worker_id
  pub owner_dropped : j.status ≢ running → j'.worker_id ≡ none
  pub attempts : j'.attempt_count ≡ j.attempt_count

pub record IsRequeued (reason : String) (j j' : QueueJob) : Type 0 where
  pub status : j'.status ≡ queued
  pub no_owner : j'.worker_id ≡ none
  pub no_claim : j'.claimed_at ≡ none
  pub no_lease : j'.lease_expires_at ≡ none
  pub counted : j'.reclaim_count ≡ j.reclaim_count + 1
  pub why : j'.last_requeue_reason ≡ some reason
  pub attempts : j'.attempt_count ≡ j.attempt_count

pub record IsCompletedWith (outcome : Json) (j j' : QueueJob) : Type 0 where
  pub status : j'.status ≡ completed
  pub outcome_kept : j'.result ≡ some outcome
  pub no_error : j'.error ≡ none
  pub no_lease : j'.lease_expires_at ≡ none
  pub same_owner : j'.worker_id ≡ j.worker_id
  pub attempts : j'.attempt_count ≡ j.attempt_count

-- The job made new for a time: no trace of earlier attempts but the history and the reclaims.
pub record IsRescheduled (now ready : ℕ) (j j' : QueueJob) : Type 0 where
  pub status : j'.status ≡ job_status_for_ready_at now ready
  pub time : j'.ready_at ≡ ready
  pub no_attempts : j'.attempt_count ≡ 0
  pub no_owner : j'.worker_id ≡ none
  pub no_error : j'.error ≡ none
  pub no_outcome : j'.result ≡ none
  pub same_limit : j'.max_attempts ≡ j.max_attempts

-- The two ways in which canceling ends.
pub data Cancels (now : ℕ) (id reason : String) (d : Jobs) (j : QueueJob) : Type 0 where
  cancels :
      (j' : QueueJob)
      → is_terminal j.status ≡ false
      → Moves id d j' (cancel_job now id reason)
      → IsCanceled now reason j j'
      → Cancels now id reason d j
  cannot_cancel :
      is_terminal j.status ≡ true
      → cancel_job now id reason d
        ≡ (err (cannot "canceled" id (loaded now j)), (load_job now id d).1)
      → Cancels now id reason d j

-- The three ways in which rescheduling ends.
pub data Reschedules (now : ℕ) (id : String) (delay_seconds : Json) (run_at : Option RunAt)
    (d : Jobs) (j : QueueJob) : Type 0 where
  reschedules :
      (ready : ℕ) (j' : QueueJob)
      → can_reschedule j.status ≡ true
      → build_ready_at now delay_seconds run_at ≡ ok ready
      → Moves id d j' (reschedule_job now id delay_seconds run_at)
      → IsRescheduled now ready j j'
      → Reschedules now id delay_seconds run_at d j
  has_no_time :
      (e : Exception)
      → can_reschedule j.status ≡ true
      → build_ready_at now delay_seconds run_at ≡ err e
      → reschedule_job now id delay_seconds run_at d ≡ (err e, (load_job now id d).1)
      → Reschedules now id delay_seconds run_at d j
  cannot_reschedule :
      can_reschedule j.status ≡ false
      → reschedule_job now id delay_seconds run_at d
        ≡ (err (cannot "rescheduled" id (loaded now j)), (load_job now id d).1)
      → Reschedules now id delay_seconds run_at d j

module _ (now : ℕ) (id : String) {d : Jobs} (h : IsHealthy d) (j : QueueJob)
    (found : read id d ≡ some j) where
  IsCanceled-fits :
      (reason : String) → IsCanceled now reason j (after_cancel now id h j found reason)
  unfolding after_cancel canceled_as apply_changes loaded
  IsCanceled-fits reason = record {
    status = refl;
    time = refl;
    why = refl;
    no_lease = refl;
    no_retry = refl;
    owner_kept = λ e. ground arith;
    owner_dropped = λ e. ground arith;
    attempts = ground arith;
  }

  -- In a healthy directory, `cancel_job` of a stored job ends in one of two ways. A job that is not at
  -- its end is returned and stored as canceled, keeps its worker exactly if it was running, and no
  -- other file changes. A job at its end is refused, and no more is written than its loading does.
  pub cancel_job_outcome : (reason : String) → Cancels now id reason d j
  cancel_job_outcome reason = elim (Bool-cases (is_terminal j.status)) [
    | inl over ↦ cannot_cancel over (cancel_job-refused now id h j found reason over)
    | inr active ↦
        cancels (after_cancel now id h j found reason) active
          (cancel_job-Moves now id h j found reason active) (IsCanceled-fits reason)
  ]

  IsRescheduled-fits :
      (ready : ℕ) → IsRescheduled now ready j (after_reschedule now id h j found ready)
  unfolding after_reschedule rescheduled_for apply_changes loaded
  IsRescheduled-fits ready = record {
    status = refl;
    time = refl;
    no_attempts = refl;
    no_owner = refl;
    no_error = refl;
    no_outcome = refl;
    same_limit = ground arith;
  }

  no_time :
      (delay_seconds : Json) (run_at : Option RunAt) (e : Exception)
      → can_reschedule j.status ≡ true
      → build_ready_at now delay_seconds run_at ≡ err e
      → reschedule_job now id delay_seconds run_at d ≡ (err e, (load_job now id d).1)
  unfolding reschedule_job reschedule_loaded
  no_time delay_seconds run_at e allowed bad =
      rw (after_load now id h j found) (rw (loaded-reschedulable now j ∙ allowed, bad) refl)

  -- In a healthy directory, `reschedule_job` of a stored job ends in one of three ways. A job that is
  -- queued, scheduled, failed or a dead letter is returned and stored anew for the time that is asked
  -- for, with no attempts, worker, error or result, and no other file changes; where the time cannot
  -- be read, its exception is raised. A job in another status is refused. In the last two ways no
  -- more is written than the loading of the job does.
  pub reschedule_job_outcome :
      (delay_seconds : Json) (run_at : Option RunAt) → Reschedules now id delay_seconds run_at d j
  reschedule_job_outcome delay_seconds run_at = elim (Bool-cases (can_reschedule j.status)) [
    | inr refused ↦
        cannot_reschedule refused
          (reschedule_job-refused now id h j found delay_seconds run_at refused)
    | inl allowed ↦ elim (result_cases (build_ready_at now delay_seconds run_at)) [
      | inl (ready, built) ↦
          reschedules ready (after_reschedule now id h j found ready) allowed built
            (reschedule_job-Moves now id h j found delay_seconds run_at ready allowed built)
            (IsRescheduled-fits ready)
      | inr (e, bad) ↦ has_no_time e allowed bad (no_time delay_seconds run_at e allowed bad)
    ]
  ]

  IsRequeued-fits : (reason : String) → IsRequeued reason j (after_requeue now id h j found reason)
  unfolding after_requeue requeued_as apply_changes loaded
  IsRequeued-fits reason = record {
    status = refl;
    no_owner = refl;
    no_claim = refl;
    no_lease = refl;
    counted = ground arith;
    why = refl;
    attempts = ground arith;
  }

  -- In a healthy directory, `requeue_job` of a stored job that is not at its end returns and stores the
  -- job as queued, without a worker, claim or lease, with one more reclaim and the same attempts; the
  -- directory stays healthy and no other file changes.
  pub requeue_job_outcome :
      (reason : String)
      → is_terminal j.status ≡ false
      → (j' : QueueJob) × Moves id d j' (requeue_job now id reason) × IsRequeued reason j j'
  requeue_job_outcome reason active = (
    after_requeue now id h j found reason,
    requeue_job-Moves now id h j found reason active,
    IsRequeued-fits reason,
  )

  IsCompletedWith-fits :
      (outcome : Json) → IsCompletedWith outcome j (after_completion now id h j found outcome)
  unfolding after_completion completed_with apply_changes
  IsCompletedWith-fits outcome = record {
    status = refl;
    outcome_kept = refl;
    no_error = refl;
    no_lease = refl;
    same_owner = refl;
    attempts = refl;
  }

  -- In a healthy directory, `complete_job` of a stored job returns and stores the job as completed with
  -- the result, without an error or a lease, with the same worker and attempts; the directory stays
  -- healthy and no other file changes.
  pub complete_job_outcome :
      (outcome : Json)
      → (j' : QueueJob) × Moves id d j' (complete_job now id outcome) × IsCompletedWith outcome j j'
  complete_job_outcome outcome = (
    after_completion now id h j found outcome,
    complete_job-Moves now id h j found outcome,
    IsCompletedWith-fits outcome,
  )
