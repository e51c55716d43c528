-- ===== src/Queue/Moves.antt =====
-- What the operations of `Lifecycle` do to the stored job, and to no other.
use clarityos.Prelude.{
  ℕ, ◌+◌, String, ◌≡◌, refl, ◌∙◌, ap, Bool, ◌||◌, true, false, Option, some, arith, leb,
  if◌then◌else◌, inl, inr, Bool-cases,
}
use clarityos.Python.Errors.{Exception, message}
use clarityos.Python.Exec.{ok, err, Exec}
use clarityos.Python.Json.{Json}
use clarityos.Python.Directory.{read}
use clarityos.Queue.Job.{
  is_terminal, status_eq, seconds, RunAt, build_ready_at, build_ready_at_delay, latest_time,
  no_such_time,
}
use clarityos.Queue.History.{
  QueueJob, Details, without_details, terminal, retry_delay_seconds, ready_at,
}
use clarityos.Queue.Access.{Jobs, apply_changes, update_job, load_job}
use clarityos.Queue.Lifecycle.{
  requeued_as, requeue_job, retry_delay, failed_for_good, retried_at, retry_job, fail_loaded,
  record_job_failure, completed_with, complete_job, canceled_as, cancel_loaded, cancel_job,
  rescheduled_for, reschedule_loaded, reschedule_job, can_reschedule, cannot,
}
use clarityos.Queue.Sound.{
  IsSound, requeued_as-IsSound, failed_for_good-IsSound, retried_at-IsSound, completed_with-IsSound,
  canceled_as-IsSound, rescheduled_for-IsSound,
}
use clarityos.Queue.Healthy.{IsHealthy, IsHealthy-read}
use clarityos.Queue.Loading.{
  loaded, Replaces, Replaces-trans, update_job-Replaces, load_job-Replaces, after_load,
  loaded-terminal, loaded-attempts, loaded-backoff, loaded-reschedulable,
}

both_false : (a b : Bool) → a || b ≡ false → (a ≡ false) × (b ≡ false)
both_false a b h = ground arith

-- Whether a failure of the job is recorded: it is the last one, or the year 9999 is not over at the time
-- of the next attempt.
abbrev pub is_recorded : ℕ → QueueJob → Bool
is_recorded now j =
    leb j.max_attempts (j.attempt_count + 1)
    || leb (now + seconds (retry_delay j (j.attempt_count + 1))) latest_time

-- What is raised where it is not.
abbrev pub overflow_of : QueueJob → Exception
overflow_of j = no_such_time (retry_delay j (j.attempt_count + 1))

loaded-retry_delay :
    (now : ℕ) (j : QueueJob)
    → retry_delay (loaded now j) ((loaded now j).attempt_count + 1)
      ≡ retry_delay j (j.attempt_count + 1)
unfolding retry_delay
loaded-retry_delay now j = rw (loaded-backoff now j, (loaded-attempts now j).0) refl

loaded-recorded : (now : ℕ) (j : QueueJob) → is_recorded now (loaded now j) ≡ is_recorded now j
loaded-recorded now j =
    rw (loaded-retry_delay now j, (loaded-attempts now j).0, (loaded-attempts now j).1) refl

-- `m` returns the job that it leaves in the place of the old one.
abbrev pub Moves : String → Jobs → QueueJob → Exec Jobs QueueJob → Type 0
Moves id d j m = ((m d).0 ≡ ok j) × Replaces id j d (m d).1

module _ (now : ℕ) (id : String) {d : Jobs} (h : IsHealthy d) (j : QueueJob)
    (found : read id d ≡ some j) where
  abbrev there : Jobs
  there = (load_job now id d).1

  there-Replaces : Replaces id (loaded now j) d there
  there-Replaces = (load_job-Replaces now id h j found).1

  -- An update behind the loading is a move.
  then_update :
      (reason : Option String) (details : Details) (changes : QueueJob → QueueJob)
      → (changes (loaded now j)).job_id ≡ (loaded now j).job_id
      → IsSound (changes (loaded now j))
      → ((update_job now id reason details changes there).0
          ≡ ok (apply_changes now reason details changes (loaded now j)))
        × Replaces id
            (apply_changes now reason details changes (loaded now j))
            d
            (update_job now id reason details changes there).1
  then_update reason details changes same sound =
      let (returned, kept) =
        update_job-Replaces now id there-Replaces.healthy reason details changes (loaded now j)
          there-Replaces.stored same sound in
      (returned, Replaces-trans there-Replaces kept)

  loaded-IsSound : IsSound (loaded now j)
  loaded-IsSound = (IsHealthy-read id (loaded now j) there-Replaces.healthy there-Replaces.stored).1

  module _ (exc : Exception) where
    abbrev retry_at : ℕ
    retry_at = now + seconds (retry_delay (loaded now j) ((loaded now j).attempt_count + 1))

    -- The job after a failure: at its end if that was the last attempt, else due for a retry.
    unfoldable pub after_failure : QueueJob
    after_failure =
        let l = loaded now j in
        if leb l.max_attempts (l.attempt_count + 1)
        then apply_changes now (some (message exc)) terminal (failed_for_good now exc l) l
        else apply_changes now (some (message exc))
            (retry_delay_seconds (retry_delay l (l.attempt_count + 1)))
            (retried_at now retry_at exc l) l

    fail_loaded-Moves :
        is_recorded now (loaded now j) ≡ true
        → ((fail_loaded now id exc (loaded now j) there).0 ≡ ok after_failure)
          × Replaces id after_failure d (fail_loaded now id exc (loaded now j) there).1
    unfolding fail_loaded after_failure
    fail_loaded-Moves recorded =
        elim (Bool-cases (leb (loaded now j).max_attempts ((loaded now j).attempt_count + 1))) [
          | inl last ↦ rw last (
              then_update _ _ (failed_for_good now exc (loaded now j))
                (unfold failed_for_good in refl) (failed_for_good-IsSound now exc loaded-IsSound))
          | inr more ↦ rw more (
              rw (build_ready_at_delay now _, rw more at recorded)
                (then_update _ _ (retried_at now retry_at exc (loaded now j))
                  (unfold retried_at in refl)
                  (retried_at-IsSound now retry_at exc loaded-IsSound (ground arith))))
        ]

    pub record_job_failure-Moves :
        is_recorded now j ≡ true → Moves id d after_failure (record_job_failure now id exc)
    unfolding record_job_failure
    record_job_failure-Moves recorded =
        rw (after_load now id h j found) (fail_loaded-Moves (loaded-recorded now j ∙ recorded))

    -- With attempts left and a next attempt behind the year 9999, nothing but the loading is written.
    pub record_job_failure-overflows :
        is_recorded now j ≡ false → record_job_failure now id exc d ≡ (err (overflow_of j), there)
    unfolding record_job_failure fail_loaded retry_job
    record_job_failure-overflows late =
        let late' = loaded-recorded now j ∙ late in
        let (more, beyond) =
          both_false (leb (loaded now j).max_attempts ((loaded now j).attempt_count + 1))
            (leb (now + seconds (retry_delay (loaded now j) ((loaded now j).attempt_count + 1)))
              latest_time)
            late' in
        rw (after_load now id h j found) (
          rw more (
            rw (build_ready_at_delay now _, beyond)
              (ap (λ e. (err (no_such_time e), there)) (loaded-retry_delay now j))))

  module _ (reason : String) where
    unfoldable pub after_requeue : QueueJob
    after_requeue =
        apply_changes now (some reason) without_details
          (λ current. record (requeued_as reason current) {
            reclaim_count = (loaded now j).reclaim_count + 1;
          })
          (loaded now j)

    -- In a healthy directory, `requeue_job` of a stored job that is not at its end returns and
    -- stores the job as queued again, with no worker and one more reclaim counted, keeps the
    -- directory healthy and changes no other file.
    pub requeue_job-Moves :
        is_terminal j.status ≡ false → Moves id d after_requeue (requeue_job now id reason)
    unfolding requeue_job after_requeue
    requeue_job-Moves active = rw (after_load now id h j found) (
        then_update _ _
          (λ current. record (requeued_as reason current) {
            reclaim_count = (loaded now j).reclaim_count + 1;
          })
          (unfold requeued_as in refl)
          (requeued_as-IsSound reason _ loaded-IsSound (loaded-terminal now j ∙ active)))

    unfoldable pub after_cancel : QueueJob
    after_cancel =
        apply_changes now (some reason) without_details (canceled_as now reason (loaded now j))
          (loaded now j)

    -- In a healthy directory, `cancel_job` of a stored job that is not at its end returns and
    -- stores the canceled job in its place, keeps the directory healthy and changes no other file.
    pub cancel_job-Moves :
        is_terminal j.status ≡ false → Moves id d after_cancel (cancel_job now id reason)
    unfolding cancel_job cancel_loaded after_cancel
    cancel_job-Moves active = rw (after_load now id h j found) (
        rw (loaded-terminal now j ∙ active) (
          then_update _ _ (canceled_as now reason (loaded now j)) (unfold canceled_as in refl)
            (canceled_as-IsSound now reason _ loaded-IsSound)))

    -- In a healthy directory, `cancel_job` of a stored job that is at its end raises, and writes
    -- no more than the loading of the job does.
    pub cancel_job-refused :
        is_terminal j.status ≡ true
        → cancel_job now id reason d ≡ (err (cannot "canceled" id (loaded now j)), there)
    unfolding cancel_job cancel_loaded
    cancel_job-refused over =
        rw (after_load now id h j found) (rw (loaded-terminal now j ∙ over) refl)

  unfoldable pub after_completion : Json → QueueJob
  after_completion outcome =
      apply_changes now (some "job_completed") without_details (completed_with outcome) j

  -- In a healthy directory, `complete_job` of a stored job returns and stores the job as completed
  -- with the given result, keeps the directory healthy and changes no other file.
  pub complete_job-Moves :
      (outcome : Json) → Moves id d (after_completion outcome) (complete_job now id outcome)
  unfolding complete_job after_completion
  complete_job-Moves outcome =
      update_job-Replaces now id h _ _ (completed_with outcome) j found
        (unfold completed_with in refl)
        (completed_with-IsSound outcome (IsHealthy-read id j h found).1)

  unfoldable pub after_reschedule : ℕ → QueueJob
  after_reschedule ready =
      apply_changes now (some "operator_reschedule") (ready_at ready) (rescheduled_for now ready)
        (loaded now j)

  module _ (delay_seconds : Json) (run_at : Option RunAt) where
    -- In a healthy directory, `reschedule_job` of a stored job that is queued, scheduled, failed
    -- or a dead letter, for a time that can be read, returns and stores in its place the job made
    -- new for that time, keeps the directory healthy and changes no other file.
    pub reschedule_job-Moves :
        (ready : ℕ)
        → can_reschedule j.status ≡ true
        → build_ready_at now delay_seconds run_at ≡ ok ready
        → Moves id d (after_reschedule ready) (reschedule_job now id delay_seconds run_at)
    unfolding reschedule_job reschedule_loaded after_reschedule
    reschedule_job-Moves ready allowed built = rw (after_load now id h j found) (
        rw (loaded-reschedulable now j ∙ allowed, built)
          (then_update _ _ (rescheduled_for now ready) (unfold rescheduled_for in refl)
            (rescheduled_for-IsSound now ready loaded-IsSound)))

    -- In a healthy directory, `reschedule_job` of a stored job in any other status raises, and
    -- writes no more than the loading of the job does.
    pub reschedule_job-refused :
        can_reschedule j.status ≡ false
        → reschedule_job now id delay_seconds run_at d
          ≡ (err (cannot "rescheduled" id (loaded now j)), there)
    unfolding reschedule_job reschedule_loaded
    reschedule_job-refused refused =
        rw (after_load now id h j found) (rw (loaded-reschedulable now j ∙ refused) refl)
