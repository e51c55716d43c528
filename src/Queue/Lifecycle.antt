-- ===== src/Queue/Lifecycle.antt =====
-- What moves a job on after its creation (runtime/queue.py, and `complete_job` of runtime/worker.py):
-- each operation is a change of the record, applied by `update_job` after a check.
use Prim.Native.Nat.{◌^◌}
use clarityos.Prelude.{
  ℕ, ◌+◌, ◌*◌, ◌-◌, String, ◌<>◌, Bool, true, false, not, Option, none, some, leb, ltb, nat_beq,
  if◌then◌else◌, ◌==◌,
}
use clarityos.Python.Errors.{Exception, value_error, type_name, message}
use clarityos.Python.Exec.{Result, ok, err, Exec, ◌>>=◌}
use clarityos.Python.Json.{Json, int}
use clarityos.Prelude.Int.{pos}
use clarityos.Python.Text.{show_nat}
use clarityos.Queue.Job.{
  JobStatus, queued, scheduled, running, completed, failed, dead_letter, canceled, status_eq,
  status_name, is_terminal, JobError, RunAt, build_ready_at, job_status_for_ready_at,
}
use clarityos.Queue.History.{QueueJob, without_details, terminal, retry_delay_seconds, ready_at}
use clarityos.Queue.Access.{Jobs, update_job, load_job}

unfoldable pub requeued_as : String → QueueJob → QueueJob
requeued_as reason job = record job {
  status = queued;
  worker_id = none;
  claimed_at = none;
  lease_expires_at = none;
  reclaim_count = job.reclaim_count + 1;
  last_requeue_reason = some reason;
  next_retry_at = none;
}

-- The count is that of the loaded job, which `update_job` reads again.
unfoldable pub requeue_job : ℕ → String → String → Exec Jobs QueueJob
unfolding requeued_as
requeue_job now job_id reason = do
  job ← load_job now job_id
  update_job now job_id (some reason) without_details
      (λ current. record (requeued_as reason current) { reclaim_count = job.reclaim_count + 1 })

unfoldable pub retry_delay : QueueJob → ℕ → ℕ
retry_delay job attempt_count =
    if nat_beq job.retry_backoff_seconds 0
    then 0
    else job.retry_backoff_seconds * 2 ^ (attempt_count - 1)

abbrev pub error_of : Exception → JobError
error_of exc = record { type = type_name exc; message = message exc }

terminal_status : QueueJob → JobStatus
terminal_status job = if ltb 1 job.max_attempts then dead_letter else failed

abbrev pub dead_lettered_time : ℕ → JobStatus → Option ℕ
dead_lettered_time now dead_letter = some now
dead_lettered_time now _ = none

unfoldable pub failed_for_good : ℕ → Exception → (loaded : QueueJob) → QueueJob → QueueJob
unfolding terminal_status
failed_for_good now exc loaded job = record job {
  status = terminal_status loaded;
  attempt_count = loaded.attempt_count + 1;
  error = some (error_of exc);
  last_failure_at = some now;
  dead_lettered_at = dead_lettered_time now (terminal_status loaded);
  next_retry_at = none;
  worker_id = none;
  claimed_at = none;
  lease_expires_at = none;
}

unfoldable pub retried_at : (now ready : ℕ) → Exception → (loaded : QueueJob) → QueueJob → QueueJob
retried_at now ready exc loaded job = record job {
  status = job_status_for_ready_at now ready;
  attempt_count = loaded.attempt_count + 1;
  error = some (error_of exc);
  last_failure_at = some now;
  next_retry_at = some ready;
  ready_at = ready;
  worker_id = none;
  claimed_at = none;
  lease_expires_at = none;
  last_requeue_reason =
      some ("Retry " <> (show_nat (loaded.attempt_count + 1) <> " scheduled after failure"));
  result = none;
}

unfoldable pub retry_job :
    ℕ → String → Exception → QueueJob → (delay : ℕ) → Result ℕ → Exec Jobs QueueJob
retry_job now job_id exc job delay (err e) d = (err e, d)
retry_job now job_id exc job delay (ok ready) d =
    update_job now job_id (some (message exc)) (retry_delay_seconds delay)
      (retried_at now ready exc job) d

-- What follows the loading. A time of the next attempt that `datetime` does not have is raised, and
-- nothing is written then.
unfoldable pub fail_loaded : ℕ → String → Exception → QueueJob → Exec Jobs QueueJob
unfolding retry_job
fail_loaded now job_id exc job =
    let attempted = job.attempt_count + 1 in
    let delay = retry_delay job attempted in
    if leb job.max_attempts attempted
    then update_job now job_id (some (message exc)) terminal (failed_for_good now exc job)
    else retry_job now job_id exc job delay (build_ready_at now (int (pos delay)) none)

unfoldable pub record_job_failure : ℕ → String → Exception → Exec Jobs QueueJob
unfolding fail_loaded
record_job_failure now job_id exc = do job ← load_job now job_id; fail_loaded now job_id exc job

unfoldable pub completed_with : Json → QueueJob → QueueJob
completed_with outcome job = record job {
  status = completed;
  result = some outcome;
  error = none;
  lease_expires_at = none;
}

unfoldable pub complete_job : ℕ → String → Json → Exec Jobs QueueJob
complete_job now job_id outcome =
    update_job now job_id (some "job_completed") without_details (completed_with outcome)

abbrev kept_worker : QueueJob → Option String
kept_worker job = if job.status == running then job.worker_id else none

unfoldable pub canceled_as : ℕ → String → (loaded : QueueJob) → QueueJob → QueueJob
canceled_as now reason loaded job = record job {
  status = canceled;
  canceled_at = some now;
  cancel_reason = some reason;
  worker_id = kept_worker loaded;
  claimed_at = none;
  lease_expires_at = none;
  next_retry_at = none;
  result = none;
  error = none;
}

abbrev pub cannot : String → String → QueueJob → Exception
cannot verb job_id job = value_error (
    "Job `"
    <> job_id
    <> "` cannot be "
    <> verb
    <> " from status `"
    <> status_name job.status
    <> "`")

unfoldable pub cancel_loaded : ℕ → String → String → QueueJob → Exec Jobs QueueJob
cancel_loaded now job_id reason job d =
    if is_terminal job.status
    then (err (cannot "canceled" job_id job), d)
    else update_job now job_id (some reason) without_details (canceled_as now reason job) d

unfoldable pub cancel_job : ℕ → String → String → Exec Jobs QueueJob
unfolding cancel_loaded
cancel_job now job_id reason = do job ← load_job now job_id; cancel_loaded now job_id reason job

unfoldable pub rescheduled_for : (now ready : ℕ) → QueueJob → QueueJob
rescheduled_for now ready job = record job {
  status = job_status_for_ready_at now ready;
  ready_at = ready;
  worker_id = none;
  claimed_at = none;
  lease_expires_at = none;
  last_requeue_reason = none;
  attempt_count = 0;
  last_failure_at = none;
  dead_lettered_at = none;
  next_retry_at = none;
  canceled_at = none;
  cancel_reason = none;
  result = none;
  error = none;
}

abbrev pub can_reschedule : JobStatus → Bool
can_reschedule queued = true
can_reschedule scheduled = true
can_reschedule failed = true
can_reschedule dead_letter = true
can_reschedule _ = false

reschedule_at : ℕ → String → Result ℕ → Exec Jobs QueueJob
reschedule_at now job_id (err e) d = (err e, d)
reschedule_at now job_id (ok ready) d =
    update_job now job_id (some "operator_reschedule") (ready_at ready) (rescheduled_for now ready)
      d

unfoldable pub reschedule_loaded : ℕ → String → Result ℕ → QueueJob → Exec Jobs QueueJob
unfolding reschedule_at
reschedule_loaded now job_id ready job d =
    if not (can_reschedule job.status)
    then (err (cannot "rescheduled" job_id job), d)
    else reschedule_at now job_id ready d

unfoldable pub reschedule_job : ℕ → String → Json → Option RunAt → Exec Jobs QueueJob
unfolding reschedule_loaded
reschedule_job now job_id delay_seconds run_at = do
  job ← load_job now job_id
  reschedule_loaded now job_id (build_ready_at now delay_seconds run_at) job
