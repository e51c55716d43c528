-- ===== src/Worker/Run.antt =====
-- Running a claimed job, releasing and canceling (runtime/worker.py). What `dispatch_job` starts, a
-- workflow of runtime/workflow_runner.py, is the parameter `dispatch`: it may change the world and
-- raise. A job's type is one of three, so its `Unsupported job type` cannot arise.
use clarityos.Prelude.{
  ℕ, String, ◌<>◌, not, Option, none, some, if◌then◌else◌, ◌==◌, string_eq, option_eq,
}
use clarityos.Python.Errors.{Exception, value_error}
use clarityos.Python.Exec.{Result, ok, err, map_result, Exec, raise, continue, ◌>>=◌}
use clarityos.Python.Json.{Json}
use clarityos.Python.Directory.{read}
use clarityos.Queue.Job.{running, canceled, status_eq}
use clarityos.Queue.History.{QueueJob}
use clarityos.Queue.Access.{load_job, job_lease_expired}
use clarityos.Queue.Lifecycle.{cancel_job, complete_job, record_job_failure}
use clarityos.Worker.Record.{Worker, idle, worker_status_eq, without_details, worker_lease_expired}
use clarityos.Worker.World.{World, on_jobs, load_worker, update_worker, heartbeat_worker}
use clarityos.Worker.Claim.{freed, claim_next_job}

unfoldable pub release_worker : ℕ → String → Exec World Worker
release_worker now worker_id =
    update_worker now worker_id (some "job_released") without_details freed

unfoldable pub fail_job : ℕ → String → Exception → Exec World QueueJob
fail_job now job_id exc = on_jobs (record_job_failure now job_id exc)

-- The release, if the worker is there and still holds the job.
release_holder : ℕ → String → QueueJob → String → Option Worker → Exec World QueueJob
release_holder now job_id canceled_job worker_id none s = (ok canceled_job, s)
release_holder now job_id canceled_job worker_id (some w) s =
    if w.current_job_id == some job_id
    then (
      map_result (λ _. canceled_job) (release_worker now worker_id s).0,
      (release_worker now worker_id s).1,
    )
    else (ok canceled_job, s)

release_after_cancel : ℕ → String → Option String → QueueJob → Exec World QueueJob
unfolding release_holder
release_after_cancel now job_id none canceled_job s = (ok canceled_job, s)
release_after_cancel now job_id (some worker_id) canceled_job s =
    release_holder now job_id canceled_job worker_id (read worker_id s.workers) s

unfoldable pub cancel_job_execution : ℕ → String → String → Exec World QueueJob
unfolding release_after_cancel
cancel_job_execution now job_id reason = do
  job ← on_jobs (load_job now job_id)
  canceled_job ← on_jobs (cancel_job now job_id reason)
  release_after_cancel now job_id job.worker_id canceled_job

module _ (dispatch : QueueJob → Exec World Json) where
  -- The body of the `try`.
  unfoldable pub attempt : ℕ → String → QueueJob → Exec World QueueJob
  attempt now job_id job = do outcome ← dispatch job; on_jobs (complete_job now job_id outcome)

  -- `except Exception as exc`
  unfoldable pub recover : ℕ → String → Result QueueJob × World → Result QueueJob × World
  recover now job_id (ok completed, s) = (ok completed, s)
  recover now job_id (err exc, s) = fail_job now job_id exc s

  -- `finally`: what the release raises takes the place of the result.
  unfoldable pub finally_release : ℕ → String → Result QueueJob × World → Result QueueJob × World
  finally_release now worker_id (r, s) =
      continue (release_worker now worker_id s).0 (λ _ s'. (r, s'))
        (release_worker now worker_id s).1

  unfoldable pub execute : ℕ → String → String → QueueJob → Exec World QueueJob
  unfolding attempt recover
  execute now worker_id job_id job s =
      finally_release now worker_id (recover now job_id (attempt now job_id job s))

  -- A job that was canceled before it started: the worker is released if it holds the job, or is
  -- not idle.
  drop_canceled : ℕ → String → String → Worker → QueueJob → Exec World QueueJob
  drop_canceled now worker_id job_id w job s =
      if w.current_job_id == some job_id
      then (
        map_result (λ _. job) (release_worker now worker_id s).0,
        (release_worker now worker_id s).1,
      )
      else if not (w.status == idle)
      then (
        map_result (λ _. job) (release_worker now worker_id s).0,
        (release_worker now worker_id s).1,
      )
      else (ok job, s)

  lost_before : String → String → Exception
  lost_before worker_id job_id =
      value_error
        ("Worker `" <> worker_id <> "` lease expired before running job `" <> job_id <> "`")

  unfoldable pub run_loaded : ℕ → String → String → Worker → QueueJob → Exec World QueueJob
  unfolding drop_canceled execute
  run_loaded now worker_id job_id w job =
      if job.status == canceled
      then drop_canceled now worker_id job_id w job
      else if not (w.current_job_id == some job_id)
      then raise
          (value_error ("Worker `" <> worker_id <> "` is not assigned to job `" <> job_id <> "`"))
      else if not (job.status == running)
      then raise (value_error ("Job `" <> job_id <> "` is not running"))
      else if not (job.worker_id == some worker_id)
      then raise
          (value_error ("Job `" <> job_id <> "` is not claimed by worker `" <> worker_id <> "`"))
      else if job_lease_expired now job
      then raise (value_error ("Job `" <> job_id <> "` lease expired before execution"))
      else execute now worker_id job_id job

  unfoldable pub run_claimed_job : ℕ → String → String → Exec World QueueJob
  unfolding run_loaded lost_before
  run_claimed_job now worker_id job_id = do
    w ← (λ s. (load_worker worker_id s, s))
    if worker_lease_expired now w then raise (lost_before worker_id job_id) else do
      beating ← heartbeat_worker now worker_id
      job ← on_jobs (load_job now job_id)
      run_loaded now worker_id job_id beating job

  unfoldable pub run_if_claimed : ℕ → String → Option QueueJob → Exec World (Option QueueJob)
  run_if_claimed now worker_id none s = (ok none, s)
  run_if_claimed now worker_id (some job) s = (
    map_result some (run_claimed_job now worker_id job.job_id s).0,
    (run_claimed_job now worker_id job.job_id s).1,
  )

  unfoldable pub run_next_job : ℕ → String → Exec World (Option QueueJob)
  unfolding run_claimed_job run_if_claimed
  run_next_job now worker_id = do
    job ← claim_next_job now worker_id
    run_if_claimed now worker_id job
