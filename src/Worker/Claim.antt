-- ===== src/Worker/Claim.antt =====
-- Reclaiming expired leases and claiming the next job (runtime/worker.py).
use clarityos.Prelude.{
  ℕ, ◌+◌, String, ◌<>◌, true, false, Option, none, some, List, [], ◌∷◌, if◌then◌else◌, ◌==◌,
  string_eq, option_eq,
}
use clarityos.Python.Errors.{Exception, value_error}
use clarityos.Python.Exec.{Result, ok, err, map_result, Exec, pure, raise, continue, ◌>>=◌, ◌>>◌}
use clarityos.Queue.Job.{running, seconds}
use clarityos.Queue.History
use clarityos.Queue.History.{QueueJob}
use clarityos.Queue.Access.{list_jobs, ready_jobs, update_job, job_lease_expired}
use clarityos.Queue.Lifecycle.{requeue_job}
use clarityos.Python.Directory.{read}
use clarityos.Worker.Record.{Worker, idle, busy, without_details, holds_job, worker_lease_expired}
use clarityos.Worker.World.{
  World, on_jobs, load_worker, update_worker, heartbeat_worker, lease_lost, text_or,
}

abbrev pub freed : Worker → Worker
freed w = record w { status = idle; current_job_id = none }

-- The worker of a reclaimed job lets go of it, if it is there and still holds it.
free_holder : ℕ → String → String → Option Worker → Exec World (Unit {0})
free_holder now job_id worker_id none s = (ok tt, s)
free_holder now job_id worker_id (some w) s =
    if w.current_job_id == some job_id
    then (
      map_result (λ _. tt) (update_worker now worker_id none without_details freed s).0,
      (update_worker now worker_id none without_details freed s).1,
    )
    else (ok tt, s)

unfoldable pub let_go : ℕ → String → Option String → Exec World (Unit {0})
unfolding free_holder
let_go now job_id none s = (ok tt, s)
let_go now job_id (some worker_id) s = free_holder now job_id worker_id (read worker_id s.workers) s

abbrev pub lease_reason : QueueJob → String
lease_reason job = "Lease expired for worker `" <> text_or "None" job.worker_id <> "`"

unfoldable pub reclaim_one : ℕ → QueueJob → Exec World String
unfolding let_go
reclaim_one now job = do
  reclaimed ← on_jobs (requeue_job now job.job_id (lease_reason job))
  let_go now job.job_id job.worker_id
  pure reclaimed.job_id

abbrev pub prepend_id : String → Result (List String) × World → Result (List String) × World
prepend_id i (r, s) = (map_result (λ more. i ∷ more) r, s)

unfoldable pub reclaim_loop : ℕ → List QueueJob → Exec World (List String)
unfolding reclaim_one
reclaim_loop now [] s = (ok [], s)
reclaim_loop now (job ∷ rest) s = elim (job_lease_expired now job) [
  | false ↦ reclaim_loop now rest s
  | true ↦
      continue (reclaim_one now job s).0 (λ i s'. prepend_id i (reclaim_loop now rest s'))
        (reclaim_one now job s).1
]

unfoldable pub reclaim_expired_leases : ℕ → Exec World (List String)
unfolding reclaim_loop
reclaim_expired_leases now = do jobs ← on_jobs (list_jobs now (some running)); reclaim_loop now jobs

-- What claiming changes in the job and in the worker.
unfoldable pub claimed_by : ℕ → String → ℕ → QueueJob → QueueJob
claimed_by now worker_id lease_seconds job = record job {
  status = running;
  worker_id = some worker_id;
  claimed_at = some now;
  lease_expires_at = some (now + seconds lease_seconds);
}

unfoldable pub assigned_to : ℕ → String → ℕ → Worker → Worker
assigned_to now job_id lease_seconds w = record w {
  status = busy;
  current_job_id = some job_id;
  last_heartbeat_at = now;
  lease_expires_at = now + seconds lease_seconds;
}

unfoldable pub claim_first : ℕ → String → Worker → List QueueJob → Exec World (Option QueueJob)
unfolding claimed_by assigned_to
claim_first now worker_id w [] = pure none
claim_first now worker_id w (job ∷ jobs) = do
  leased ← on_jobs (
      update_job now job.job_id (some ("claimed_by_worker:" <> worker_id)) History.without_details
        (claimed_by now worker_id w.lease_seconds))
  update_worker now worker_id (some ("claimed_job:" <> job.job_id)) without_details
      (assigned_to now job.job_id w.lease_seconds)
  pure (some leased)

already_assigned : String → Worker → Exception
already_assigned worker_id w = value_error (
    "Worker `"
    <> worker_id
    <> "` is already assigned to job `"
    <> text_or "None" w.current_job_id
    <> "`")

-- The part of `claim_next_job` behind the heartbeat.
unfoldable pub claim_when_free : ℕ → String → Worker → Exec World (Option QueueJob)
unfolding claim_first already_assigned
claim_when_free now worker_id w =
    if holds_job w
    then raise (already_assigned worker_id w)
    else do jobs ← on_jobs (ready_jobs now); claim_first now worker_id w jobs

unfoldable pub claim_next_job : ℕ → String → Exec World (Option QueueJob)
unfolding claim_when_free
claim_next_job now worker_id = do
  reclaim_expired_leases now
  w ← (λ s. (load_worker worker_id s, s))
  λ s.
      if worker_lease_expired now w
      then (if holds_job w
          then (err (lease_lost worker_id w), s)
          else continue (heartbeat_worker now worker_id s).0 (claim_when_free now worker_id)
              (heartbeat_worker now worker_id s).1)
      else continue (heartbeat_worker now worker_id s).0 (claim_when_free now worker_id)
          (heartbeat_worker now worker_id s).1
