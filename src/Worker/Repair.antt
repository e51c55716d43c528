-- ===== src/Worker/Repair.antt =====
-- Resetting a worker, and repairing the workers whose job is not theirs (runtime/worker.py).
use clarityos.Prelude.{
  ℕ, ◌+◌, String, ◌<>◌, Bool, true, false, not, ◌&&◌, Option, none, some, List, [], ◌∷◌,
  if◌then◌else◌, ◌==◌, string_eq, option_eq,
}
use clarityos.Python.Errors.{Exception, value_error, file_not_found}
use clarityos.Python.Exec.{Result, ok, err, map_result, Exec, pure, raise, lift, continue, ◌>>=◌}
use clarityos.Python.Json.{Json}
use clarityos.Python.Text.{strip, is_blank}
use clarityos.Queue.Job.{running, status_eq, status_name, seconds, normalize_optional_limit}
use clarityos.Queue.History.{QueueJob}
use clarityos.Queue.Access.{load_job}
use clarityos.Queue.Lifecycle.{requeue_job}
use clarityos.Queue.Maintenance.{spend, is_spent}
use clarityos.Worker.Record.{Worker, idle, worker_status_eq, reset}
use clarityos.Worker.World.{World, on_jobs, load_worker, update_worker, list_workers, text_or}

pub record Reset : Type 0 where
  pub worker : Worker
  pub reason : String
  pub forced : Bool
  pub requeued_job_ids : List String

-- `force` and `requeued_job_ids` as they stand after the look at the current job.
abbrev pub Look : Type 0
Look = Bool × List String

abbrev pub owns_running_job : String → QueueJob → Bool
owns_running_job worker_id job = job.status == running && job.worker_id == some worker_id

holding : String → String → Exception
holding worker_id job_id = value_error (
    "Worker `" <> worker_id <> "` is actively holding job `" <> job_id
    <> "`; pass `requeue_running_job` or `force` to reset")

not_idle : String → Exception
not_idle worker_id =
    value_error ("Worker `" <> worker_id <> "` is not idle and cannot be reset without `force`")

requeue_held : ℕ → String → String → Bool → Exec World Look
requeue_held now job_id reason force = do
  job ← on_jobs (requeue_job now job_id ("Worker reset: " <> strip reason))
  pure (force, job.job_id ∷ [])

unfoldable pub look_at :
    ℕ
    → Worker
    → String
    → (job_id : String) → String
    → (force requeue : Bool) → Result QueueJob
    → Exec World Look
unfolding requeue_held holding not_idle
look_at now w worker_id job_id reason force requeue (err (file_not_found _)) s = (ok (true, []), s)
look_at now w worker_id job_id reason force requeue (err e) s = (err e, s)
look_at now w worker_id job_id reason force requeue (ok job) s =
    if owns_running_job worker_id job
    then (if requeue
        then requeue_held now job_id reason force s
        else if not force
        then (err (holding worker_id job_id), s)
        else (ok (force, []), s))
    else if not force && not (w.status == idle)
    then (err (not_idle worker_id), s)
    else (ok (force, []), s)

unfoldable pub look :
    ℕ → Worker → String → Option String → String → (force requeue : Bool) → Exec World Look
unfolding look_at
look now w worker_id none reason force requeue s = (ok (force, []), s)
look now w worker_id (some job_id) reason force requeue s =
    look_at now w worker_id job_id reason force requeue (on_jobs (load_job now job_id) s).0
      (on_jobs (load_job now job_id) s).1

-- The changes of a reset: idle, with no job and a fresh lease.
abbrev pub reset_to : ℕ → ℕ → Worker → Worker
reset_to now lease_seconds w = record w {
  status = idle;
  current_job_id = none;
  last_heartbeat_at = now;
  lease_expires_at = now + seconds lease_seconds;
}

unfoldable pub reset_worker : ℕ → String → String → (force requeue : Bool) → Exec World Reset
reset_worker now worker_id reason force requeue =
    if is_blank reason
    then raise (value_error "Worker reset `reason` must be a non-empty string")
    else do
      w ← (λ s. (load_worker worker_id s, s))
      seen ← look now w worker_id w.current_job_id reason force requeue
      repaired ←
          update_worker now worker_id (some (strip reason)) (reset seen.0 seen.1)
            (reset_to now w.lease_seconds)
      pure (record {
        worker = repaired;
        reason = strip reason;
        forced = seen.0;
        requeued_job_ids = seen.1;
      })

-- Why a listed worker with a current job is an orphan.
orphaned_from : Worker → (job_id : String) → Result QueueJob → Result (Option String)
orphaned_from w job_id (err (file_not_found _)) =
    ok (some ("Worker references missing job `" <> job_id <> "`"))
orphaned_from w job_id (err e) = err e
orphaned_from w job_id (ok job) =
    if not (job.status == running)
    then ok (
        some (
          "Worker references job `"
          <> job_id
          <> "` in terminal/non-running status `"
          <> status_name job.status
          <> "`"))
    else if not (job.worker_id == some w.worker_id)
    then ok (
        some (
          "Worker references job `"
          <> job_id
          <> "` claimed by `"
          <> text_or "None" job.worker_id
          <> "`"))
    else ok none

orphan_reason_at : ℕ → Worker → Option String → Exec World (Option String)
unfolding orphaned_from
orphan_reason_at now w none s =
    (ok (if w.status == idle then none else some "Worker marked busy without a current job"), s)
orphan_reason_at now w (some job_id) s = (
  orphaned_from w job_id (on_jobs (load_job now job_id) s).0,
  (on_jobs (load_job now job_id) s).1,
)

unfoldable pub orphan_reason : ℕ → Worker → Exec World (Option String)
unfolding orphan_reason_at
orphan_reason now w = orphan_reason_at now w w.current_job_id

abbrev pub prepend_reset : Reset → Result (List Reset) × World → Result (List Reset) × World
prepend_reset r (rs, s) = (map_result (λ more. r ∷ more) rs, s)

-- The loop over the listed workers; `left` is the limit less the repairs made, and at least 1.
orphan_loop : ℕ → Option ℕ → List Worker → Exec World (List Reset)
orphan_loop now left [] s = (ok [], s)
orphan_loop now left (w ∷ rest) s =
    continue (orphan_reason now w s).0
      (λ why s₁. elim why [
        | none ↦ orphan_loop now left rest s₁
        | some reason ↦
            continue (reset_worker now w.worker_id reason true false s₁).0
              (λ r s₂. elim (is_spent (spend left)) [
                | true ↦ (ok (r ∷ []), s₂)
                | false ↦ prepend_reset r (orphan_loop now (spend left) rest s₂)
              ])
              (reset_worker now w.worker_id reason true false s₁).1
      ])
      (orphan_reason now w s).1

unfoldable pub repair_orphaned_workers : ℕ → Json → Exec World (List Reset)
unfolding orphan_loop
repair_orphaned_workers now limit = do
  left ← lift (normalize_optional_limit limit "repair_orphans.limit")
  λ s. orphan_loop now left (list_workers s) s
