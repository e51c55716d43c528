-- ===== src/Worker/Releases.antt =====
-- How the running of a job ends (runtime/worker.py, `run_claimed_job`): the job is completed or its
-- failure is recorded, and the worker is released either way.
use clarityos.Prelude.{
  ℕ, String, ◌≡◌, refl, ◌∙◌, ap, sym, subst, true, false, ◌==◌, none, some, arith, string_eq,
  option_eq,
}
use clarityos.Python.Errors.{Exception}
use clarityos.Python.Exec.{Result, ok, err, Exec}
use clarityos.Python.Json.{Json}
use clarityos.Python.Directory.{read}
use clarityos.Queue.Job.{status_eq}
use clarityos.Queue.History.{QueueJob}
use clarityos.Queue.Access.{Jobs}
use clarityos.Queue.Healthy.{IsHealthy}
use clarityos.Queue.Loading.{Replaces, loaded, load_job-Replaces}
use clarityos.Queue.Moves.{
  after_completion, complete_job-Moves, after_failure, record_job_failure-Moves,
  record_job_failure-overflows, is_recorded, overflow_of,
}
use clarityos.Worker.Record.{Worker, idle, without_details, worker_summary}
use clarityos.Worker.World.{World, changed_worker}
use clarityos.Worker.Claim.{freed}
use clarityos.Queue.Lifecycle.{complete_job, record_job_failure}
use clarityos.Worker.Run.{fail_job, release_worker, attempt, recover, finally_release, execute}
use clarityos.Worker.Updates.{PutsWorker, update_worker-Puts}

-- A worker that may take a job.
pub record IsFree (w : Worker) : Type 0 where
  pub status : w.status ≡ idle
  pub no_job : w.current_job_id ≡ none

abbrev pub released : ℕ → Worker → Worker
released now w = changed_worker now (some "job_released") without_details freed w

pub released-IsFree : (now : ℕ) (w : Worker) → IsFree (released now w)
unfolding changed_worker worker_summary
released-IsFree now w = record { status = ground arith; no_job = refl }

module _ (now : ℕ) (id : String) (w : Worker) where
  pub release_worker-Puts :
      (s : World)
      → read id s.workers ≡ some w
      → ((release_worker now id s).0 ≡ ok (released now w))
        × PutsWorker id (released now w) s (release_worker now id s).1
  unfolding release_worker
  release_worker-Puts s found =
      update_worker-Puts now id (some "job_released") without_details freed s w found

  -- The `finally` block lets the result through, and frees the worker.
  finally_release-frees :
      (dispatch : QueueJob → Exec World Json) (r : Result QueueJob) (s : World)
      → read id s.workers ≡ some w
      → ((finally_release dispatch now id (r, s)).0 ≡ r)
        × PutsWorker id (released now w) s (finally_release dispatch now id (r, s)).1
  unfolding finally_release
  finally_release-frees dispatch r s found =
      rw (release_worker-Puts s found).0 (refl, (release_worker-Puts s found).1)

-- The workflow that the job runs leaves the worker's file alone.
abbrev pub LeavesWorker : String → (QueueJob → Exec World Json) → Type 0
LeavesWorker id dispatch =
    (job : QueueJob) (s : World) → read id (dispatch job s).1.workers ≡ read id s.workers

-- What is there when the run of `job` by the worker `id` is over: `answer` is returned or raised, `final`
-- is the stored job, the workflow left the other jobs as they are, and the worker is free.
pub record Ends (id : String) (job_id : String) (answer : Result QueueJob) (final : QueueJob)
    (left : Jobs) (now : ℕ) (w : Worker) (s : World) (m : Exec World QueueJob) : Type 0 where
  pub returned : (m s).0 ≡ answer
  pub healthy : IsHealthy (m s).1.jobs
  pub stored : read job_id (m s).1.jobs ≡ some final
  pub others : (k : String) → (job_id == k) ≡ false → read k (m s).1.jobs ≡ read k left
  pub worker : read id (m s).1.workers ≡ some (released now w)

module _ (dispatch : QueueJob → Exec World Json) (now : ℕ) (id : String) (w : Worker)
    (job_id : String) (job : QueueJob) (s : World) (leaves : LeavesWorker id dispatch)
    (found : read id s.workers ≡ some w) (j : QueueJob)
    (there : read job_id (dispatch job s).1.jobs ≡ some j)
    (h : IsHealthy (dispatch job s).1.jobs) where
  abbrev after : World
  after = (dispatch job s).1

  worker_kept : read id after.workers ≡ some w
  worker_kept = leaves job s ∙ found

  Ends-with :
      (final : QueueJob) (r : Result QueueJob) (d : Jobs)
      → (execute dispatch now id job_id job s
          ≡ finally_release dispatch now id (r, record after { jobs = d }))
      → Replaces job_id final after.jobs d
      → Ends id job_id r final after.jobs now w s (execute dispatch now id job_id job)
  Ends-with final r d e replaced =
      let (out, puts) =
        finally_release-frees now id w dispatch r (record after { jobs = d }) worker_kept in
      record {
        returned = rw e out;
        healthy = rw e (subst IsHealthy (sym puts.same_jobs) replaced.healthy);
        stored = rw e (ap (λ x. read job_id x) puts.same_jobs ∙ replaced.stored);
        others = λ k other. rw e (ap (λ x. read k x) puts.same_jobs ∙ replaced.others k other);
        worker = rw e puts.stored;
      }

  completes :
      (outcome : Json) {final : QueueJob}
      → (dispatch job s).0 ≡ ok outcome
      → (complete_job now job_id outcome after.jobs).0 ≡ ok final
      → recover dispatch now job_id (attempt dispatch now job_id job s)
        ≡ (ok final, record after { jobs = (complete_job now job_id outcome after.jobs).1 })
  unfolding attempt recover
  completes outcome fine good = rw fine (rw good refl)

  fails :
      (exc : Exception) {final : QueueJob}
      → (dispatch job s).0 ≡ err exc
      → (record_job_failure now job_id exc after.jobs).0 ≡ ok final
      → recover dispatch now job_id (attempt dispatch now job_id job s)
        ≡ (ok final, record after { jobs = (record_job_failure now job_id exc after.jobs).1 })
  unfolding attempt recover fail_job
  fails exc failed good = rw failed (rw good refl)

  overflows :
      (exc : Exception) {e : Exception}
      → (dispatch job s).0 ≡ err exc
      → (record_job_failure now job_id exc after.jobs).0 ≡ err e
      → recover dispatch now job_id (attempt dispatch now job_id job s)
        ≡ (err e, record after { jobs = (record_job_failure now job_id exc after.jobs).1 })
  unfolding attempt recover fail_job
  overflows exc failed bad = rw failed (rw bad refl)

  -- Where the workflow leaves the worker's file alone and a healthy queue with the job in it
  -- behind, and returns: `run_claimed_job` from its `try` on returns and stores the job completed
  -- with the workflow's result, in a healthy queue, and the worker is stored as released.
  pub execute-completes :
      (outcome : Json)
      → (dispatch job s).0 ≡ ok outcome
      → Ends id job_id
          (ok (after_completion now job_id h j there outcome))
          (after_completion now job_id h j there outcome)
          (dispatch job s).1.jobs
          now
          w
          s
          (execute dispatch now id job_id job)
  unfolding execute
  execute-completes outcome fine =
      let (good, replaced) = complete_job-Moves now job_id h j there outcome in
      Ends-with _ (ok _) _ (ap (finally_release dispatch now id) (completes outcome fine good))
        replaced

  -- Where the workflow leaves the worker's file alone and a healthy queue with the job in it
  -- behind, and raises: `run_claimed_job` from its `try` on returns and stores the job with its
  -- failure recorded, in a healthy queue, and the worker is stored as released. Only if an attempt
  -- is left and its time is behind the year 9999, an OverflowError takes the place of the result: the
  -- job is then stored as its loading leaves it, and the worker is released all the same.
  pub execute-fails :
      (exc : Exception)
      → (dispatch job s).0 ≡ err exc
      → (is_recorded now j ≡ true
          → Ends id job_id
              (ok (after_failure now job_id h j there exc))
              (after_failure now job_id h j there exc)
              (dispatch job s).1.jobs
              now
              w
              s
              (execute dispatch now id job_id job))
        × (is_recorded now j ≡ false
            → Ends id job_id
                (err (overflow_of j))
                (loaded now j)
                (dispatch job s).1.jobs
                now
                w
                s
                (execute dispatch now id job_id job))
  unfolding execute
  execute-fails exc failed = (
    λ recorded.
        let (good, replaced) = record_job_failure-Moves now job_id h j there exc recorded in
        Ends-with _ (ok _) _ (ap (finally_release dispatch now id) (fails exc failed good))
          replaced,
    λ late.
        let stopped = record_job_failure-overflows now job_id h j there exc late in
        Ends-with (loaded now j) (err (overflow_of j)) _
          (ap (finally_release dispatch now id) (overflows exc failed (ap (λ r. r.0) stopped)))
          (subst (λ r. Replaces job_id (loaded now j) after.jobs r.1) (sym stopped)
            (load_job-Replaces now job_id h j there).1),
  )
