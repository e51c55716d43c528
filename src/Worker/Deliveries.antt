-- ===== src/Worker/Deliveries.antt =====
-- That a worker runs what it claims (runtime/worker.py, `run_next_job` and `run_claimed_job`): a ready
-- job does not wait for a free worker.
use clarityos.Prelude.{
  ℕ, ◌+◌, ◌<◌, String, ◌≡◌, refl, ◌∙◌, ap, sym, subst, false, Bool-cases, Option, none, some, arith,
  ◌==◌, ==_refl, string_eq, option_eq, In, inl, inr,
}
use clarityos.Python.Errors.{Exception}
use clarityos.Python.Exec.{Result, ok, err, Exec, map_result, result_cases}
use clarityos.Python.Json.{Json}
use clarityos.Python.Directory.{files, read}
use clarityos.Queue.Job.{queued, running, completed, canceled, status_eq, seconds}
use clarityos.Queue.History.{QueueJob}
use clarityos.Queue.Access.{Jobs, apply_changes, load_job, job_lease_expired}
use clarityos.Queue.Lifecycle.{completed_with}
use clarityos.Queue.Healthy.{IsHealthy}
use clarityos.Queue.Loading.{loaded, load_job-Replaces}
use clarityos.Queue.Moves.{after_completion, is_recorded, overflow_of}
use clarityos.Queue.Retries.{IsFailureOf, after_failure-fits}
use clarityos.Worker.Record.{Worker, worker_lease_expired}
use clarityos.Worker.World.{World, load_worker, heartbeat_worker}
use clarityos.Worker.Claim.{claim_next_job}
use clarityos.Worker.Run.{execute, run_loaded, run_claimed_job, run_if_claimed, run_next_job}
use clarityos.Worker.Updates.{heartbeat_worker-renews}
use clarityos.Worker.Claims.{
  IsClaim, IsBest, ClaimEnds, nothing_ready, claims, ready_world, claim_next_job_lem,
}
use clarityos.Worker.Releases.{
  IsFree, released, released-IsFree, LeavesWorker, Ends, execute-completes, execute-fails,
}

-- The workflow of a job leaves the worker's own file alone, and in a healthy queue a healthy queue that
-- still holds the job.
pub record KeepsOrder (id : String) (dispatch : QueueJob → Exec World Json) : Type 0 where
  pub leaves : LeavesWorker id dispatch
  pub healthy : (job : QueueJob) (s : World) → IsHealthy s.jobs → IsHealthy (dispatch job s).1.jobs
  pub holds :
      (job : QueueJob) (s : World)
      → read job.job_id s.jobs ≡ some job
      → (j : QueueJob) × (read job.job_id (dispatch job s).1.jobs ≡ some j)

-- How the run of the job `c` ends that starts its workflow in the world `s`: what is returned or raised,
-- and what is stored, is decided by what the workflow does. `j` is the job that the workflow leaves.
pub data RunEnds (dispatch : QueueJob → Exec World Json) (now : ℕ) (c : QueueJob) (s : World)
    (answer : Result QueueJob) (d : Jobs) : Type 0 where
  completes :
      (outcome : Json)
      → (dispatch c s).0 ≡ ok outcome
      → (final : QueueJob) → answer ≡ ok final
      → read c.job_id d ≡ some final
      → final.status ≡ completed
      → final.result ≡ some outcome
      → final.error ≡ none
      → RunEnds dispatch now c s answer d
  fails :
      (exc : Exception)
      → (dispatch c s).0 ≡ err exc
      → (j final : QueueJob) → read c.job_id (dispatch c s).1.jobs ≡ some j
      → answer ≡ ok final
      → read c.job_id d ≡ some final
      → IsFailureOf now exc j final
      → RunEnds dispatch now c s answer d
  overflows :
      (exc : Exception)
      → (dispatch c s).0 ≡ err exc
      → (j : QueueJob) → read c.job_id (dispatch c s).1.jobs ≡ some j
      → is_recorded now j ≡ false
      → answer ≡ err (overflow_of j)
      → read c.job_id d ≡ some (loaded now j)
      → RunEnds dispatch now c s answer d

after_completion-result :
    (now : ℕ) (id : String) {d : Jobs} (h : IsHealthy d) (j : QueueJob) (found : read id d ≡ some j)
    (outcome : Json)
    → ((after_completion now id h j found outcome).status ≡ completed)
      × ((after_completion now id h j found outcome).result ≡ some outcome)
      × ((after_completion now id h j found outcome).error ≡ none)
unfolding after_completion apply_changes completed_with
after_completion-result now id h j found outcome = (refl, refl, refl)

-- The worker `id` ran the job `c`, which was stored in `d`: the workflow was started with the job in a
-- world in which it is stored and the other jobs are as in `d`. The worker is free again.
pub record Serves (dispatch : QueueJob → Exec World Json) (now : ℕ) (id : String) (c : QueueJob)
    (d : Jobs) (r : Result QueueJob × World) : Type 0 where
  pub start : World
  pub worker : Worker
  pub there : read c.job_id start.jobs ≡ some c
  pub before : (k : String) → (c.job_id == k) ≡ false → read k start.jobs ≡ read k d
  pub ends : RunEnds dispatch now c start r.0 r.1.jobs
  pub others :
      (k : String) → (c.job_id == k) ≡ false → read k r.1.jobs ≡ read k (dispatch c start).1.jobs
  pub healthy : IsHealthy r.1.jobs
  pub kept : read id r.1.workers ≡ some worker
  pub is_free : IsFree worker

module _ (dispatch : QueueJob → Exec World Json) (now : ℕ) (id : String)
    (keeps : KeepsOrder id dispatch) where
  Ends-Serves :
      (c final : QueueJob) (answer : Result QueueJob) (w : Worker) (s : World)
      (m : Exec World QueueJob)
      → read c.job_id s.jobs ≡ some c
      → Ends id c.job_id answer final (dispatch c s).1.jobs now w s m
      → RunEnds dispatch now c s (m s).0 (m s).1.jobs
      → Serves dispatch now id c s.jobs (m s)
  Ends-Serves c final answer w s m there e run = record {
    start = s;
    worker = released now w;
    there = there;
    before = λ k other. refl;
    ends = run;
    others = e.others;
    healthy = e.healthy;
    kept = e.worker;
    is_free = released-IsFree now w;
  }

  module _ (w : Worker) (c : QueueJob) (s : World) (found : read id s.workers ≡ some w)
      (h : IsHealthy s.jobs) (there : read c.job_id s.jobs ≡ some c) where
    abbrev executes : Exec World QueueJob
    executes = execute dispatch now id c.job_id c

    completes-Serves :
        (outcome : Json)
        → (dispatch c s).0 ≡ ok outcome
        → Serves dispatch now id c s.jobs (executes s)
    completes-Serves outcome fine =
        let (j, held) = keeps.holds c s there in
        let e =
          execute-completes dispatch now id w c.job_id c s keeps.leaves found j held
            (keeps.healthy c s h) outcome fine in
        let (status, result, error) =
          after_completion-result now c.job_id (keeps.healthy c s h) j held outcome in
        Ends-Serves c _ _ w s executes there e
          (completes outcome fine _ e.returned e.stored status result error)

    fails-Serves :
        (exc : Exception)
        → (dispatch c s).0 ≡ err exc
        → Serves dispatch now id c s.jobs (executes s)
    fails-Serves exc failed =
        let (j, held) = keeps.holds c s there in
        let (recorded, lost) =
          execute-fails dispatch now id w c.job_id c s keeps.leaves found j held
            (keeps.healthy c s h) exc failed in
        elim (Bool-cases (is_recorded now j)) [
          | inl kept ↦ Ends-Serves c _ _ w s executes there (recorded kept) (
              fails exc failed j _ held (recorded kept).returned (recorded kept).stored
                (after_failure-fits now c.job_id (keeps.healthy c s h) j held exc))
          | inr missed ↦
              Ends-Serves c _ _ w s executes there (lost missed)
                (overflows exc failed j held missed (lost missed).returned (lost missed).stored)
        ]

    execute-Serves : Serves dispatch now id c s.jobs (executes s)
    execute-Serves = elim (result_cases (dispatch c s).0) [
      | inl (outcome, fine) ↦ completes-Serves outcome fine
      | inr (exc, failed) ↦ fails-Serves exc failed
    ]

  -- A job that runs is not due, so its loading changes nothing.
  loaded-running : (j : QueueJob) → j.status ≡ running → loaded now j ≡ j
  unfolding loaded
  loaded-running j runs = ground arith

  not_lost :
      (j : QueueJob) (until : ℕ)
      → j.lease_expires_at ≡ some until
      → now < until
      → job_lease_expired now j ≡ false
  unfolding job_lease_expired
  not_lost j until lease more = ground arith

  worker_in_time :
      (w : Worker) (until : ℕ)
      → w.lease_expires_at ≡ until
      → now < until
      → worker_lease_expired now w ≡ false
  unfolding worker_lease_expired
  worker_in_time w until lease more = ground arith

  -- The checks of `run_claimed_job` on the loaded job let a claimed job through.
  run_loaded-Serves :
      (w : Worker) (c : QueueJob) (s : World)
      → read id s.workers ≡ some w
      → IsHealthy s.jobs
      → read c.job_id s.jobs ≡ some c
      → c.status ≡ running
      → c.worker_id ≡ some id
      → w.current_job_id ≡ some c.job_id
      → job_lease_expired now c ≡ false
      → Serves dispatch now id c s.jobs (run_loaded dispatch now id c.job_id w c s)
  unfolding run_loaded
  run_loaded-Serves w c s found h there runs owner holds fresh = rw (ap (λ t. t == canceled) runs) (
      rw (ap (λ o. o == some c.job_id) holds, ==_refl c.job_id)
        (rw (ap (λ t. t == running) runs) (
          rw (ap (λ o. o == some id) owner, ==_refl id)
            (rw fresh (execute-Serves w c s found h there)))))

  run_claimed_job-Serves :
      (w : Worker) (c : QueueJob) (s : World) (until lease : ℕ)
      → read id s.workers ≡ some w
      → IsHealthy s.jobs
      → read c.job_id s.jobs ≡ some c
      → c.status ≡ running
      → c.worker_id ≡ some id
      → c.lease_expires_at ≡ some until
      → w.current_job_id ≡ some c.job_id
      → w.lease_expires_at ≡ until
      → 0 < w.lease_seconds
      → now < until
      → Serves dispatch now id c s.jobs (run_claimed_job dispatch now id c.job_id s)
  unfolding run_claimed_job load_worker
  run_claimed_job-Serves w c s until lease found h there runs owner leased holds held positive
        more =
      let fresh = worker_in_time w until held more in
      let (w', beaten, puts, renewed) =
        heartbeat_worker-renews now id s w found positive (rw fresh refl) in
      let s' : World = (heartbeat_worker now id s).1 in
      let healthy = subst IsHealthy (sym puts.same_jobs) h in
      let there' = ap (λ d. read c.job_id d) puts.same_jobs ∙ there in
      let (loads, kept) = load_job-Replaces now c.job_id healthy c there' in
      let same = loaded-running c runs in
      rw found (
        rw fresh (
          rw beaten (
            rw (loads ∙ ap ok same) (
              from_before _ (λ k other. kept.others k other ∙ ap (λ d. read k d) puts.same_jobs)
                (run_loaded-Serves w' c (record s' { jobs = (load_job now c.job_id s'.jobs).1 })
                  puts.stored kept.healthy (kept.stored ∙ ap some same) runs owner
                  (renewed.same_job ∙ holds) (not_lost c until leased more))))))
    where
      from_before :
          {d : Jobs} (r : Result QueueJob × World)
          → ((k : String) → (c.job_id == k) ≡ false → read k d ≡ read k s.jobs)
          → Serves dispatch now id c d r
          → Serves dispatch now id c s.jobs r
      from_before r same served = record {
        start = served.start;
        worker = served.worker;
        there = served.there;
        before = λ k other. served.before k other ∙ same k other;
        ends = served.ends;
        others = served.others;
        healthy = served.healthy;
        kept = served.kept;
        is_free = served.is_free;
      }

-- What `run_next_job` leaves: `best`, a ready job that no ready job of `d` goes before, was run, as the
-- job `run` that the worker's claim made of it.
pub record RunsBest (dispatch : QueueJob → Exec World Json) (now : ℕ) (id : String) (d : Jobs)
    (r : Result (Option QueueJob) × World) : Type 0 where
  pub best : QueueJob
  pub run : QueueJob
  pub there : In best (files d)
  pub ready : best.status ≡ queued
  pub is_best : IsBest d best
  pub same_id : run.job_id ≡ best.job_id
  pub runs : run.status ≡ running
  pub owner : run.worker_id ≡ some id
  pub start : World
  pub started : read best.job_id start.jobs ≡ some run
  pub before : (k : String) → (best.job_id == k) ≡ false → read k start.jobs ≡ read k d
  pub answer : Result QueueJob
  pub returned : r.0 ≡ map_result some answer
  pub ends : RunEnds dispatch now run start answer r.1.jobs
  pub others :
      (k : String)
      → (best.job_id == k) ≡ false
      → read k r.1.jobs ≡ read k (dispatch run start).1.jobs
  pub healthy : IsHealthy r.1.jobs
  pub worker : Worker
  pub kept : read id r.1.workers ≡ some worker
  pub is_free : IsFree worker

module _ (dispatch : QueueJob → Exec World Json) (now : ℕ) (id : String)
    (keeps : KeepsOrder id dispatch) where
  claimed-Serves :
      (w : Worker) (j c : QueueJob) (after : Worker) (s : World)
      → 0 < w.lease_seconds
      → IsClaim now id w j c after
      → IsHealthy s.jobs
      → read j.job_id s.jobs ≡ some c
      → read id s.workers ≡ some after
      → Serves dispatch now id c s.jobs (run_claimed_job dispatch now id c.job_id s)
  claimed-Serves w j c after s positive is h stored found =
      run_claimed_job-Serves dispatch now id keeps after c s (now + seconds w.lease_seconds)
        w.lease_seconds found h (ap (λ i. read i s.jobs) is.same_id ∙ stored) is.runs is.owner
        is.lease (is.holds ∙ ap some (sym is.same_id)) is.worker_lease (rw is.same_seconds positive)
        (omega arith)

  then_runs :
      (w : Worker) (d : Jobs) (j c : QueueJob) (after : Worker) (s : World)
      → In j (files d)
      → j.status ≡ queued
      → IsBest d j
      → IsClaim now id w j c after
      → ((k : String) → (j.job_id == k) ≡ false → read k s.jobs ≡ read k d)
      → Serves dispatch now id c s.jobs (run_claimed_job dispatch now id c.job_id s)
      → RunsBest dispatch now id d (run_if_claimed dispatch now id (some c) s)
  unfolding run_if_claimed
  then_runs w d j c after s there ready best is same served =
      let key : (k : String) → (j.job_id == k) ≡ false → (c.job_id == k) ≡ false =
        λ k other. ap (λ i. i == k) is.same_id ∙ other in
      record {
        best = j;
        run = c;
        there = there;
        ready = ready;
        is_best = best;
        same_id = is.same_id;
        runs = is.runs;
        owner = is.owner;
        start = served.start;
        started = ap (λ i. read i served.start.jobs) (sym is.same_id) ∙ served.there;
        before = λ k other. served.before k (key k other) ∙ same k other;
        answer = (run_claimed_job dispatch now id c.job_id s).0;
        returned = refl;
        ends = served.ends;
        others = λ k other. served.others k (key k other);
        healthy = served.healthy;
        worker = served.worker;
        kept = served.kept;
        is_free = served.is_free;
      }

  -- In a world with a healthy queue, where a job is ready and the workflow of a job keeps order, a
  -- stored worker without a job does not leave it waiting: `run_next_job` claims a ready job that no
  -- ready job goes before, and starts its workflow with the claimed job, the other jobs being as
  -- they were. If the workflow returns, the job is returned and stored as completed with its result.
  -- If it raises, the job is returned and stored with this failure recorded; only where an attempt is
  -- left whose time is behind the year 9999, an OverflowError is raised and the failure is not
  -- recorded. The queue is healthy, every
  -- other job is as the workflow leaves it, and the worker is free again.
  pub run_next_job-RunsBest :
      (s : World) (w : Worker) (i : QueueJob)
      → IsHealthy s.jobs
      → read id s.workers ≡ some w
      → 0 < w.lease_seconds
      → w.current_job_id ≡ none
      → In i (files (ready_world now id s).jobs)
      → i.status ≡ queued
      → RunsBest dispatch now id (ready_world now id s).jobs (run_next_job dispatch now id s)
  unfolding run_next_job
  run_next_job-RunsBest s w i h found positive free there ready =
      let (w', renewed, ends) = claim_next_job_lem now id s w h found positive free in
      by_claim w' (rw renewed.same_seconds positive) ends
    where
      by_claim :
          (w' : Worker)
          → 0 < w'.lease_seconds
          → ClaimEnds now id w'
              (ready_world now id s).jobs
              (ready_world now id s)
              (claim_next_job now id s)
          → RunsBest dispatch now id (ready_world now id s).jobs (run_next_job dispatch now id s)
      by_claim w' more (nothing_ready _ idle _) = absurd (idle i there ready)
      by_claim w' more (claims j c after is held waits best returned replaced stored others) =
          rw returned (
            then_runs w' _ j c after _ held waits best is replaced.others
              (claimed-Serves w' j c after _ more is replaced.healthy replaced.stored stored))
