-- ===== src/Worker/Examples.antt =====
-- The theorems of the workers at a small world.
use clarityos.Prelude.{
  ◌+◌, inl, true, false, String, ◌≡◌, refl, none, some, List, [], ◌∷◌, arith, if◌then◌else◌,
  string_eq,
}
use clarityos.Python.Errors.{timeout_error}
use clarityos.Python.Exec.{for_each, Result, ok, err, Exec}
use clarityos.Python.Json.{Json, str}
use clarityos.Python.Directory.{read}
use clarityos.Queue.History.{QueueJob}
use clarityos.Queue.Access.{
  list_jobs, load_all, load_job_snapshot, job_lease_expired, promote_due_jobs,
}
use clarityos.Queue.Moves.{after_completion, after_failure, is_recorded, overflow_of}
use clarityos.Queue.Loading.{loaded}
use clarityos.Queue.Healthy.{IsHealthy, IsHealthy-read}
use clarityos.Queue.Rewrites.{on_some}
use clarityos.Queue.Samples.{
  waiting_job, read_waiting, sample_jobs, sample_jobs-IsHealthy, running_job, read_running,
}
use clarityos.Worker.Record.{Worker, idle, busy, worker_lease_expired}
use clarityos.Worker.World.{World, load_worker, update_worker, heartbeat_worker}
use clarityos.Worker.Claim.{reclaim_expired_leases, claim_next_job}
use clarityos.Worker.Run.{execute, run_next_job}
use clarityos.Worker.Updates.{PutsWorker, IsRenewed, heartbeat_worker-renews}
use clarityos.Worker.Reclaims.{KeepsFree, reclaimed, reclaim_expired_leases_lem}
use clarityos.Worker.Claims.{ready_world, ClaimEnds, claim_next_job_lem}
use clarityos.Worker.Loop.{LoopArguments, LoopSummary, parse_arguments, run_worker_loop}
use clarityos.Worker.LoopEnds.{limits, SummaryFits, run_worker_loop-ends}
use clarityos.Worker.Deliveries.{KeepsOrder, RunsBest, run_next_job-RunsBest}
use clarityos.Prelude.Int.{pos}
use clarityos.Prelude.Sort.{sort_by}
use clarityos.Worker.Releases.{LeavesWorker, Ends, execute-completes, execute-fails}

-- A worker that has no job, and the worker that runs the job "c".
abbrev free_worker : Worker
free_worker = record {
  worker_id = "f";
  name = "worker";
  status = idle;
  lease_seconds = 60;
  last_heartbeat_at = 5;
  lease_expires_at = 60000005;
  current_job_id = none;
  transition_history = [];
  created_at = 5;
  updated_at = 5;
}

abbrev busy_worker : Worker
busy_worker = record free_worker {
  worker_id = "w";
  status = busy;
  lease_expires_at = 60;
  current_job_id = some "c";
}

abbrev sample_world : World
sample_world = record { jobs = sample_jobs; workers = ("f", free_worker) ∷ ("w", busy_worker) ∷ [] }

read_free : read "f" sample_world.workers ≡ some free_worker
unfolding read
read_free = refl

read_busy : read "w" sample_world.workers ≡ some busy_worker
unfolding read
read_busy = refl

heartbeat_worker-renews_example :
    (w' : Worker) × ((heartbeat_worker 50 "w" sample_world).0 ≡ ok w')
    × PutsWorker "w" w' sample_world (heartbeat_worker 50 "w" sample_world).1
    × IsRenewed 50 busy_worker w'
unfolding worker_lease_expired
heartbeat_worker-renews_example =
    heartbeat_worker-renews 50 "w" sample_world busy_worker read_busy (ground arith) refl

reclaim_expired_leases_lem_example :
    (ids : List String) × ((reclaim_expired_leases 90 sample_world).0 ≡ ok ids)
    × IsHealthy (reclaim_expired_leases 90 sample_world).1.jobs
    × ((k : String)
        → read k (reclaim_expired_leases 90 sample_world).1.jobs
          ≡ on_some
              (λ j. if job_lease_expired 90 j then reclaimed 90 j else j)
              (read k (promote_due_jobs 90 none sample_jobs).1))
    × KeepsFree sample_world (reclaim_expired_leases 90 sample_world).1
reclaim_expired_leases_lem_example =
    reclaim_expired_leases_lem 90 sample_world sample_jobs-IsHealthy

claim_next_job_lem_example :
    (w' : Worker) × IsRenewed 90 free_worker w'
    × ClaimEnds 90 "f" w'
        (ready_world 90 "f" sample_world).jobs
        (ready_world 90 "f" sample_world)
        (claim_next_job 90 "f" sample_world)
claim_next_job_lem_example =
    claim_next_job_lem 90 "f" sample_world free_worker sample_jobs-IsHealthy read_free
      (ground arith) refl

-- A workflow that returns, and one that raises.
abbrev returns : QueueJob → Exec World Json
returns job s = (ok (str "done"), s)

abbrev raises : QueueJob → Exec World Json
raises job s = (err (timeout_error "late"), s)

returns-LeavesWorker : LeavesWorker "w" returns
returns-LeavesWorker job s = refl

raises-LeavesWorker : LeavesWorker "w" raises
raises-LeavesWorker job s = refl

execute-completes_example :
    Ends "w" "c"
      (ok (after_completion 50 "c" sample_jobs-IsHealthy running_job read_running (str "done")))
      (after_completion 50 "c" sample_jobs-IsHealthy running_job read_running (str "done"))
      sample_jobs
      50
      busy_worker
      sample_world
      (execute returns 50 "w" "c" running_job)
execute-completes_example =
    execute-completes returns 50 "w" busy_worker "c" running_job sample_world returns-LeavesWorker
      read_busy running_job read_running sample_jobs-IsHealthy (str "done") refl

execute-fails_example :
    (is_recorded 50 running_job ≡ true
      → Ends "w" "c"
          (ok (
            after_failure 50 "c" sample_jobs-IsHealthy running_job read_running
              (timeout_error "late")))
          (after_failure 50 "c" sample_jobs-IsHealthy running_job read_running
            (timeout_error "late"))
          sample_jobs
          50
          busy_worker
          sample_world
          (execute raises 50 "w" "c" running_job))
    × (is_recorded 50 running_job ≡ false
        → Ends "w" "c"
            (err (overflow_of running_job))
            (loaded 50 running_job)
            sample_jobs
            50
            busy_worker
            sample_world
            (execute raises 50 "w" "c" running_job))
execute-fails_example =
    execute-fails raises 50 "w" busy_worker "c" running_job sample_world raises-LeavesWorker
      read_busy running_job read_running sample_jobs-IsHealthy (timeout_error "late") refl

returns-KeepsOrder : KeepsOrder "f" returns
returns-KeepsOrder = record {
  leaves = λ job s. refl;
  healthy = λ job s h. h;
  holds = λ job s there. (job, there);
}

-- A queue in which one job waits.
abbrev waiting_world : World
waiting_world = record { jobs = ("a", waiting_job) ∷ []; workers = ("f", free_worker) ∷ [] }

waiting-IsHealthy : IsHealthy waiting_world.jobs
waiting-IsHealthy = record {
  names = (unfold read in refl, tt);
  jobs = (IsHealthy-read "a" waiting_job sample_jobs-IsHealthy read_waiting, tt);
}

still_waiting : (ready_world 90 "f" waiting_world).jobs ≡ ("a", waiting_job) ∷ []
unfolding reclaim_expired_leases list_jobs promote_due_jobs load_all heartbeat_worker load_worker
    read load_job_snapshot for_each sort_by worker_lease_expired update_worker
still_waiting = refl

run_next_job-RunsBest_example :
    RunsBest returns 90 "f"
      (ready_world 90 "f" waiting_world).jobs
      (run_next_job returns 90 "f" waiting_world)
run_next_job-RunsBest_example =
    run_next_job-RunsBest returns 90 "f" returns-KeepsOrder waiting_world free_worker waiting_job
      waiting-IsHealthy (unfold read in refl) (omega arith) refl (rw still_waiting (inl refl)) refl

abbrev loop_arguments : LoopArguments
loop_arguments = record {
  worker_name = none;
  lease_seconds = pos 60;
  poll_seconds = pos 2;
  max_jobs = some (pos 2);
  max_idle_polls = some (pos 3);
  repair_orphans_on_start = true;
}

parsed_arguments : parse_arguments loop_arguments ≡ ok (60, limits 2 3)
unfolding parse_arguments
parsed_arguments = refl

run_worker_loop-ends_example :
    (r : Result LoopSummary) × (s : World) × (run_worker_loop returns
        (λ n. 100 + n)
        (λ n. 200 + n)
        (λ n s. s)
        "g"
        13
        90
        loop_arguments
        sample_world
      ≡ some (r, s))
    × SummaryFits 2 3 r
run_worker_loop-ends_example =
    run_worker_loop-ends returns (λ n. 100 + n) (λ n. 200 + n) (λ n s. s) "g" 2 3 loop_arguments 60
      parsed_arguments 13 (omega arith) 90 sample_world
