-- ===== src/Worker/Updates.antt =====
-- What updates, heartbeats and releases do to the stored worker (runtime/worker.py).
use clarityos.Prelude.{
  ℕ, ◌+◌, ◌<◌, String, ◌≡◌, refl, true, false, Option, none, some, arith, ltb, ◌==◌, ==_refl,
  string_eq, ◌&&◌,
}
use clarityos.Python.Exec.{ok}
use clarityos.Python.Directory.{read, write, read-write}
use clarityos.Queue.Job.{seconds}
use clarityos.Worker.Record.{
  Worker, WorkerDetails, without_details, holds_job, worker_summary, worker_lease_expired,
}
use clarityos.Worker.World.{
  World, load_worker, changed_worker, update_worker, renewed, heartbeat_loaded, heartbeat_worker,
}

-- Only the file of `id` differs, and it holds `w`.
pub record PutsWorker (id : String) (w : Worker) (s s' : World) : Type 0 where
  pub stored : read id s'.workers ≡ some w
  pub others : (k : String) → (id == k) ≡ false → read k s'.workers ≡ read k s.workers
  pub same_jobs : s'.jobs ≡ s.jobs

module _ (now : ℕ) (id : String) (reason : Option String) (details : WorkerDetails)
    (changes : Worker → Worker) (s : World) where
  pub update_worker-missing :
      read id s.workers ≡ none → (update_worker now id reason details changes s).1 ≡ s
  unfolding update_worker load_worker
  update_worker-missing e = rw e refl

  pub update_worker-found :
      (w : Worker)
      → read id s.workers ≡ some w
      → update_worker now id reason details changes s ≡ (
        ok (changed_worker now reason details changes w),
        record s { workers = write id (changed_worker now reason details changes w) s.workers },
      )
  unfolding update_worker load_worker
  update_worker-found w found = rw found refl

  pub update_worker-Puts :
      (w : Worker)
      → read id s.workers ≡ some w
      → ((update_worker now id reason details changes s).0
          ≡ ok (changed_worker now reason details changes w))
        × PutsWorker id
            (changed_worker now reason details changes w)
            s
            (update_worker now id reason details changes s).1
  update_worker-Puts w found = rw (update_worker-found w found) (
    refl,
    record {
      stored = rw (read-write, ==_refl id) refl;
      others = λ k other. rw (read-write, other) refl;
      same_jobs = refl;
    },
  )

-- The worker after a heartbeat.
abbrev beaten : ℕ → Worker → Worker
beaten now w = changed_worker now (some "heartbeat") without_details (renewed now w.lease_seconds) w

beaten-keeps :
    (now : ℕ) (w : Worker)
    → 0 < w.lease_seconds
    → ((beaten now w).current_job_id ≡ w.current_job_id)
      × ((beaten now w).status ≡ w.status)
      × ((beaten now w).lease_seconds ≡ w.lease_seconds)
      × ((beaten now w).lease_expires_at ≡ now + seconds w.lease_seconds)
unfolding changed_worker worker_summary worker_lease_expired
beaten-keeps now w positive = (refl, ground arith, refl, refl)

valid_until :
    (later : ℕ) (w : Worker)
    → ltb later w.lease_expires_at ≡ true
    → worker_lease_expired later w ≡ false
unfolding worker_lease_expired
valid_until later w h = ground arith

-- What a heartbeat leaves: the same job and status, and a lease for the full time.
pub record IsRenewed (now : ℕ) (w w' : Worker) : Type 0 where
  pub same_job : w'.current_job_id ≡ w.current_job_id
  pub same_status : w'.status ≡ w.status
  pub same_seconds : w'.lease_seconds ≡ w.lease_seconds
  pub valid :
      (later : ℕ)
      → ltb later (now + seconds w.lease_seconds) ≡ true
      → worker_lease_expired later w' ≡ false

module _ (now : ℕ) (id : String) (s : World) (w : Worker) (found : read id s.workers ≡ some w) where
  -- A heartbeat of a stored worker with a positive lease time, whose lease is not over or who
  -- holds no job, returns and writes the worker and nothing else: it keeps its job, status and
  -- lease time, and its lease is valid until that time has passed.
  pub heartbeat_worker-renews :
      0 < w.lease_seconds
      → (worker_lease_expired now w && holds_job w) ≡ false
      → (w' : Worker) × ((heartbeat_worker now id s).0 ≡ ok w')
        × PutsWorker id w' s (heartbeat_worker now id s).1
        × IsRenewed now w w'
  unfolding heartbeat_worker load_worker heartbeat_loaded
  heartbeat_worker-renews positive in_time =
      let (returned, puts) =
        update_worker-Puts now id (some "heartbeat") without_details (renewed now w.lease_seconds) s
          w found in
      let (job, status, same, lease) = beaten-keeps now w positive in
      (
        beaten now w,
        rw found (rw in_time returned),
        rw found (rw in_time puts),
        record {
          same_job = job;
          same_status = status;
          same_seconds = same;
          valid = λ later h. valid_until later (beaten now w) (rw lease h);
        },
      )
