-- ===== src/Worker/World.antt =====
-- The directories of jobs and workers together, and the reads and writes of a worker (runtime/worker.py).
use clarityos.Prelude.{
  ℕ, suc, ◌+◌, String, ◌<>◌, Bool, ◌&&◌, Option, none, some, List, [], str_ltb, if◌then◌else◌,
}
use clarityos.Prelude.Int.{ℤ, pos}
use clarityos.Prelude.Sort.{sort_by}
use clarityos.Python.Errors.{Exception, value_error, file_not_found}
use clarityos.Python.Exec.{Result, ok, err, Exec, raise, ◌>>=◌}
use clarityos.Python.Json.{Json, as_int}
use clarityos.Python.Directory.{Directory, files, read, write}
use clarityos.Queue.Job.{seconds}
use clarityos.Queue.Access.{Jobs}
use clarityos.Worker.Record.{
  Worker, idle, WorkerDetails, without_details, holds_job, worker_summary, worker_lease_expired,
  build_worker_transition_history,
}

pub record World : Type 0 where
  pub jobs : Jobs
  pub workers : Directory Worker

-- An operation of the queue, in the world.
abbrev pub on_jobs : {A : Type 0} → Exec Jobs A → Exec World A
on_jobs m s = ((m s.jobs).0, record s { jobs = (m s.jobs).1 })

unfoldable pub write_worker : ℕ → Worker → Exec World Worker
write_worker now w s =
    let summary = worker_summary now w in
    let written = record summary {
      transition_history =
          build_worker_transition_history (read w.worker_id s.workers) summary none without_details;
    } in
    (ok written, record s { workers = write w.worker_id written s.workers })

abbrev pub name_or_default : Option String → String
name_or_default none = "worker"
name_or_default (some String.[]) = "worker"
name_or_default (some n) = n

-- The record of a new worker.
unfoldable pub new_worker : ℕ → String → Option String → ℕ → Worker
new_worker now worker_id name lease_seconds = record {
  worker_id = worker_id;
  name = name_or_default name;
  status = idle;
  lease_seconds = lease_seconds;
  last_heartbeat_at = now;
  lease_expires_at = now + seconds lease_seconds;
  current_job_id = none;
  transition_history = [];
  created_at = now;
  updated_at = now;
}

register : ℕ → String → Option String → Option ℤ → Exec World Worker
register now worker_id name (some (pos (suc n))) =
    write_worker now (new_worker now worker_id name (suc n))
register now worker_id name _ =
    raise (value_error "Worker `lease_seconds` must be a positive integer")

-- `worker_id` is the id that `uuid.uuid4` draws.
unfoldable pub register_worker : ℕ → String → Option String → Json → Exec World Worker
unfolding register
register_worker now worker_id name lease_seconds =
    register now worker_id name (as_int lease_seconds)

found_worker : String → Option Worker → Result Worker
found_worker worker_id none = err (file_not_found ("Worker not found: " <> worker_id))
found_worker worker_id (some w) = ok w

unfoldable pub load_worker : String → World → Result Worker
unfolding found_worker
load_worker worker_id s = found_worker worker_id (read worker_id s.workers)

-- `{**worker, **changes, "updated_at": …}`, summarized, with its new history
unfoldable pub changed_worker :
    ℕ → Option String → WorkerDetails → (Worker → Worker) → Worker → Worker
changed_worker now reason details changes worker =
    let summary = worker_summary now (record (changes worker) { updated_at = now }) in
    record summary {
      transition_history = build_worker_transition_history (some worker) summary reason details;
    }

update_loaded :
    ℕ
    → String
    → Option String
    → WorkerDetails
    → (Worker → Worker)
    → Result Worker
    → Exec World Worker
update_loaded now worker_id _ _ changes (err e) s = (err e, s)
update_loaded now worker_id reason details changes (ok worker) s =
    let updated = changed_worker now reason details changes worker in
    (ok updated, record s { workers = write worker_id updated s.workers })

unfoldable pub update_worker :
    ℕ → String → Option String → WorkerDetails → (Worker → Worker) → Exec World Worker
unfolding update_loaded
update_worker now worker_id reason details changes s =
    update_loaded now worker_id reason details changes (load_worker worker_id s) s

abbrev pub text_or : String → Option String → String
text_or other none = other
text_or other (some t) = t

abbrev pub renewed : ℕ → ℕ → Worker → Worker
renewed now lease_seconds w = record w {
  last_heartbeat_at = now;
  lease_expires_at = now + seconds lease_seconds;
}

abbrev pub lease_lost : String → Worker → Exception
lease_lost worker_id w = value_error (
    "Worker `"
    <> worker_id
    <> "` lease expired while holding job `"
    <> text_or "None" w.current_job_id
    <> "`")

unfoldable pub heartbeat_loaded : ℕ → String → Worker → Exec World Worker
heartbeat_loaded now worker_id w s =
    if worker_lease_expired now w && holds_job w
    then (err (lease_lost worker_id w), s)
    else update_worker now worker_id (some "heartbeat") without_details
        (renewed now w.lease_seconds) s

unfoldable pub heartbeat_worker : ℕ → String → Exec World Worker
unfolding heartbeat_loaded
heartbeat_worker now worker_id = do
  w ← (λ s. (load_worker worker_id s, s))
  heartbeat_loaded now worker_id w

-- The order of the paths `{worker_id}.json`.
path_before : Worker → Worker → Bool
path_before a b = str_ltb (a.worker_id <> ".json") (b.worker_id <> ".json")

unfoldable pub list_workers : World → List Worker
unfolding path_before
list_workers s = sort_by path_before (files s.workers)
