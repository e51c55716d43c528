-- ===== src/Queue/Samples.antt =====
-- Small queues for the examples.
use clarityos.Prelude.{◌≡◌, refl, none, some, [], ◌∷◌, arith, string_eq, option_eq}
use clarityos.Prelude.Int.{pos}
use clarityos.Python.Json.{str, field, end}
use clarityos.Python.Directory.{read}
use clarityos.Queue.Job.{queued, running, dead_letter, workflow_start, type_eq, status_eq}
use clarityos.Queue.History.{QueueJob}
use clarityos.Queue.Access.{Jobs}
use clarityos.Queue.Sound.{IsSound}
use clarityos.Queue.Healthy.{IsHealthy}

-- A job that waits in the queue since 5 µs, with two attempts.
abbrev pub waiting_job : QueueJob
waiting_job = record {
  job_id = "a";
  job_type = workflow_start;
  status = queued;
  priority = pos 7;
  ready_at = 5;
  payload = field "agent" (str "writer") end;
  workflow_id = none;
  parent_job_id = none;
  idempotency_key = some "key";
  worker_id = none;
  claimed_at = none;
  lease_expires_at = none;
  reclaim_count = 0;
  last_requeue_reason = none;
  attempt_count = 0;
  max_attempts = 2;
  retry_backoff_seconds = 30;
  last_failure_at = none;
  next_retry_at = none;
  dead_lettered_at = none;
  canceled_at = none;
  cancel_reason = none;
  result = none;
  error = none;
  transition_history = [];
  created_at = 5;
  updated_at = 5;
}

-- A job that failed twice, 100 seconds after the epoch at last.
abbrev pub dead_job : QueueJob
dead_job = record waiting_job {
  job_id = "b";
  status = dead_letter;
  attempt_count = 2;
  last_failure_at = some 100000000;
  dead_lettered_at = some 100000000;
  error = some (record { type = "TimeoutError"; message = "late" });
}

-- A job that the worker "w" runs, with a lease until 60 µs.
abbrev pub running_job : QueueJob
running_job = record waiting_job {
  job_id = "c";
  status = running;
  worker_id = some "w";
  claimed_at = some 10;
  lease_expires_at = some 60;
}

abbrev pub sample_jobs : Jobs
sample_jobs = ("a", waiting_job) ∷ ("b", dead_job) ∷ ("c", running_job) ∷ []

waiting_job-IsSound : IsSound waiting_job
waiting_job-IsSound = record { has_attempts = ground arith; fits = ground arith }

dead_job-IsSound : IsSound dead_job
dead_job-IsSound = record { has_attempts = ground arith; fits = ground arith }

running_job-IsSound : IsSound running_job
running_job-IsSound = record { has_attempts = ground arith; fits = ground arith }

pub sample_jobs-IsHealthy : IsHealthy sample_jobs
unfolding read
sample_jobs-IsHealthy = record {
  names = (refl, (refl, (refl, tt)));
  jobs =
      ((refl, waiting_job-IsSound), ((refl, dead_job-IsSound), ((refl, running_job-IsSound), tt)));
}

pub read_waiting : read "a" sample_jobs ≡ some waiting_job
unfolding read
read_waiting = refl

pub read_dead : read "b" sample_jobs ≡ some dead_job
unfolding read
read_dead = refl

pub read_running : read "c" sample_jobs ≡ some running_job
unfolding read
read_running = refl
