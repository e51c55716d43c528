-- ===== src/Queue/Create.antt =====
-- Creating jobs (runtime/queue.py, `create_job`), with idempotency keys.
use clarityos.Prelude.{
  ℕ, String, ◌<>◌, Bool, ◌&&◌, Option, none, some, [], if◌then◌else◌, ◌==◌, string_eq, option_eq,
}
use clarityos.Prelude.Int.{ℤ}
use clarityos.Python.Errors.{Exception, value_error}
use clarityos.Python.Exec.{Result, ok, err, and_then, map_result, Exec}
use clarityos.Python.Json.{Json, null, str, obj, Fields, eq_dict}
use clarityos.Python.Text.{is_blank}
use clarityos.Queue.Job.{
  JobType, type_eq, RunAt, normalize_job_type, normalize_priority, normalize_positive_int,
  normalize_non_negative_int, build_ready_at, job_status_for_ready_at,
}
use clarityos.Queue.History.{QueueJob}
use clarityos.Queue.Access.{Jobs, write_job, find_job_by_idempotency_key}

-- The arguments of `create_job`, as raw as the caller may give them.
pub record JobRequest : Type 0 where
  pub job_type : String
  pub payload : Json
  pub priority : Json
  pub delay_seconds : Json
  pub run_at : Option RunAt
  pub workflow_id : Option String
  pub parent_job_id : Option String
  pub idempotency_key : Json
  pub max_attempts : Json
  pub retry_backoff_seconds : Json

-- What is left of them after the checks at the top of `create_job`.
pub record CheckedRequest : Type 0 where
  pub job_type : JobType
  pub payload : Fields
  pub idempotency_key : Option String
  pub max_attempts : ℕ
  pub retry_backoff_seconds : ℕ

need_object : Json → Result Fields
need_object (obj fields) = ok fields
need_object _ = err (value_error "Job payload must be an object")

unfoldable pub need_key : Json → Result (Option String)
need_key null = ok none
need_key (str key) =
    if is_blank key
    then err (value_error "Job `idempotency_key` must not be empty")
    else ok (some key)
need_key _ = err (value_error "Job `idempotency_key` must be a string")

unfoldable pub check_request : JobRequest → Result CheckedRequest
unfolding need_object need_key
check_request r = and_then (normalize_job_type r.job_type) λ job_type.
    and_then (need_object r.payload) λ payload. and_then (need_key r.idempotency_key) λ key.
      and_then (normalize_positive_int r.max_attempts "max_attempts") λ max_attempts.
        map_result
          (λ backoff. record {
            job_type = job_type;
            payload = payload;
            idempotency_key = key;
            max_attempts = max_attempts;
            retry_backoff_seconds = backoff;
          })
          (normalize_non_negative_int r.retry_backoff_seconds "retry_backoff_seconds")

unfoldable pub idempotent_request_matches : QueueJob → JobRequest → CheckedRequest → Bool
idempotent_request_matches job r c =
    (job.job_type == c.job_type)
    && (eq_dict job.payload c.payload
        && ((job.workflow_id == r.workflow_id) && (job.parent_job_id == r.parent_job_id)))

-- The record of a new job.
unfoldable pub new_job :
    (now : ℕ) (job_id : String)
    → JobRequest
    → CheckedRequest
    → (ready_at : ℕ) (priority : ℤ) → QueueJob
new_job now job_id r c ready_at priority = record {
  job_id = job_id;
  job_type = c.job_type;
  status = job_status_for_ready_at now ready_at;
  priority = priority;
  ready_at = ready_at;
  payload = c.payload;
  workflow_id = r.workflow_id;
  parent_job_id = r.parent_job_id;
  idempotency_key = c.idempotency_key;
  worker_id = none;
  claimed_at = none;
  lease_expires_at = none;
  reclaim_count = 0;
  last_requeue_reason = none;
  attempt_count = 0;
  max_attempts = c.max_attempts;
  retry_backoff_seconds = c.retry_backoff_seconds;
  last_failure_at = none;
  next_retry_at = none;
  dead_lettered_at = none;
  canceled_at = none;
  cancel_reason = none;
  result = none;
  error = none;
  transition_history = [];
  created_at = now;
  updated_at = now;
}

write_new : ℕ → String → JobRequest → CheckedRequest → Result ℕ → Result ℤ → Exec Jobs QueueJob
write_new now job_id r c (ok ready_at) (ok priority) d =
    write_job (new_job now job_id r c ready_at priority) d
write_new now job_id r c (ok ready_at) (err e) d = (err e, d)
write_new now job_id r c (err e) _ d = (err e, d)

unfoldable pub enqueue : ℕ → String → JobRequest → CheckedRequest → Exec Jobs QueueJob
unfolding write_new
enqueue now job_id r c =
    write_new now job_id r c (build_ready_at now r.delay_seconds r.run_at)
      (normalize_priority r.priority)

abbrev pub key_taken : String → Exception
key_taken key =
    value_error ("Idempotency key `" <> key <> "` is already used by a different job request")

-- What follows the search for a job with the key.
unfoldable pub reuse :
    ℕ
    → String
    → JobRequest
    → CheckedRequest
    → String
    → Result (Option QueueJob)
    → Exec Jobs QueueJob
reuse now job_id r c key (err e) d = (err e, d)
reuse now job_id r c key (ok none) d = enqueue now job_id r c d
reuse now job_id r c key (ok (some existing)) d =
    if idempotent_request_matches existing r c then (ok existing, d) else (err (key_taken key), d)

unfoldable pub find_or_enqueue :
    ℕ → String → JobRequest → CheckedRequest → Option String → Exec Jobs QueueJob
unfolding reuse
find_or_enqueue now job_id r c none d = enqueue now job_id r c d
find_or_enqueue now job_id r c (some key) d =
    reuse now job_id r c key (find_job_by_idempotency_key key d) d

create_checked : ℕ → String → JobRequest → Result CheckedRequest → Exec Jobs QueueJob
unfolding find_or_enqueue
create_checked now job_id r (err e) d = (err e, d)
create_checked now job_id r (ok c) d = find_or_enqueue now job_id r c c.idempotency_key d

-- `job_id` is the id that `uuid.uuid4` draws.
unfoldable pub create_job : (now : ℕ) (job_id : String) → JobRequest → Exec Jobs QueueJob
unfolding create_checked
create_job now job_id r = create_checked now job_id r (check_request r)
