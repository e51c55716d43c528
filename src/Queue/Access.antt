-- ===== src/Queue/Access.antt =====
-- Reading, writing, listing and promoting jobs (runtime/queue.py). Every function takes the time of
-- the call. A job file that fails the checks of `_load_job_snapshot` makes each reader raise.
use clarityos.Prelude.{
  ℕ, zero, String, ◌<>◌, Bool, true, false, not, ◌&&◌, Option, none, some, List, [], ◌∷◌, ltb, lex,
  str_ltb, nat_beq, if◌then◌else◌, ◌==◌, string_eq, option_eq, keep_if, take,
}
use clarityos.Prelude.Int.{ltb_ℤ}
use clarityos.Prelude.Sort.{sort_by}
use clarityos.Python.Errors.{value_error, file_not_found}
use clarityos.Python.Exec.{
  Result, ok, err, map_result, traverse, Exec, pure, raise, ◌>>=◌, ◌>>◌, for_each,
}
use clarityos.Python.Directory.{Directory, files, read, write}
use clarityos.Queue.Job.{
  JobStatus, queued, scheduled, running, type_eq, status_eq, job_status_for_ready_at,
}
use clarityos.Queue.History.{QueueJob, Details, without_details, build_job_transition_history}

abbrev pub Jobs : Type 0
Jobs = Directory QueueJob

-- `_load_job_snapshot`, on a file that holds a job: the type leaves only one check to make.
unfoldable pub load_job_snapshot : QueueJob → Result QueueJob
load_job_snapshot job =
    if nat_beq job.max_attempts 0
    then err (value_error "Job `max_attempts` must be a positive integer")
    else ok job

-- `{**current, **changes, "updated_at": …}` with its new history
unfoldable pub apply_changes :
    ℕ → Option String → Details → (QueueJob → QueueJob) → QueueJob → QueueJob
apply_changes now reason details changes current =
    let updated = record (changes current) { updated_at = now } in
    record updated {
      transition_history = build_job_transition_history (some current) updated reason details;
    }

write_checked : String → QueueJob → Result QueueJob → Exec Jobs QueueJob
write_checked job_id updated (err e) d = (err e, d)
write_checked job_id updated (ok _) d = (ok updated, write job_id updated d)

update_snapshot :
    String
    → ℕ
    → Option String
    → Details
    → (QueueJob → QueueJob)
    → Result QueueJob
    → Exec Jobs QueueJob
unfolding write_checked
update_snapshot job_id now reason _ changes (err e) d = (err e, d)
update_snapshot job_id now reason details changes (ok current) d =
    write_checked job_id (apply_changes now reason details changes current)
      (load_job_snapshot (apply_changes now reason details changes current)) d

abbrev pub missing_job : String → Result QueueJob
missing_job job_id = err (file_not_found ("Job not found: " <> job_id))

read_snapshot : String → Option QueueJob → Result QueueJob
read_snapshot job_id none = missing_job job_id
read_snapshot job_id (some job) = load_job_snapshot job

unfoldable pub update_job :
    ℕ → String → Option String → Details → (QueueJob → QueueJob) → Exec Jobs QueueJob
unfolding update_snapshot read_snapshot
update_job now job_id reason details changes d =
    update_snapshot job_id now reason details changes (read_snapshot job_id (read job_id d)) d

abbrev pub is_due : ℕ → QueueJob → Bool
is_due now job = job.status == scheduled && (job_status_for_ready_at now job.ready_at == queued)

abbrev pub set_status : JobStatus → QueueJob → QueueJob
set_status s job = record job { status = s }

load_snapshot : ℕ → String → Result QueueJob → Exec Jobs QueueJob
load_snapshot now job_id (err e) d = (err e, d)
load_snapshot now job_id (ok job) d =
    if is_due now job
    then update_job now job_id none without_details (set_status queued) d
    else (ok job, d)

unfoldable pub load_job : ℕ → String → Exec Jobs QueueJob
unfolding load_snapshot read_snapshot
load_job now job_id d = load_snapshot now job_id (read_snapshot job_id (read job_id d)) d

-- `write_job` of a new record
unfoldable pub write_job : QueueJob → Exec Jobs QueueJob
write_job job d =
    let written = record job {
      transition_history =
          build_job_transition_history (read job.job_id d) job none without_details;
    } in
    (ok written, write job.job_id written d)

-- The jobs of all files, in the order in which the directory lists them.
unfoldable pub load_all : Jobs → Result (List QueueJob)
load_all d = traverse load_job_snapshot (files d)

unfoldable pub queue_rank : QueueJob → ℕ
queue_rank job = if job.status == queued then 0 else 1

-- The order of `list_jobs`: queued jobs first, then the highest priority, then the time at which the
-- job became ready, then its age.
unfoldable pub job_before : QueueJob → QueueJob → Bool
unfolding queue_rank
job_before a b = lex (ltb (queue_rank a) (queue_rank b)) (ltb (queue_rank b) (queue_rank a)) (
    lex (ltb_ℤ b.priority a.priority) (ltb_ℤ a.priority b.priority)
      (lex (ltb a.ready_at b.ready_at) (ltb b.ready_at a.ready_at) (ltb a.created_at b.created_at)))

-- The order in which due jobs are promoted.
unfoldable pub promoted_before : QueueJob → QueueJob → Bool
promoted_before a b = lex (ltb a.ready_at b.ready_at) (ltb b.ready_at a.ready_at) (
    lex (ltb_ℤ b.priority a.priority) (ltb_ℤ a.priority b.priority) (ltb a.created_at b.created_at))

abbrev pub cut : {A : Type 0} → Option ℕ → List A → List A
cut none xs = xs
cut (some n) xs = take n xs

unfoldable pub promote_one : ℕ → QueueJob → Exec Jobs QueueJob
promote_one now job =
    update_job now job.job_id (some "ready_at_elapsed") without_details (set_status queued)

-- `promote_due_jobs`; the result holds the promoted jobs, whose ids and number the source returns.
unfoldable pub promote_due_jobs : ℕ → Option ℕ → Exec Jobs (List QueueJob)
promote_due_jobs now (some zero) =
    raise (value_error "Queue promotion `limit` must be a positive integer")
promote_due_jobs now limit = do
  jobs ← (λ d. (load_all d, d))
  for_each (promote_one now) (cut limit (sort_by promoted_before (keep_if (is_due now) jobs)))

abbrev pub has_status : Option JobStatus → QueueJob → Bool
has_status none job = true
has_status (some s) job = job.status == s

-- `list_jobs(promote_due=False)`
unfoldable pub list_stored : Option JobStatus → Jobs → Result (List QueueJob)
list_stored status d =
    map_result (λ jobs. sort_by job_before (keep_if (has_status status) jobs)) (load_all d)

unfoldable pub list_jobs : ℕ → Option JobStatus → Exec Jobs (List QueueJob)
unfolding list_stored
list_jobs now status = promote_due_jobs now none >> (λ d. (list_stored status d, d))

unfoldable pub ready_jobs : ℕ → Exec Jobs (List QueueJob)
unfolding list_jobs
ready_jobs now = do jobs ← list_jobs now none; pure (keep_if (λ job. job.status == queued) jobs)

unfoldable pub job_lease_expired : ℕ → QueueJob → Bool
job_lease_expired now job =
    job.status == running && elim job.lease_expires_at [ none ↦ false | some t ↦ not (ltb now t) ]

-- The newest first, by `(created_at, job_id)`.
unfoldable pub newer : QueueJob → QueueJob → Bool
newer a b =
    lex (ltb b.created_at a.created_at) (ltb a.created_at b.created_at) (str_ltb b.job_id a.job_id)

abbrev pub first : {A : Type 0} → List A → Option A
first [] = none
first (x ∷ xs) = some x

unfoldable pub find_job_by_idempotency_key : String → Jobs → Result (Option QueueJob)
find_job_by_idempotency_key key d =
    if key == ""
    then err (value_error "Job `idempotency_key` must be a non-empty string")
    else map_result
        (λ jobs. first (sort_by newer (keep_if (λ job. job.idempotency_key == some key) jobs)))
        (load_all d)
