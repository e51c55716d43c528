-- ===== src/Queue/Maintenance.antt =====
-- Operators' repairs, pruning and the summary of the queue (runtime/queue.py).
use clarityos.Prelude.{
  ℕ, zero, ◌+◌, ◌-◌, String, Bool, true, false, not, ◌&&◌, Option, none, some, List, [], ◌∷◌, map,
  ltb, lex, str_ltb, if◌then◌else◌, ◌==◌, elem, keep_if, length,
}
use clarityos.Prelude.Sort.{sort_by}
use clarityos.Python.Exec.{Result, ok, map_result, Exec, pure, lift, continue, ◌>>=◌}
use clarityos.Python.Json.{Json}
use clarityos.Python.Directory.{read, unlink}
use clarityos.Queue.Job.{
  JobStatus, queued, scheduled, running, dead_letter, canceled, status_eq, seconds, check_cutoff,
  normalize_optional_limit, normalize_job_status_list, normalize_non_negative_int,
}
use clarityos.Queue.History.{QueueJob, reasons}
use clarityos.Queue.Access.{Jobs, update_job, is_due, list_stored, promote_due_jobs, cut}

abbrev present : {A : Type 0} → Option A → Bool
present none = false
present (some a) = true

abbrev reason_if : Bool → String → List String → List String
reason_if b reason rest = if b then reason ∷ rest else rest

-- The tests of `repair_stale_job_state`: not empty exactly where `changes` is not.
unfoldable pub stale_reasons : ℕ → QueueJob → List String
stale_reasons now job =
    let idle = not (job.status == running) in
    reason_if (is_due now job) "Promoted due scheduled job to queued" (
      reason_if (idle && present job.worker_id) "Cleared stale worker assignment" (
        reason_if (idle && present job.claimed_at) "Cleared stale claim timestamp"
          (reason_if (idle && present job.lease_expires_at) "Cleared stale lease expiration" [])))

-- The `changes`: to set a field that is `None` already to `None` is no change.
unfoldable pub repaired_as : ℕ → (listed : QueueJob) → QueueJob → QueueJob
repaired_as now listed job =
    let idle = not (listed.status == running) in
    record job {
      status = if is_due now listed then queued else job.status;
      worker_id = if idle && present listed.worker_id then none else job.worker_id;
      claimed_at = if idle && present listed.claimed_at then none else job.claimed_at;
      lease_expires_at =
          if idle && present listed.lease_expires_at then none else job.lease_expires_at;
    }

pub record Repair : Type 0 where
  pub job_id : String
  pub status : JobStatus
  pub reasons : List String

unfoldable pub repair_one : ℕ → QueueJob → List String → Exec Jobs Repair
repair_one now job why = do
  repaired ←
      update_job now job.job_id (some "stale_state_repair") (reasons why) (repaired_as now job)
  pure (record { job_id = repaired.job_id; status = repaired.status; reasons = why })

-- How many repairs are left after one; `none` is no limit.
abbrev pub spend : Option ℕ → Option ℕ
spend none = none
spend (some n) = some (n - 1)

abbrev pub is_spent : Option ℕ → Bool
is_spent (some zero) = true
is_spent _ = false

abbrev pub prepend : {A : Type 0} → A → Result (List A) × Jobs → Result (List A) × Jobs
prepend a (r, d) = (map_result (λ more. a ∷ more) r, d)

-- The loop over the listed jobs; `left` is the limit less the repairs made, and at least 1.
unfoldable pub repair_loop : ℕ → Option ℕ → List QueueJob → Exec Jobs (List Repair)
unfolding repair_one
repair_loop now left [] d = (ok [], d)
repair_loop now left (job ∷ rest) d = elim (stale_reasons now job) [
  | [] ↦ repair_loop now left rest d
  | why ∷ more ↦
      continue (repair_one now job (why ∷ more) d).0
        (λ repair d'. elim (is_spent (spend left)) [
          | true ↦ (ok (repair ∷ []), d')
          | false ↦ prepend repair (repair_loop now (spend left) rest d')
        ])
        (repair_one now job (why ∷ more) d).1
]

unfoldable pub repair_stale_job_state : ℕ → Json → Exec Jobs (List Repair)
unfolding repair_loop
repair_stale_job_state now limit = do
  left ← lift (normalize_optional_limit limit "repair_stale.limit")
  jobs ← (λ d. (list_stored none d, d))
  repair_loop now left jobs

unfoldable pub job_terminal_timestamp : QueueJob → ℕ
job_terminal_timestamp job =
    elim (if job.status == dead_letter
      then job.dead_lettered_at
      else if job.status == canceled
      then job.canceled_at
      else none) [ some t ↦ t | none ↦ job.updated_at ]

-- `terminal_at <= now - older_than_seconds`, with no number below 0
unfoldable pub is_prunable : ℕ → List JobStatus → ℕ → QueueJob → Bool
is_prunable now statuses older job =
    elem job.status statuses && not (ltb now (job_terminal_timestamp job + seconds older))

pub terminated_before : QueueJob → QueueJob → Bool
terminated_before a b =
    lex (ltb (job_terminal_timestamp a) (job_terminal_timestamp b))
      (ltb (job_terminal_timestamp b) (job_terminal_timestamp a)) (str_ltb a.job_id b.job_id)

unfoldable pub unlink_all : List QueueJob → Jobs → List String × Jobs
unlink_all [] d = ([], d)
unlink_all (job ∷ rest) d =
    let found = present (read job.job_id d) in
    let (ids, d') = unlink_all rest (if found then unlink job.job_id d else d) in
    (if found then job.job_id ∷ ids else ids, d')

-- The jobs that a call prunes.
unfoldable pub prune_candidates : ℕ → List JobStatus → ℕ → Option ℕ → List QueueJob → List QueueJob
unfolding terminated_before
prune_candidates now statuses older limit jobs =
    cut limit (sort_by terminated_before (keep_if (is_prunable now statuses older) jobs))

abbrev pub returning : {A : Type 0} → A × Jobs → Result A × Jobs
returning (a, d) = (ok a, d)

-- In a directory that exists: without one the source returns before it looks at the clock.
unfoldable pub prune_jobs : ℕ → Json → Json → Json → Exec Jobs (List String)
prune_jobs now statuses older_than_seconds limit = do
  wanted ← lift (normalize_job_status_list statuses "prune.statuses")
  older ← lift (normalize_non_negative_int older_than_seconds "prune.older_than_seconds")
  left ← lift (normalize_optional_limit limit "prune.limit")
  _ ← lift (check_cutoff now older)
  jobs ← (λ d. (list_stored none d, d))
  λ d. returning (unlink_all (prune_candidates now wanted older left jobs) d)

pub record QueueSummary : Type 0 where
  pub counts : JobStatus → ℕ
  pub total_jobs : ℕ
  pub queued_job_ids : List String
  pub running_job_ids : List String
  pub dead_letter_job_ids : List String
  pub retry_scheduled_job_ids : List String
  pub oldest_queued_at : Option ℕ
  pub next_ready_at : Option ℕ
  pub retry_pending_count : ℕ
  pub dead_letter_count : ℕ
  pub promoted_job_ids : List String

-- `min(..., default=None)`
unfoldable pub least : List ℕ → Option ℕ
least [] = none
least (x ∷ xs) = elim (least xs) [ none ↦ some x | some m ↦ some (if ltb m x then m else x) ]

abbrev pub with_status : JobStatus → List QueueJob → List QueueJob
with_status s jobs = keep_if (λ job. job.status == s) jobs

abbrev pub ids : List QueueJob → List String
ids jobs = map (λ job. job.job_id) jobs

abbrev retry_pending : List QueueJob → List QueueJob
retry_pending jobs = keep_if (λ job. ltb 0 job.attempt_count) (with_status scheduled jobs)

unfoldable pub summarize : List QueueJob → List QueueJob → QueueSummary
summarize promoted jobs = record {
  counts = λ s. length (with_status s jobs);
  total_jobs = length jobs;
  queued_job_ids = ids (with_status queued jobs);
  running_job_ids = ids (with_status running jobs);
  dead_letter_job_ids = ids (with_status dead_letter jobs);
  retry_scheduled_job_ids = ids (retry_pending jobs);
  oldest_queued_at = least (map (λ job. job.created_at) (with_status queued jobs));
  next_ready_at = least (map (λ job. job.ready_at) (with_status scheduled jobs));
  retry_pending_count = length (retry_pending jobs);
  dead_letter_count = length (with_status dead_letter jobs);
  promoted_job_ids = ids promoted;
}

unfoldable pub queue_summary : ℕ → Exec Jobs QueueSummary
unfolding summarize
queue_summary now = do
  promoted ← promote_due_jobs now none
  jobs ← (λ d. (list_stored none d, d))
  pure (summarize promoted jobs)
