-- ===== src/Queue/Examples.antt =====
-- The theorems of the queue at small inputs.
use clarityos.Prelude.{
  ◌+◌, ◌<◌, ◌≤◌, ◌⊎◌, subst, sym, ◌∙◌, Option, String, ◌≡◌, refl, none, some, List, [], ◌∷◌,
  string_eq, option_eq, if◌then◌else◌, In, inl, inr,
}
use clarityos.Prelude.Int.{pos}
use clarityos.Python.Errors.{Exception, timeout_error, overflow_error}
use clarityos.Python.Exec.{ok, err}
use clarityos.Python.Text.{strip}
use clarityos.Python.Json.{null, int, str, obj, field, end}
use clarityos.Python.Directory.{read, files}
use clarityos.Queue.Job.{
  queued, running, dead_letter, workflow_start, normalize_job_type, normalize_positive_int,
  normalize_non_negative_int, normalize_priority, normalize_job_status_list,
  normalize_optional_limit, latest_time, seconds, before_epoch, no_such_time, build_ready_at,
  status_eq,
}
use clarityos.Queue.History.{QueueJob}
use clarityos.Queue.Access.{is_due, promote_due_jobs, list_jobs, ready_jobs}
use clarityos.Queue.Create.{
  JobRequest, CheckedRequest, check_request, need_key, create_job, idempotent_request_matches,
  key_taken,
}
use clarityos.Queue.Lifecycle.{record_job_failure}
use clarityos.Queue.Maintenance.{repair_stale_job_state, stale_reasons, prune_jobs, Repair}
use clarityos.Queue.Healthy.{IsHealthy}
use clarityos.Queue.Loading.{Replaces, loaded}
use clarityos.Queue.Moves.{Moves}
use clarityos.Queue.Outcomes.{Cancels, cancel_job_outcome}
use clarityos.Queue.Rewrites.{on_some}
use clarityos.Queue.Promotion.{promoted, promote_due_jobs_lem}
use clarityos.Queue.Listing.{IsListing, list_jobs_lem, IsQueue, ready_jobs_lem}
use clarityos.Queue.Retries.{IsFailureOf, next_attempt, record_job_failure_outcome}
use clarityos.Queue.Repairs.{repaired, repair_stale_job_state_lem}
use clarityos.Queue.Pruning.{IsPruning, prune_jobs_lem}
use clarityos.Queue.Keys.{IsUnused}
use clarityos.Queue.Creation.{
  IsAccepted, IsNew, create_job-IsNew, create_job_twice, create_job_again,
}
use clarityos.Queue.Lives.{Call, claim, fail, cancel, reschedule, run_all, effects, view}
use clarityos.Queue.Refines.{Refines}
use clarityos.Queue.Refinement.{run_all-Refines}
use clarityos.Queue.Samples.{
  waiting_job, running_job, sample_jobs, sample_jobs-IsHealthy, read_waiting, read_running,
}

abbrev late : Exception
late = timeout_error "late"

record_job_failure_outcome_example :
    ((waiting_job.max_attempts ≤ waiting_job.attempt_count + 1)
        ⊎ (next_attempt 50 waiting_job ≤ latest_time)
      → (j' : QueueJob) × Moves "a" sample_jobs j' (record_job_failure 50 "a" late)
        × IsFailureOf 50 late waiting_job j')
    × (waiting_job.attempt_count + 1 < waiting_job.max_attempts
        → latest_time < next_attempt 50 waiting_job
        → ((m : String) × ((record_job_failure 50 "a" late sample_jobs).0 ≡ err (overflow_error m)))
          × Replaces "a"
              (loaded 50 waiting_job)
              sample_jobs
              (record_job_failure 50 "a" late sample_jobs).1)
record_job_failure_outcome_example =
    record_job_failure_outcome 50 "a" sample_jobs-IsHealthy waiting_job late read_waiting

promote_due_jobs_lem_example :
    (js : List QueueJob) × ((promote_due_jobs 50 none sample_jobs).0 ≡ ok js)
    × IsHealthy (promote_due_jobs 50 none sample_jobs).1
    × ((k : String)
        → read k (promote_due_jobs 50 none sample_jobs).1
          ≡ on_some (λ j. if is_due 50 j then promoted 50 j else j) (read k sample_jobs))
promote_due_jobs_lem_example = promote_due_jobs_lem 50 sample_jobs-IsHealthy

list_jobs_lem_example :
    (js : List QueueJob) × (list_jobs 50 (some running) sample_jobs
      ≡ (ok js, (promote_due_jobs 50 none sample_jobs).1))
    × IsListing (some running) (promote_due_jobs 50 none sample_jobs).1 js
list_jobs_lem_example = list_jobs_lem 50 (some running) sample_jobs-IsHealthy

ready_jobs_lem_example :
    (js : List QueueJob) × (ready_jobs 50 sample_jobs
      ≡ (ok js, (promote_due_jobs 50 none sample_jobs).1))
    × IsQueue (promote_due_jobs 50 none sample_jobs).1 js
ready_jobs_lem_example = ready_jobs_lem 50 sample_jobs-IsHealthy

repair_stale_job_state_lem_example :
    (rs : List Repair) × ((repair_stale_job_state 70 null sample_jobs).0 ≡ ok rs)
    × IsHealthy (repair_stale_job_state 70 null sample_jobs).1
    × ((k : String)
        → read k (repair_stale_job_state 70 null sample_jobs).1
          ≡ on_some (repaired 70) (read k sample_jobs))
    × ((k : String) (j : QueueJob)
        → read k (repair_stale_job_state 70 null sample_jobs).1 ≡ some j
        → stale_reasons 70 j ≡ [])
repair_stale_job_state_lem_example = repair_stale_job_state_lem 70 sample_jobs-IsHealthy

prune_jobs_lem_example :
    (seconds 10 ≤ 300000000 + before_epoch
      → (ids : List String) × ((prune_jobs 300000000 null (int (pos 10)) null sample_jobs).0
          ≡ ok ids)
        × IsPruning 300000000
            (dead_letter ∷ [])
            10
            none
            sample_jobs
            (prune_jobs 300000000 null (int (pos 10)) null sample_jobs).1
            ids)
    × (300000000 + before_epoch < seconds 10
        → prune_jobs 300000000 null (int (pos 10)) null sample_jobs
          ≡ (err (no_such_time 10), sample_jobs))
unfolding normalize_job_status_list normalize_non_negative_int normalize_optional_limit
prune_jobs_lem_example =
    prune_jobs_lem 300000000 null (int (pos 10)) null (dead_letter ∷ []) 10 none
      sample_jobs-IsHealthy refl refl refl

-- A request with the key of the waiting job, and one with a key that no job has.
abbrev request_with : String → JobRequest
request_with key = record {
  job_type = "workflow_start";
  payload = obj (field "agent" (str "writer") end);
  priority = int (pos 7);
  delay_seconds = int (pos 0);
  run_at = none;
  workflow_id = none;
  parent_job_id = none;
  idempotency_key = str key;
  max_attempts = int (pos 2);
  retry_backoff_seconds = int (pos 30);
}

abbrev checked_with : String → CheckedRequest
checked_with key = record {
  job_type = workflow_start;
  payload = field "agent" (str "writer") end;
  idempotency_key = some key;
  max_attempts = 2;
  retry_backoff_seconds = 30;
}

other-IsAccepted : IsAccepted 50 (request_with "other") (checked_with "other") 50 (pos 7)
unfolding check_request need_key normalize_job_type normalize_positive_int
    normalize_non_negative_int normalize_priority build_ready_at strip
other-IsAccepted = record { checked = refl; time = refl; rank_ok = refl }

other-IsUnused : IsUnused (some "other") sample_jobs
other-IsUnused j (inl e) = rw e refl
other-IsUnused j (inr (inl e)) = rw e refl
other-IsUnused j (inr (inr (inl e))) = rw e refl
other-IsUnused j (inr (inr (inr m))) = absurd m

create_job-IsNew_example :
    (j : QueueJob) × IsNew 50 (request_with "other") (checked_with "other") 50 (pos 7) j
    × Moves "d" sample_jobs j (create_job 50 "d" (request_with "other"))
create_job-IsNew_example =
    create_job-IsNew 50 "d" (request_with "other") (checked_with "other") 50 (pos 7)
      sample_jobs-IsHealthy other-IsAccepted other-IsUnused

create_job_twice_example :
    create_job 90 "e"
      (request_with "other")
      (create_job 50 "d" (request_with "other") sample_jobs).1
    ≡ create_job 50 "d" (request_with "other") sample_jobs
create_job_twice_example =
    create_job_twice 50 "d" (request_with "other") (checked_with "other") 50 (pos 7)
      sample_jobs-IsHealthy other-IsAccepted "other" refl other-IsUnused 90 "e" (refl, tt, tt)

create_job_again_example :
    (i : QueueJob) × In i (files sample_jobs)
    × (i.idempotency_key ≡ some "key")
    × (create_job 90 "e" (request_with "key") sample_jobs ≡ (
      (if idempotent_request_matches i (request_with "key") (checked_with "key")
          then ok i
          else err (key_taken "key")),
      sample_jobs,
    ))
unfolding check_request need_key normalize_job_type normalize_positive_int
    normalize_non_negative_int strip
create_job_again_example =
    create_job_again 90 "e" (request_with "key") (checked_with "key") sample_jobs-IsHealthy refl
      "key" refl waiting_job (inl refl) refl

cancel_job_outcome_example : Cancels 70 "c" "stop" sample_jobs running_job
cancel_job_outcome_example =
    cancel_job_outcome 70 "c" sample_jobs-IsHealthy running_job read_running "stop"

-- Job "a" is claimed and fails, "c" is canceled and "b" is made new.
abbrev some_calls : List Call
some_calls =
    claim 20 "a" "f" 60
    ∷ fail 30 "a" late
    ∷ cancel 40 "c" "stop"
    ∷ reschedule 50 "b" (int (pos 4)) none
    ∷ []

only_waiting : (j : QueueJob) → read "a" sample_jobs ≡ some j → j.status ≡ queued
only_waiting j found =
    subst (λ (o : Option QueueJob). elim o [ none ↦ Unit {0} | some i ↦ i.status ≡ queued ])
      (sym read_waiting ∙ found) refl

run_all-Refines_example :
    Refines (run_all some_calls sample_jobs) (effects some_calls (view sample_jobs))
run_all-Refines_example =
    run_all-Refines some_calls sample_jobs sample_jobs-IsHealthy
      (only_waiting, (tt, (tt, (tt, tt))))
