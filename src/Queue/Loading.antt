-- ===== src/Queue/Loading.antt =====
-- What `load_job` returns and stores, and how an operation that loads a job first goes on from there.
use clarityos.Prelude.{
  ℕ, String, ◌≡◌, refl, ◌∙◌, false, Option, none, some, arith, ◌==◌, ==_refl, string_eq,
  if◌then◌else◌, ◌⊎◌, inl, inr, Bool-cases,
}
use clarityos.Python.Exec.{ok, Exec, ◌>>=◌}
use clarityos.Python.Directory.{read, write, read-write}
use clarityos.Queue.Job.{is_terminal, queued, scheduled, status_eq}
use clarityos.Queue.History.{QueueJob, Details, without_details}
use clarityos.Queue.Access.{
  Jobs, apply_changes, missing_job, update_job, is_due, set_status, load_job,
}
use clarityos.Queue.Lifecycle.{can_reschedule}
use clarityos.Queue.Sound.{IsSound, promoted-IsSound}
use clarityos.Queue.Healthy.{
  Fits, IsHealthy, IsHealthy-write, IsHealthy-read, load_job_snapshot-ok, update_job-found,
  updated-Fits,
}

-- A due job is promoted by its loading.
unfoldable pub loaded : ℕ → QueueJob → QueueJob
loaded now j =
    if is_due now j then apply_changes now none without_details (set_status queued) j else j

-- The directory `d` as `d'`, with `j` under the name `id`.
pub record Replaces (id : String) (j : QueueJob) (d d' : Jobs) : Type 0 where
  pub healthy : IsHealthy d'
  pub stored : read id d' ≡ some j
  pub others : (k : String) → (id == k) ≡ false → read k d' ≡ read k d

pub Replaces-write :
    {id : String} {j : QueueJob} {d : Jobs}
    → IsHealthy d
    → Fits id j
    → Replaces id j d (write id j d)
Replaces-write {id} {j} {d} h fit = record {
  healthy = IsHealthy-write id j h fit;
  stored = rw (read-write, ==_refl id) refl;
  others = λ k other. rw (read-write, other) refl;
}

pub Replaces-refl :
    {id : String} {j : QueueJob} {d : Jobs} → IsHealthy d → read id d ≡ some j → Replaces id j d d
Replaces-refl h found = record { healthy = h; stored = found; others = λ k other. refl }

pub Replaces-trans :
    {id : String} {i j : QueueJob} {d d' d'' : Jobs}
    → Replaces id i d d'
    → Replaces id j d' d''
    → Replaces id j d d''
Replaces-trans r s = record {
  healthy = s.healthy;
  stored = s.stored;
  others = λ k other. s.others k other ∙ r.others k other;
}

module _ (now : ℕ) (id : String) {d : Jobs} (h : IsHealthy d) where
  pub load_job-missing : read id d ≡ none → load_job now id d ≡ (missing_job id, d)
  unfolding load_job
  load_job-missing e = rw e

  -- An update replaces the job by the changed one, and touches no other file.
  pub update_job-Replaces :
      (reason : Option String) (details : Details) (changes : QueueJob → QueueJob) (j : QueueJob)
      → read id d ≡ some j
      → (changes j).job_id ≡ j.job_id
      → IsSound (changes j)
      → ((update_job now id reason details changes d).0
          ≡ ok (apply_changes now reason details changes j))
        × Replaces id
            (apply_changes now reason details changes j)
            d
            (update_job now id reason details changes d).1
  update_job-Replaces reason details changes j found same sound =
      rw (update_job-found now id reason details changes h j found sound)
        (refl, Replaces-write h (updated-Fits now id reason details changes h j found same sound))

  module _ (j : QueueJob) (found : read id d ≡ some j) where
    load_job_cases : load_job now id d ≡ (
        if is_due now j
        then update_job now id none without_details (set_status queued) d
        else (ok j, d))
    unfolding load_job
    load_job_cases = rw found (rw (load_job_snapshot-ok j (IsHealthy-read id j h found).1) refl)

    -- Loading returns the job as it is then stored.
    pub load_job-Replaces :
        ((load_job now id d).0 ≡ ok (loaded now j))
        × Replaces id (loaded now j) d (load_job now id d).1
    unfolding loaded
    load_job-Replaces = elim (Bool-cases (is_due now j)) [
      | inl due ↦ rw load_job_cases (
          rw due (
            update_job-Replaces none without_details (set_status queued) j found refl
              (promoted-IsSound (IsHealthy-read id j h found).1 (ground arith))))
      | inr not_due ↦ rw load_job_cases (rw not_due (refl, Replaces-refl h found))
    ]

    -- A method that loads a job first goes on with the loaded job.
    pub after_load :
        (f : QueueJob → Exec Jobs QueueJob)
        → (load_job now id >>= f) d ≡ f (loaded now j) (load_job now id d).1
    after_load f = rw load_job-Replaces.0 refl

-- What loading leaves as it was.
pub loaded-attempts :
    (now : ℕ) (j : QueueJob)
    → ((loaded now j).attempt_count ≡ j.attempt_count)
      × ((loaded now j).max_attempts ≡ j.max_attempts)
unfolding loaded apply_changes
loaded-attempts now j = ground arith

pub loaded-status :
    (now : ℕ) (j : QueueJob)
    → ((loaded now j).status ≡ j.status) ⊎ (j.status ≡ scheduled) × ((loaded now j).status ≡ queued)
unfolding loaded apply_changes
loaded-status now j = ground arith

pub loaded-backoff :
    (now : ℕ) (j : QueueJob) → (loaded now j).retry_backoff_seconds ≡ j.retry_backoff_seconds
unfolding loaded apply_changes
loaded-backoff now j = ground arith

pub loaded-worker : (now : ℕ) (j : QueueJob) → (loaded now j).worker_id ≡ j.worker_id
unfolding loaded apply_changes
loaded-worker now j = ground arith

pub loaded-terminal :
    (now : ℕ) (j : QueueJob) → is_terminal (loaded now j).status ≡ is_terminal j.status
unfolding loaded apply_changes
loaded-terminal now j = ground arith

pub loaded-reschedulable :
    (now : ℕ) (j : QueueJob) → can_reschedule (loaded now j).status ≡ can_reschedule j.status
unfolding loaded apply_changes
loaded-reschedulable now j = ground arith
