-- ===== src/Queue/Sound.antt =====
-- The invariant of a job's record, and that each change of a record keeps it.
use clarityos.Prelude.{ℕ, ◌+◌, ◌<◌, String, ◌≡◌, false, Option, none, some, arith}
use clarityos.Python.Errors.{Exception}
use clarityos.Python.Json.{Json}
use clarityos.Queue.Job.{
  JobStatus, queued, scheduled, running, completed, failed, dead_letter, canceled, status_eq,
  is_terminal, job_status_for_ready_at,
}
use clarityos.Queue.History.{QueueJob, Details}
use clarityos.Queue.Access.{apply_changes, set_status}
use clarityos.Queue.Lifecycle.{
  requeued_as, failed_for_good, retried_at, completed_with, canceled_as, rescheduled_for,
}
use clarityos.Queue.Maintenance.{repaired_as}
use clarityos.Worker.Claim.{claimed_by}

abbrev pub IsSome : {A : Type 0} → Option A → Type 0
IsSome none = ⊥
IsSome (some a) = Unit

abbrev pub IsNone : {A : Type 0} → Option A → Type 0
IsNone none = Unit
IsNone (some a) = ⊥

abbrev pub Waits : QueueJob → Type 0
Waits j =
    IsNone j.worker_id
    × IsNone j.claimed_at
    × IsNone j.lease_expires_at
    × (j.attempt_count < j.max_attempts)

-- What the status of a job says of its other fields.
abbrev pub StatusFits : QueueJob → JobStatus → Type 0
StatusFits j queued = Waits j
StatusFits j scheduled = Waits j
StatusFits j running =
    IsSome j.worker_id
    × IsSome j.claimed_at
    × IsSome j.lease_expires_at
    × (j.attempt_count < j.max_attempts)
StatusFits j completed = IsNone j.lease_expires_at × IsSome j.result × IsNone j.error
StatusFits j failed = IsNone j.lease_expires_at × IsSome j.error × (j.max_attempts ≡ 1)
StatusFits j dead_letter =
    IsNone j.lease_expires_at × IsSome j.error × IsSome j.dead_lettered_at × (1 < j.max_attempts)
StatusFits j canceled = IsNone j.lease_expires_at × IsSome j.canceled_at

pub record IsSound (j : QueueJob) : Type 0 where
  pub has_attempts : 0 < j.max_attempts
  pub fits : StatusFits j j.status

-- A job that is not at its end has attempts left.
pub active_attempts :
    {j : QueueJob} → IsSound j → is_terminal j.status ≡ false → j.attempt_count < j.max_attempts
active_attempts h active = ground arith

-- The time and the history of a write are no part of the invariant.
pub apply_changes-IsSound :
    (now : ℕ) (reason : Option String) (details : Details) (changes : QueueJob → QueueJob)
    (j : QueueJob)
    → IsSound (changes j)
    → IsSound (apply_changes now reason details changes j)
unfolding apply_changes
apply_changes-IsSound now reason details changes j h = record {
  has_attempts = h.has_attempts;
  fits = h.fits;
}

pub requeued_as-IsSound :
    (reason : String) (n : ℕ) {j : QueueJob}
    → IsSound j
    → is_terminal j.status ≡ false
    → IsSound (record (requeued_as reason j) { reclaim_count = n })
unfolding requeued_as
requeued_as-IsSound reason n h active = record {
  has_attempts = h.has_attempts;
  fits = (tt, tt, tt, active_attempts h active);
}

pub claimed_by-IsSound :
    (now : ℕ) (worker_id : String) (lease : ℕ) {j : QueueJob}
    → IsSound j
    → j.status ≡ queued
    → IsSound (claimed_by now worker_id lease j)
unfolding claimed_by
claimed_by-IsSound now worker_id lease h ready = record {
  has_attempts = h.has_attempts;
  fits = ground arith;
}

pub completed_with-IsSound :
    (outcome : Json) {j : QueueJob} → IsSound j → IsSound (completed_with outcome j)
unfolding completed_with
completed_with-IsSound outcome h = record { has_attempts = h.has_attempts; fits = (tt, tt, tt) }

pub failed_for_good-IsSound :
    (now : ℕ) (exc : Exception) {j : QueueJob} → IsSound j → IsSound (failed_for_good now exc j j)
unfolding failed_for_good
failed_for_good-IsSound now exc {j} h = record {
  has_attempts = h.has_attempts;
  fits = ground arith;
}

pub retried_at-IsSound :
    (now ready : ℕ) (exc : Exception) {j : QueueJob}
    → IsSound j
    → j.attempt_count + 1 < j.max_attempts
    → IsSound (retried_at now ready exc j j)
unfolding retried_at job_status_for_ready_at
retried_at-IsSound now ready exc h more = record {
  has_attempts = h.has_attempts;
  fits = ground arith;
}

pub canceled_as-IsSound :
    (now : ℕ) (reason : String) (loaded : QueueJob) {j : QueueJob}
    → IsSound j
    → IsSound (canceled_as now reason loaded j)
unfolding canceled_as
canceled_as-IsSound now reason loaded h = record { has_attempts = h.has_attempts; fits = (tt, tt) }

pub rescheduled_for-IsSound :
    (now ready : ℕ) {j : QueueJob} → IsSound j → IsSound (rescheduled_for now ready j)
unfolding rescheduled_for job_status_for_ready_at
rescheduled_for-IsSound now ready h = record { has_attempts = h.has_attempts; fits = ground arith }

pub promoted-IsSound :
    {j : QueueJob} → IsSound j → j.status ≡ scheduled → IsSound (set_status queued j)
promoted-IsSound h waiting = record { has_attempts = h.has_attempts; fits = ground arith }

pub repaired_as-IsSound : (now : ℕ) {j : QueueJob} → IsSound j → IsSound (repaired_as now j j)
unfolding repaired_as job_status_for_ready_at
repaired_as-IsSound now {j} h = record { has_attempts = h.has_attempts; fits = ground arith }
