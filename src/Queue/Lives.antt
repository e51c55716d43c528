-- ===== src/Queue/Lives.antt =====
-- The abstract view of the queue (runtime/queue.py): of each job only the phase that it is in, the
-- attempts that it has used, their limit and the backoff. What a call does to this view is written down
-- here without leases, workers, errors or history.
use clarityos.Prelude.{
  ℕ, ◌+◌, ◌*◌, ◌^◌, ◌||◌, ◌<>◌, String, false, Option, none, some, List, [], ◌∷◌, leb, ◌==◌,
  string_eq, if◌then◌else◌, ◌≡◌,
}
use clarityos.Python.Errors.{Exception}
use clarityos.Python.Exec.{Result, ok, err}
use clarityos.Python.Json.{Json, null}
use clarityos.Python.Directory.{read}
use clarityos.Queue.Job.{
  JobStatus, queued, scheduled, running, completed, failed, dead_letter, canceled, is_terminal,
  RunAt, build_ready_at, seconds, latest_time,
}
use clarityos.Queue.History.{QueueJob, without_details}
use clarityos.Queue.Access.{Jobs, update_job, load_job, promote_due_jobs}
use clarityos.Queue.Lifecycle.{
  requeue_job, record_job_failure, complete_job, cancel_job, reschedule_job,
}
use clarityos.Queue.Maintenance.{repair_stale_job_state}
use clarityos.Worker.Claim.{claimed_by}

pub data Phase : Type 0 where
  waiting active succeeded given_up withdrawn : Phase

pub record Life : Type 0 where
  pub phase : Phase
  pub used : ℕ
  pub limit : ℕ
  pub backoff : ℕ

abbrev pub phase_of : JobStatus → Phase
phase_of queued = waiting
phase_of scheduled = waiting
phase_of running = active
phase_of completed = succeeded
phase_of failed = given_up
phase_of dead_letter = given_up
phase_of canceled = withdrawn

abbrev pub life : QueueJob → Life
life j = record {
  phase = phase_of j.status;
  used = j.attempt_count;
  limit = j.max_attempts;
  backoff = j.retry_backoff_seconds;
}

abbrev pub View : Type 0
View = String → Option Life

abbrev pub life_of : Option QueueJob → Option Life
life_of none = none
life_of (some j) = some (life j)

unfoldable pub view : Jobs → View
view d k = life_of (read k d)

-- The calls of the queue that change stored jobs, with the time at which they are made. `claim` is the
-- half of `claim_next_job` that writes the job.
pub data Call : Type 0 where
  load : ℕ → (id : String) → Call
  promote repair : ℕ → Call
  claim : ℕ → (id worker_id : String) → (lease_seconds : ℕ) → Call
  complete : ℕ → (id : String) → Json → Call
  fail : ℕ → (id : String) → Exception → Call
  requeue : ℕ → (id reason : String) → Call
  cancel : ℕ → (id reason : String) → Call
  reschedule : ℕ → (id : String) → Json → Option RunAt → Call

unfoldable pub run : Call → Jobs → Jobs
run (load now id) d = (load_job now id d).1
run (promote now) d = (promote_due_jobs now none d).1
run (repair now) d = (repair_stale_job_state now null d).1
run (claim now id worker_id lease_seconds) d =
    (update_job now id (some ("claimed_by_worker:" <> worker_id)) without_details
      (claimed_by now worker_id lease_seconds) d).1
run (complete now id outcome) d = (complete_job now id outcome d).1
run (fail now id exc) d = (record_job_failure now id exc d).1
run (requeue now id reason) d = (requeue_job now id reason d).1
run (cancel now id reason) d = (cancel_job now id reason d).1
run (reschedule now id delay_seconds run_at) d = (reschedule_job now id delay_seconds run_at d).1

-- Which calls the clients make: they claim what is ready, and give back what is not at its end.
abbrev pub IsAllowed : Call → Jobs → Type 0
IsAllowed (claim now id worker_id lease_seconds) d =
    (j : QueueJob) → read id d ≡ some j → j.status ≡ queued
IsAllowed (requeue now id reason) d =
    (j : QueueJob) → read id d ≡ some j → is_terminal j.status ≡ false
IsAllowed _ d = Unit

unfoldable pub run_all : List Call → Jobs → Jobs
run_all [] d = d
run_all (c ∷ cs) d = run_all cs (run c d)

abbrev pub AreAllowed : List Call → Jobs → Type 0
AreAllowed [] d = Unit
AreAllowed (c ∷ cs) d = IsAllowed c d × AreAllowed cs (run c d)

-- What the calls mean for a life.
abbrev pub counted : Life → Life
counted l = record l {
  phase = if leb l.limit (l.used + 1) then given_up else waiting;
  used = l.used + 1;
}

-- A failure counts, unless an attempt is left whose time is behind the year 9999.
abbrev pub failure : ℕ → Life → Life
failure now l =
    if leb l.limit (l.used + 1) || leb (now + seconds (l.backoff * 2 ^ l.used)) latest_time
    then counted l
    else l

abbrev pub cancellation : Life → Life
cancellation l = elim l.phase [
  | waiting ↦ record l { phase = withdrawn }
  | active ↦ record l { phase = withdrawn }
  | _ ↦ l
]

abbrev pub renewal : Life → Life
renewal l = elim l.phase [
  | waiting ↦ record l { phase = waiting; used = 0 }
  | given_up ↦ record l { phase = waiting; used = 0 }
  | _ ↦ l
]

abbrev pub renewal_at : Result ℕ → Life → Life
renewal_at (ok ready) l = renewal l
renewal_at (err e) l = l

abbrev pub enter : Phase → Life → Life
enter p l = record l { phase = p }

abbrev pub on_life : (Life → Life) → Option Life → Option Life
on_life g none = none
on_life g (some l) = some (g l)

abbrev pub on_key : String → (Life → Life) → View → View
on_key id g v k = if id == k then on_life g (v k) else v k

-- The abstract queue: a call changes the life under its key and no other.
unfoldable pub effect : Call → View → View
effect (load now id) v = v
effect (promote now) v = v
effect (repair now) v = v
effect (claim now id worker_id lease_seconds) v = on_key id (enter active) v
effect (complete now id outcome) v = on_key id (enter succeeded) v
effect (fail now id exc) v = on_key id (failure now) v
effect (requeue now id reason) v = on_key id (enter waiting) v
effect (cancel now id reason) v = on_key id cancellation v
effect (reschedule now id delay_seconds run_at) v =
    on_key id (renewal_at (build_ready_at now delay_seconds run_at)) v

unfoldable pub effects : List Call → View → View
effects [] v = v
effects (c ∷ cs) v = effects cs (effect c v)
