-- ===== src/Worker/Claims.antt =====
-- `claim_next_job` (runtime/worker.py) gives a free worker the best ready job, under a lease.
use clarityos.Prelude.{
  ℕ, ◌+◌, ◌<◌, ◌<>◌, ◌≢◌, String, ◌≡◌, refl, ◌∙◌, sym, subst, false, Option, none, some, arith,
  List, [], ◌∷◌, ◌==◌, string_eq, option_eq, inl, inr, Bool-cases, In,
}
use clarityos.Prelude.Sort.{first_of_sorted}
use clarityos.Python.Exec.{Result, ok}
use clarityos.Python.Directory.{files, read}
use clarityos.Queue.Job.{running, queued, status_eq, seconds}
use clarityos.Queue.History
use clarityos.Queue.History.{QueueJob}
use clarityos.Queue.Access.{Jobs, apply_changes, update_job, job_before, promote_due_jobs}
use clarityos.Queue.Healthy.{IsHealthy, IsHealthy-read}
use clarityos.Queue.Sound.{claimed_by-IsSound}
use clarityos.Queue.Loading.{Replaces, update_job-Replaces}
use clarityos.Queue.Distinct.{In-files-read}
use clarityos.Queue.Listing.{IsQueue, ready_jobs_lem, job_before-IsWeakOrder}
use clarityos.Queue.Promotion.{promote_due_jobs_lem}
use clarityos.Worker.Record.{
  Worker, busy, holds_job, without_details, worker_lease_expired, worker_summary,
}
use clarityos.Worker.World.{World, changed_worker, load_worker, heartbeat_worker}
use clarityos.Worker.Claim.{
  claimed_by, assigned_to, claim_first, claim_when_free, reclaim_expired_leases, claim_next_job,
}
use clarityos.Worker.Updates.{update_worker-Puts, IsRenewed, heartbeat_worker-renews}
use clarityos.Worker.Reclaims.{reclaim_expired_leases_lem}

-- The job and the worker after the claim.
unfoldable pub claimed : ℕ → String → ℕ → QueueJob → QueueJob
claimed now id lease j =
    apply_changes now (some ("claimed_by_worker:" <> id)) History.without_details
      (claimed_by now id lease) j

unfoldable pub assigned : ℕ → String → Worker → Worker
assigned now job_id w =
    changed_worker now (some ("claimed_job:" <> job_id)) without_details
      (assigned_to now job_id w.lease_seconds) w

-- What a claim leaves: the claimed job runs, and its worker is busy with it, for the same time.
pub record IsClaim (now : ℕ) (id : String) (w : Worker) (j claimed : QueueJob) (after : Worker)
    : Type 0 where
  pub runs : claimed.status ≡ running
  pub same_id : claimed.job_id ≡ j.job_id
  pub owner : claimed.worker_id ≡ some id
  pub lease : claimed.lease_expires_at ≡ some (now + seconds w.lease_seconds)
  pub attempts : claimed.attempt_count ≡ j.attempt_count
  pub is_busy : after.status ≡ busy
  pub holds : after.current_job_id ≡ some j.job_id
  pub worker_lease : after.lease_expires_at ≡ now + seconds w.lease_seconds
  pub same_seconds : after.lease_seconds ≡ w.lease_seconds

claimed-IsClaim :
    (now : ℕ) (id : String) (w : Worker) (j : QueueJob)
    → 0 < w.lease_seconds
    → IsClaim now id w j (claimed now id w.lease_seconds j) (assigned now j.job_id w)
unfolding claimed assigned apply_changes claimed_by changed_worker assigned_to worker_summary
    worker_lease_expired
claimed-IsClaim now id w j positive = record {
  runs = refl;
  same_id = refl;
  owner = refl;
  lease = refl;
  attempts = refl;
  is_busy = ground arith;
  holds = refl;
  worker_lease = refl;
  same_seconds = refl;
}

-- The best of the ready jobs: no ready job goes before it.
abbrev pub IsBest : Jobs → QueueJob → Type 0
IsBest d j = (i : QueueJob) → In i (files d) → i.status ≡ queued → job_before i j ≡ false

-- How a claim in `s` ends, where `d` is the queue with its due jobs promoted: nothing is ready and
-- nothing is claimed, or the best ready job is claimed.
pub data ClaimEnds (now : ℕ) (id : String) (w : Worker) (d : Jobs) (s : World)
    (r : Result (Option QueueJob) × World) : Type 0 where
  nothing_ready :
      r.0 ≡ ok none
      → ((j : QueueJob) → In j (files d) → j.status ≢ queued)
      → r.1 ≡ record s { jobs = d }
      → ClaimEnds now id w d s r
  claims :
      (j c : QueueJob) (after : Worker)
      → IsClaim now id w j c after
      → In j (files d)
      → j.status ≡ queued
      → IsBest d j
      → r.0 ≡ ok (some c)
      → Replaces j.job_id c d r.1.jobs
      → read id r.1.workers ≡ some after
      → ((k : String) → (id == k) ≡ false → read k r.1.workers ≡ read k s.workers)
      → ClaimEnds now id w d s r

module _ (now : ℕ) (id : String) (w : Worker) where
  claim_first-claims :
      (j : QueueJob) (js : List QueueJob) (s : World)
      → IsHealthy s.jobs
      → read j.job_id s.jobs ≡ some j
      → j.status ≡ queued
      → read id s.workers ≡ some w
      → ((claim_first now id w (j ∷ js) s).0 ≡ ok (some (claimed now id w.lease_seconds j)))
        × Replaces j.job_id
            (claimed now id w.lease_seconds j)
            s.jobs
            (claim_first now id w (j ∷ js) s).1.jobs
        × (read id (claim_first now id w (j ∷ js) s).1.workers ≡ some (assigned now j.job_id w))
        × ((k : String)
            → (id == k) ≡ false
            → read k (claim_first now id w (j ∷ js) s).1.workers ≡ read k s.workers)
  unfolding claim_first claimed assigned
  claim_first-claims j js s h stored ready found =
      let (job_out, replaced) =
        update_job-Replaces now j.job_id h (some ("claimed_by_worker:" <> id))
          History.without_details (claimed_by now id w.lease_seconds) j stored
          (unfold claimed_by in refl)
          (claimed_by-IsSound now id w.lease_seconds (IsHealthy-read j.job_id j h stored).1
            ready) in
      let (worker_out, puts) =
        update_worker-Puts now id (some ("claimed_job:" <> j.job_id)) without_details
          (assigned_to now j.job_id w.lease_seconds)
          (record s {
            jobs =
                (update_job now j.job_id (some ("claimed_by_worker:" <> id)) History.without_details
                  (claimed_by now id w.lease_seconds) s.jobs).1;
          })
          w found in
      (
        rw job_out (rw worker_out refl),
        rw job_out
            (rw worker_out (subst (Replaces j.job_id _ s.jobs) (sym puts.same_jobs) replaced)),
        rw job_out (rw worker_out puts.stored),
        rw job_out (rw worker_out puts.others),
      )

  abbrev promoted_jobs : World → Jobs
  promoted_jobs s = (promote_due_jobs now none s.jobs).1

  claim_of :
      (js : List QueueJob) (s : World)
      → IsHealthy s.jobs
      → IsQueue s.jobs js
      → read id s.workers ≡ some w
      → 0 < w.lease_seconds
      → ClaimEnds now id w s.jobs s (claim_first now id w js s)
  claim_of [] s h q found positive =
      nothing_ready (unfold claim_first in refl) (λ j m ready. q.complete j m ready)
        (unfold claim_first in refl)
  claim_of (j ∷ js) s h q found positive =
      let (there, ready) = q.ready j (inl refl) in
      let (out, replaced, stored, others) =
        claim_first-claims j js s h (In-files-read j h there) ready found in
      claims j (claimed now id w.lease_seconds j) (assigned now j.job_id w)
        (claimed-IsClaim now id w j positive) there ready
        (λ i m waits. first_of_sorted job_before-IsWeakOrder i j js q.sorted (q.complete i m waits))
        out replaced stored others

  claim_when_free_lem :
      (s : World)
      → IsHealthy s.jobs
      → read id s.workers ≡ some w
      → 0 < w.lease_seconds
      → holds_job w ≡ false
      → ClaimEnds now id w
          (promoted_jobs s)
          (record s { jobs = promoted_jobs s })
          (claim_when_free now id w s)
  unfolding claim_when_free
  claim_when_free_lem s h found positive free =
      let (js, listed, q) = ready_jobs_lem now h in
      let (ps, promoted, healthy, reads) = promote_due_jobs_lem now h in
      rw free
        (rw listed (claim_of js (record s { jobs = promoted_jobs s }) healthy q found positive))

no_job-free : (w : Worker) → w.current_job_id ≡ none → holds_job w ≡ false
no_job-free w e = rw e refl

-- The world in which the claim is made: the lost leases are reclaimed, the worker has renewed its own
-- lease, and the due jobs are in the queue.
abbrev pub reclaimed_world : ℕ → World → World
reclaimed_world now s = (reclaim_expired_leases now s).1

abbrev pub ready_world : ℕ → String → World → World
ready_world now id s =
    let beaten = (heartbeat_worker now id (reclaimed_world now s)).1 in
    record beaten { jobs = (promote_due_jobs now none beaten.jobs).1 }

module _ (now : ℕ) (id : String) where
  claim_next_job_eq :
      (s : World) (w w' : Worker) (ids : List String)
      → (reclaim_expired_leases now s).0 ≡ ok ids
      → read id (reclaimed_world now s).workers ≡ some w
      → holds_job w ≡ false
      → (heartbeat_worker now id (reclaimed_world now s)).0 ≡ ok w'
      → claim_next_job now id s
        ≡ claim_when_free now id w' (heartbeat_worker now id (reclaimed_world now s)).1
  unfolding claim_next_job load_worker
  claim_next_job_eq s w w' ids returned found free beaten = rw returned (
      rw found (elim (Bool-cases (worker_lease_expired now w)) [
        | inl late ↦ rw late (rw free (rw beaten refl))
        | inr fine ↦ rw fine (rw beaten refl)
      ]))

  -- A stored worker without a job that claims one, in a world with a healthy queue: the call returns,
  -- and either no job is ready and nothing is claimed, or the worker is given, for its lease, a job
  -- that no ready job goes before. The claimed job is stored as running and in the worker's name, the
  -- worker is stored as busy with it, and no other file differs from the world it claims in.
  pub claim_next_job_lem :
      (s : World) (w : Worker)
      → IsHealthy s.jobs
      → read id s.workers ≡ some w
      → 0 < w.lease_seconds
      → w.current_job_id ≡ none
      → (w' : Worker) × IsRenewed now w w'
        × ClaimEnds now id w'
            (ready_world now id s).jobs
            (ready_world now id s)
            (claim_next_job now id s)
  claim_next_job_lem s w h found positive no_job =
      let (ids, returned, healthy, reads, keeps) = reclaim_expired_leases_lem now s h in
      let kept = keeps id w found no_job in
      let free = no_job-free w no_job in
      let (w', beaten, puts, renewed) =
        heartbeat_worker-renews now id (reclaimed_world now s) w kept positive
          (rw free (ground arith)) in
      (
        w',
        renewed,
        rw (claim_next_job_eq s w w' ids returned kept free beaten) (
            claim_when_free_lem now id w' (heartbeat_worker now id (reclaimed_world now s)).1
              (subst IsHealthy (sym puts.same_jobs) healthy) puts.stored
              (rw renewed.same_seconds positive) (no_job-free w' (renewed.same_job ∙ no_job))),
      )
