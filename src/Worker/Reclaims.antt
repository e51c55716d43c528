-- ===== src/Worker/Reclaims.antt =====
-- `reclaim_expired_leases` (runtime/worker.py) puts the running jobs whose lease is over back in the
-- queue, and no others.
use clarityos.Prelude.{
  ℕ, ◌+◌, String, ◌≡◌, refl, ◌∙◌, ap, sym, subst, true, false, Option, none, some, arith, List, [],
  ◌∷◌, ◌==◌, ==_iff, string_eq, option_eq, if◌then◌else◌, inl, inr, Bool-cases, Option-cases, All,
  All-of_In, keep_if, In-keep_if, keep_if-In,
}
use clarityos.Python.Exec.{Result, ok, map_result}
use clarityos.Python.Directory.{read}
use clarityos.Queue.Job.{running, is_terminal, status_eq}
use clarityos.Queue.History.{QueueJob, without_details}
use clarityos.Queue.Access.{Jobs, apply_changes, job_lease_expired, promote_due_jobs}
use clarityos.Queue.Lifecycle.{requeued_as, requeue_job}
use clarityos.Queue.Healthy.{IsHealthy}
use clarityos.Queue.Loading.{Replaces, loaded}
use clarityos.Queue.Moves.{Moves, requeue_job-Moves, after_requeue}
use clarityos.Queue.Distinct.{Differ, AreDistinct, In-files-read}
use clarityos.Queue.Rewrites.{
  IsStored, on_some, job_ids, still-IsStored, reads_where, Rewrites, rewrite_step, rewrite_none,
}
use clarityos.Queue.Listing.{list_jobs_lem}
use clarityos.Queue.Promotion.{promote_due_jobs_lem}
use clarityos.Worker.Record.{Worker, without_details as no_details}
use clarityos.Worker.World.{World, update_worker}
use clarityos.Worker.Claim.{
  freed, let_go, lease_reason, reclaim_one, reclaim_loop, prepend_id, reclaim_expired_leases,
}
use clarityos.Worker.Updates.{update_worker-Puts}

-- A worker without a job is stored in `s'` as in `s`.
abbrev pub KeepsFree : World → World → Type 0
KeepsFree s s' =
    (k : String) (w : Worker)
    → read k s.workers ≡ some w
    → w.current_job_id ≡ none
    → read k s'.workers ≡ some w

module _ (now : ℕ) (job_id : String) where
  -- Letting go of a job raises nothing, and touches no job and no worker that has none.
  record LetsGo (s : World) (r : Result (Unit {0}) × World) : Type 0 where
    returned : r.0 ≡ ok tt
    same_jobs : r.1.jobs ≡ s.jobs
    keeps : KeepsFree s r.1

  nothing_done : (s : World) → LetsGo s (ok tt, s)
  nothing_done s = record { returned = refl; same_jobs = refl; keeps = λ k w found free. found }

  free_update :
      (id : String) (s : World) (w : Worker)
      → read id s.workers ≡ some w
      → (w.current_job_id == some job_id) ≡ true
      → LetsGo s (
        map_result (λ _. tt) (update_worker now id none no_details freed s).0,
        (update_worker now id none no_details freed s).1,
      )
  free_update id s w found holds =
      let (returned, puts) = update_worker-Puts now id none no_details freed s w found in
      record {
        returned = rw returned refl;
        same_jobs = puts.same_jobs;
        keeps = λ k v there free. elim (Bool-cases (id == k)) [
          | inl same ↦ absurd (ground (arith, (==_iff id k).0 same, there, found, free, holds))
          | inr other ↦ puts.others k other ∙ there
        ];
      }

  let_go-LetsGo : (owner : Option String) (s : World) → LetsGo s (let_go now job_id owner s)
  unfolding let_go
  let_go-LetsGo none s = nothing_done s
  let_go-LetsGo (some id) s = elim (Option-cases (read id s.workers)) [
    | inl e ↦ rw e (nothing_done s)
    | inr (w, found) ↦ elim (Bool-cases (w.current_job_id == some job_id)) [
      | inl holds ↦ rw found (rw holds (free_update id s w found holds))
      | inr other ↦ rw found (rw other (nothing_done s))
    ]
  ]

-- A job whose lease was lost, back in the queue.
unfoldable pub reclaimed : ℕ → QueueJob → QueueJob
reclaimed now j =
    apply_changes now (some (lease_reason j)) without_details
      (λ current. record (requeued_as (lease_reason j) current) {
        reclaim_count = (loaded now j).reclaim_count + 1;
      })
      (loaded now j)

reclaimed-job_id : (now : ℕ) (j : QueueJob) → (reclaimed now j).job_id ≡ j.job_id
unfolding reclaimed apply_changes requeued_as loaded
reclaimed-job_id now j = ground arith

expired-running : (now : ℕ) (j : QueueJob) → job_lease_expired now j ≡ true → j.status ≡ running
unfolding job_lease_expired
expired-running now j e = ground arith

expired-active :
    (now : ℕ) (j : QueueJob) → job_lease_expired now j ≡ true → is_terminal j.status ≡ false
expired-active now j e = rw (expired-running now j e) refl

module _ (now : ℕ) where
  requeue_expired :
      {d : Jobs} (h : IsHealthy d) (j : QueueJob)
      → IsStored d j
      → job_lease_expired now j ≡ true
      → Moves j.job_id d (reclaimed now j) (requeue_job now j.job_id (lease_reason j))
  unfolding reclaimed after_requeue
  requeue_expired h j stored e =
      requeue_job-Moves now j.job_id h j stored (lease_reason j) (expired-active now j e)

  reclaim_one-step :
      (j : QueueJob) (s : World)
      → IsHealthy s.jobs
      → IsStored s.jobs j
      → job_lease_expired now j ≡ true
      → ((reclaim_one now j s).0 ≡ ok j.job_id)
        × Replaces j.job_id (reclaimed now j) s.jobs (reclaim_one now j s).1.jobs
        × KeepsFree s (reclaim_one now j s).1
  unfolding reclaim_one
  reclaim_one-step j s h stored e =
      let (returned, replaced) = requeue_expired h j stored e in
      let goes =
        let_go-LetsGo now j.job_id j.worker_id
          (record s { jobs = (requeue_job now j.job_id (lease_reason j) s.jobs).1 }) in
      (
        rw returned (rw goes.returned (ap ok (reclaimed-job_id now j))),
        rw returned (
            rw goes.returned
              (subst (Replaces j.job_id (reclaimed now j) s.jobs) (sym goes.same_jobs) replaced)),
        rw returned (rw goes.returned goes.keeps),
      )

  abbrev expired_of : List QueueJob → List QueueJob
  expired_of js = keep_if (job_lease_expired now) js

  All-filter :
      (j : QueueJob) (js : List QueueJob) → All (Differ j) js → All (Differ j) (expired_of js)
  All-filter j [] h = tt
  All-filter j (i ∷ js) h = ground (arith, All-filter j js)

  -- What the loop over the running jobs does.
  record Reclaims (js : List QueueJob) (s : World) (r : Result (List String) × World) : Type 0 where
    returned : r.0 ≡ ok (job_ids (expired_of js))
    rewrites : Rewrites (reclaimed now) (expired_of js) s.jobs r.1.jobs
    keeps : KeepsFree s r.1

  loop_fine :
      (j : QueueJob) (js : List QueueJob) (s : World)
      → job_lease_expired now j ≡ false
      → reclaim_loop now (j ∷ js) s ≡ reclaim_loop now js s
  unfolding reclaim_loop
  loop_fine j js s fine = rw (fine, reclaim_loop) refl

  loop_late :
      (j : QueueJob) (js : List QueueJob) (s : World)
      → job_lease_expired now j ≡ true
      → (reclaim_one now j s).0 ≡ ok j.job_id
      → reclaim_loop now (j ∷ js) s
        ≡ prepend_id j.job_id (reclaim_loop now js (reclaim_one now j s).1)
  unfolding reclaim_loop
  loop_late j js s late returned = rw (late, reclaim_loop) (rw returned refl)

  loop_end : (s : World) → reclaim_loop now [] s ≡ (ok [], s)
  unfolding reclaim_loop
  loop_end s = refl

  reclaim-All :
      (js : List QueueJob) (s : World)
      → IsHealthy s.jobs
      → AreDistinct js
      → All (IsStored s.jobs) js
      → Reclaims js s (reclaim_loop now js s)
  reclaim-All [] s h differ stored = rw (loop_end s) (record {
    returned = refl;
    rewrites = rewrite_none (reclaimed now) h;
    keeps = λ k w found free. found;
  })
  reclaim-All (j ∷ js) s h differ stored = elim (Bool-cases (job_lease_expired now j)) [
    | inr fine ↦
        let r = reclaim-All js s h differ.1 stored.1 in
        rw (loop_fine j js s fine)
          (record { returned = rw fine r.returned; rewrites = rw fine r.rewrites; keeps = r.keeps })
    | inl late ↦
        let (returned, replaced, keeps) = reclaim_one-step j s h stored.0 late in
        let r =
          reclaim-All js (reclaim_one now j s).1 replaced.healthy differ.1
            (still-IsStored _ _ j js replaced.others differ.0 stored.1) in
        rw (loop_late j js s late returned) (record {
          returned = rw late (rw r.returned refl);
          rewrites = rw late (
              rewrite_step (reclaimed now) j (expired_of js) stored.0 (All-filter j js differ.0)
                replaced r.rewrites);
          keeps = λ k w found free. r.keeps k w (keeps k w found free) free;
        })
  ]

  -- In a world with a healthy queue, the reclaiming returns, keeps the queue healthy, requeues every
  -- running job whose lease is over, leaves every other job as the promotion of due jobs left it,
  -- and keeps the workers that have no job.
  pub reclaim_expired_leases_lem :
      (s : World)
      → IsHealthy s.jobs
      → (ids : List String) × ((reclaim_expired_leases now s).0 ≡ ok ids)
        × IsHealthy (reclaim_expired_leases now s).1.jobs
        × ((k : String)
            → read k (reclaim_expired_leases now s).1.jobs
              ≡ on_some
                  (λ j. if job_lease_expired now j then reclaimed now j else j)
                  (read k (promote_due_jobs now none s.jobs).1))
        × KeepsFree s (reclaim_expired_leases now s).1
  unfolding reclaim_expired_leases
  reclaim_expired_leases_lem s h =
      let (js, listed, l) = list_jobs_lem now (some running) h in
      let (ps, promoted, healthy, reads) = promote_due_jobs_lem now h in
      let start = record s { jobs = (promote_due_jobs now none s.jobs).1 } in
      let r =
        reclaim-All js start healthy l.distinct
          (All-of_In js (λ j m. In-files-read j healthy (l.listed j m).0)) in
      (
        job_ids (expired_of js),
        rw listed r.returned,
        rw listed r.rewrites.healthy,
        rw listed (
            reads_where (reclaimed now) (job_lease_expired now) (expired_of js) healthy
              (λ j m.
                let (there, late) = In-keep_if (job_lease_expired now) j js m in
                (In-files-read j healthy (l.listed j there).0, late))
              (λ j m late.
                keep_if-In _ j js
                  (l.complete j m ((==_iff j.status running).1 (expired-running now j late))) late)
              r.rewrites),
        rw listed r.keeps,
      )
