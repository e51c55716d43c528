-- ===== src/Queue/Repairs.antt =====
-- `repair_stale_job_state` leaves no stored job with a stale status, worker, claim or lease.
use clarityos.Prelude.{
  ℕ, String, ◌≡◌, refl, sym, ap, ◌∙◌, subst, Option, none, some, List, [], ◌∷◌, arith, All,
  All-of_In, inl, inr, List-cases,
}
use clarityos.Python.Exec.{ok}
use clarityos.Python.Json.{null}
use clarityos.Python.Directory.{read}
use clarityos.Queue.Job.{job_status_for_ready_at, normalize_optional_limit}
use clarityos.Queue.History.{QueueJob, reasons}
use clarityos.Queue.Access.{Jobs, apply_changes}
use clarityos.Queue.Maintenance.{
  stale_reasons, repaired_as, Repair, repair_one, repair_loop, repair_stale_job_state,
}
use clarityos.Queue.Sound.{repaired_as-IsSound}
use clarityos.Queue.Healthy.{IsHealthy, IsHealthy-read}
use clarityos.Queue.Loading.{Replaces, Replaces-refl, update_job-Replaces}
use clarityos.Queue.Distinct.{AreDistinct, In-files-read}
use clarityos.Queue.Rewrites.{
  IsStored, on_some, still-IsStored, Rewrites, rewrite_step, rewrite_none, reads_all,
}
use clarityos.Queue.Listing.{list_stored-ok}

abbrev repaired_for : ℕ → QueueJob → List String → QueueJob
repaired_for now j [] = j
repaired_for now j (why ∷ more) =
    apply_changes now (some "stale_state_repair") (reasons (why ∷ more)) (repaired_as now j) j

-- A job as the repair leaves it.
unfoldable pub repaired : ℕ → QueueJob → QueueJob
repaired now j = repaired_for now j (stale_reasons now j)

-- What is repaired is not stale.
stale_reasons-repaired : (now : ℕ) (j : QueueJob) → stale_reasons now (repaired now j) ≡ []
unfolding stale_reasons repaired repaired_as apply_changes job_status_for_ready_at
stale_reasons-repaired now j = ground arith

module _ (now : ℕ) where
  repair_one-Replaces :
      {d : Jobs} (h : IsHealthy d) (j : QueueJob) (why : String) (more : List String)
      → IsStored d j
      → (r : Repair) × ((repair_one now j (why ∷ more) d).0 ≡ ok r)
        × Replaces j.job_id (repaired_for now j (why ∷ more)) d (repair_one now j (why ∷ more) d).1
  unfolding repair_one
  repair_one-Replaces h j why more found =
      let (returned, r) =
        update_job-Replaces now j.job_id h (some "stale_state_repair") (reasons (why ∷ more))
          (repaired_as now j) j found (unfold repaired_as in refl)
          (repaired_as-IsSound now (IsHealthy-read j.job_id j h found).1) in
      let fixed = repaired_for now j (why ∷ more) in
      (
        record { job_id = fixed.job_id; status = fixed.status; reasons = why ∷ more },
        rw returned refl,
        rw returned r,
      )

  repaired-eq :
      (j : QueueJob) {why : List String}
      → stale_reasons now j ≡ why
      → repaired now j ≡ repaired_for now j why
  unfolding repaired
  repaired-eq j e = ap (repaired_for now j) e

  repair-All :
      (js : List QueueJob) {d : Jobs}
      → IsHealthy d
      → AreDistinct js
      → All (IsStored d) js
      → (rs : List Repair) × ((repair_loop now none js d).0 ≡ ok rs)
        × Rewrites (repaired now) js d (repair_loop now none js d).1
  unfolding repair_loop
  repair-All [] h differ stored = ([], refl, rewrite_none (repaired now) h)
  repair-All (j ∷ js) {d} h differ stored = elim (List-cases (stale_reasons now j)) [
    | inl e ↦
        let (rs, rest, p) = repair-All js h differ.1 stored.1 in
        let kept =
          subst (λ i. Replaces j.job_id i d d) (sym (repaired-eq j e)) (Replaces-refl h stored.0) in
        rw (e, repair_loop) (rs, rest, rewrite_step (repaired now) j js stored.0 differ.0 kept p)
    | inr (why, more, e) ↦
        let (r, returned, fixed) = repair_one-Replaces h j why more stored.0 in
        let changed =
          subst (λ i. Replaces j.job_id i d (repair_one now j (why ∷ more) d).1)
            (sym (repaired-eq j e)) fixed in
        let (rs, rest, p) =
          repair-All js fixed.healthy differ.1
            (still-IsStored _ _ j js fixed.others differ.0 stored.1) in
        rw (e, repair_loop)
          (rw returned
            (r ∷ rs, rw rest refl, rewrite_step (repaired now) j js stored.0 differ.0 changed p))
  ]

  not_stale :
      (k : String) (j : QueueJob) (o : Option QueueJob)
      → on_some (repaired now) o ≡ some j
      → stale_reasons now j ≡ []
  not_stale k j none e = cc
  not_stale k j (some i) e =
      subst (λ (x : QueueJob). stale_reasons now x ≡ []) (cc) (stale_reasons-repaired now i)

-- In a healthy directory, the repair without a limit returns, keeps the directory healthy, replaces
-- each stored job by its repaired form, and leaves none that a second repair would change.
pub repair_stale_job_state_lem :
    (now : ℕ) {d : Jobs}
    → IsHealthy d
    → (rs : List Repair) × ((repair_stale_job_state now null d).0 ≡ ok rs)
      × IsHealthy (repair_stale_job_state now null d).1
      × ((k : String)
          → read k (repair_stale_job_state now null d).1 ≡ on_some (repaired now) (read k d))
      × ((k : String) (j : QueueJob)
          → read k (repair_stale_job_state now null d).1 ≡ some j
          → stale_reasons now j ≡ [])
unfolding repair_stale_job_state normalize_optional_limit
repair_stale_job_state_lem now {d} h =
    let (js, listed, l) = list_stored-ok none h in
    let (rs, returned, p) =
      repair-All now js h l.distinct (All-of_In js (λ j m. In-files-read j h (l.listed j m).0)) in
    let reads = reads_all (repaired now) h (λ j m. l.complete j m refl) p in
    rw listed (
      rs,
      returned,
      p.healthy,
      reads,
      λ k j found. not_stale now k j (read k d) (sym (reads k) ∙ found),
    )
