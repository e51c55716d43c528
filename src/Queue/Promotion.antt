-- ===== src/Queue/Promotion.antt =====
-- `promote_due_jobs` puts the due scheduled jobs in the queue, and leaves every other job alone.
use clarityos.Prelude.{
  ℕ, String, ◌≡◌, refl, true, none, some, List, [], ◌∷◌, map, arith, string_eq, if◌then◌else◌, In,
  All, All-of_In, keep_if, In-keep_if, keep_if-In,
}
use clarityos.Prelude.Sort.{sort_by, In-sort_by, sort_by-In}
use clarityos.Python.Exec.{ok, for_each}
use clarityos.Python.Directory.{files, read}
use clarityos.Queue.Job.{queued, scheduled, status_eq}
use clarityos.Queue.History.{QueueJob, without_details}
use clarityos.Queue.Access.{
  Jobs, apply_changes, is_due, set_status, promote_one, promoted_before, promote_due_jobs,
}
use clarityos.Queue.Sound.{promoted-IsSound}
use clarityos.Queue.Healthy.{IsHealthy, IsHealthy-read, load_all-ok}
use clarityos.Queue.Loading.{Replaces, update_job-Replaces}
use clarityos.Queue.Rewrites.{
  IsStored, on_some, still-IsStored, reads_where, Rewrites, rewrite_step, rewrite_none,
}
use clarityos.Queue.Distinct.{
  AreDistinct, keep_if-AreDistinct, sort_by-AreDistinct, files-AreDistinct, In-files-read,
}

-- A due job with its new status.
unfoldable pub promoted : ℕ → QueueJob → QueueJob
promoted now j = apply_changes now (some "ready_at_elapsed") without_details (set_status queued) j

abbrev pub Listed : ℕ → Jobs → QueueJob → Type 0
Listed now d j = IsStored d j × (is_due now j ≡ true)

due-scheduled : (now : ℕ) (j : QueueJob) → is_due now j ≡ true → j.status ≡ scheduled
due-scheduled now j due = ground arith

module _ (now : ℕ) where
  promote_one-Replaces :
      {d : Jobs} (h : IsHealthy d) (j : QueueJob)
      → Listed now d j
      → ((promote_one now j d).0 ≡ ok (promoted now j))
        × Replaces j.job_id (promoted now j) d (promote_one now j d).1
  unfolding promote_one promoted
  promote_one-Replaces h j (found, due) =
      update_job-Replaces now j.job_id h (some "ready_at_elapsed") without_details
        (set_status queued) j found refl
        (promoted-IsSound (IsHealthy-read j.job_id j h found).1 (due-scheduled now j due))

  promote-All :
      (js : List QueueJob) {d : Jobs}
      → IsHealthy d
      → AreDistinct js
      → All (IsStored d) js
      → All (λ j. is_due now j ≡ true) js
      → ((for_each (promote_one now) js d).0 ≡ ok (map (promoted now) js))
        × Rewrites (promoted now) js d (for_each (promote_one now) js d).1
  unfolding for_each
  promote-All [] h differ stored due = (refl, rewrite_none (promoted now) h)
  promote-All (j ∷ js) h differ stored due =
      let (returned, r) = promote_one-Replaces h j (stored.0, due.0) in
      let (rest, p) =
        promote-All js r.healthy differ.1 (still-IsStored _ _ j js r.others differ.0 stored.1)
          due.1 in
      rw returned (rw rest refl, rewrite_step (promoted now) j js stored.0 differ.0 r p)

  abbrev due_jobs : Jobs → List QueueJob
  due_jobs d = sort_by promoted_before (keep_if (is_due now) (files d))

  module _ {d : Jobs} (h : IsHealthy d) where
    due-Listed : (j : QueueJob) → In j (due_jobs d) → Listed now d j
    due-Listed j m =
        let (listed, due) =
          In-keep_if (is_due now) j (files d) (In-sort_by promoted_before j _ m) in
        (In-files-read j h listed, due)

    due-AreDistinct : AreDistinct (due_jobs d)
    due-AreDistinct =
        sort_by-AreDistinct promoted_before _
          (keep_if-AreDistinct (is_due now) (files d) (files-AreDistinct h))

    promote_due_jobs-all :
        ((promote_due_jobs now none d).0 ≡ ok (map (promoted now) (due_jobs d)))
        × Rewrites (promoted now) (due_jobs d) d (promote_due_jobs now none d).1
    unfolding promote_due_jobs
    promote_due_jobs-all = rw (load_all-ok h) (
        promote-All (due_jobs d) h due-AreDistinct
          (All-of_In (due_jobs d) (λ j m. (due-Listed j m).0))
          (All-of_In (due_jobs d) (λ j m. (due-Listed j m).1)))

-- In a healthy directory, `promote_due_jobs` without a limit returns, keeps the directory healthy,
-- puts every scheduled job whose time has come in the queue, and leaves every other file as it was.
pub promote_due_jobs_lem :
    (now : ℕ) {d : Jobs}
    → IsHealthy d
    → (js : List QueueJob) × ((promote_due_jobs now none d).0 ≡ ok js)
      × IsHealthy (promote_due_jobs now none d).1
      × ((k : String)
          → read k (promote_due_jobs now none d).1
            ≡ on_some (λ j. if is_due now j then promoted now j else j) (read k d))
promote_due_jobs_lem now {d} h =
    let (returned, p) = promote_due_jobs-all now h in
    (
      map (promoted now) (due_jobs now d),
      returned,
      p.healthy,
      reads_where (promoted now) (is_due now) (due_jobs now d) h (due-Listed now h)
          (λ j m due. sort_by-In promoted_before j _ (keep_if-In (is_due now) j (files d) m due)) p,
    )
