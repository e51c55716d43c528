-- ===== src/Queue/Refinement.antt =====
-- That the queue (runtime/queue.py) does on its files what the abstract queue of `Lives` does.
use clarityos.Prelude.{
  ℕ, ◌+◌, ◌≤◌, ◌<◌, ◌⊎◌, leb, leb→le, ◌<>◌, String, ◌≡◌, refl, ◌∙◌, sym, ap, subst, true, false,
  Bool-cases, Option, none, some, Option-cases, List, [], ◌∷◌, arith, string_eq, inl, inr,
}
use clarityos.Python.Directory.{read}
use clarityos.Python.Errors.{Exception}
use clarityos.Python.Exec.{Result, err, Exec, ◌>>=◌}
use clarityos.Python.Json.{Json}
use clarityos.Queue.Job.{
  latest_time, is_terminal, RunAt, build_ready_at, status_eq, job_status_for_ready_at,
}
use clarityos.Queue.History.{QueueJob, without_details}
use clarityos.Queue.Sound.{claimed_by-IsSound}
use clarityos.Worker.Claim.{claimed_by}
use clarityos.Queue.Access.{Jobs, load_job, apply_changes}
use clarityos.Queue.Lifecycle.{
  complete_job, completed_with, record_job_failure, requeue_job, requeued_as, cancel_job,
  canceled_as, reschedule_job, can_reschedule, rescheduled_for,
}
use clarityos.Queue.Healthy.{IsHealthy, IsHealthy-read, update_job-missing}
use clarityos.Queue.Loading.{loaded, load_job-missing, load_job-Replaces, update_job-Replaces}
use clarityos.Queue.Moves.{
  after_completion, complete_job-Moves, after_requeue, requeue_job-Moves, after_cancel,
  after_reschedule, cancel_job-Moves, cancel_job-refused, reschedule_job-Moves,
}
use clarityos.Queue.Outcomes.{
  Reschedules, reschedules, has_no_time, cannot_reschedule, reschedule_job_outcome,
}
use clarityos.Queue.Retries.{next_attempt, record_job_failure_outcome}
use clarityos.Queue.Promotion.{promote_due_jobs_lem}
use clarityos.Queue.Repairs.{repair_stale_job_state_lem}
use clarityos.Queue.Lives.{
  Life, Call, load, promote, repair, complete, fail, cancel, reschedule, effect, run_all, effects,
  AreAllowed, waiting, active, succeeded, IsAllowed, claim, requeue, run, cancellation, renewal,
  renewal_at, life, view, on_key, enter, failure, counted,
}
use clarityos.Queue.Refines.{
  Refines, Replaces-Refines, missing-Refines, same_lives-Refines, promoted-life, repaired-life,
  counted-life, on_key-same, kept_at_end, kept_renewal,
}

not_leb→lt : (m n : ℕ) → leb m n ≡ false → n < m
not_leb→lt m n h = ground arith

module _ (now : ℕ) (id : String) {d : Jobs} (h : IsHealthy d) where
  -- A call that loads the job first stops where it is missing.
  stops : (f : QueueJob → Exec Jobs QueueJob) → read id d ≡ none → ((load_job now id >>= f) d).1 ≡ d
  stops f missing = rw (load_job-missing now id h missing) refl

  loaded-life : (j : QueueJob) → life (loaded now j) ≡ life j
  unfolding loaded apply_changes
  loaded-life j = ground arith

  load-Refines : Refines (load_job now id d).1 (view d)
  load-Refines = elim (Option-cases (read id d)) [
    | inl missing ↦
        subst (Refines _) (on_key-same id (view d))
          (missing-Refines id _ missing h (rw (load_job-missing now id h missing) refl))
    | inr (j, found) ↦
        let (returned, kept) = load_job-Replaces now id h j found in
        subst (Refines _) (on_key-same id (view d))
          (Replaces-Refines id _ j _ found kept (loaded-life j))
  ]

  complete-Refines :
      (outcome : Json)
      → Refines (complete_job now id outcome d).1 (on_key id (enter succeeded) (view d))
  complete-Refines outcome = elim (Option-cases (read id d)) [
    | inl missing ↦ missing-Refines id _ missing h (
        unfold complete_job in
        rw (update_job-missing now id _ _ (completed_with outcome) h missing) refl)
    | inr (j, found) ↦
        let (returned, kept) = complete_job-Moves now id h j found outcome in
        Replaces-Refines id _ j _ found kept
          (unfold after_completion completed_with apply_changes in refl)
  ]

  fail-Refines :
      (exc : Exception)
      → Refines (record_job_failure now id exc d).1 (on_key id (failure now) (view d))
  fail-Refines exc = elim (Option-cases (read id d)) [
    | inl missing ↦ missing-Refines id _ missing h (unfold record_job_failure in stops _ missing)
    | inr (j, found) ↦ elim (Bool-cases (leb j.max_attempts (j.attempt_count + 1))) [
      | inl last ↦ counts j found (inl (leb→le _ _ last)) (rw last refl)
      | inr more ↦ elim (Bool-cases (leb (next_attempt now j) latest_time)) [
        | inl fits ↦ counts j found (inr (leb→le _ _ fits)) (rw more (rw fits refl))
        | inr late ↦
            let ended =
              ((record_job_failure_outcome now id h j exc found).1
                (omega (arith, not_leb→lt _ _ more)) (not_leb→lt _ _ late)).1 in
            Replaces-Refines id (failure now) j _ found ended
              (loaded-life j ∙ rw more (rw late refl))
      ]
    ]
  ]
    where
      counts :
          (j : QueueJob)
          → read id d ≡ some j
          → (j.max_attempts ≤ j.attempt_count + 1) ⊎ (next_attempt now j ≤ latest_time)
          → counted (life j) ≡ failure now (life j)
          → Refines (record_job_failure now id exc d).1 (on_key id (failure now) (view d))
      counts j found fits same =
          let (j', (returned, kept), fails) =
            (record_job_failure_outcome now id h j exc found).0 fits in
          Replaces-Refines id (failure now) j j' found kept (counted-life now exc j j' fails ∙ same)

  requeue-life :
      (reason : String) (j : QueueJob) (found : read id d ≡ some j)
      → life (after_requeue now id h j found reason) ≡ enter waiting (life j)
  unfolding after_requeue requeued_as apply_changes loaded
  requeue-life reason j found = ground arith

  claim-Refines :
      (worker_id : String) (lease : ℕ)
      → IsAllowed (claim now id worker_id lease) d
      → Refines (run (claim now id worker_id lease) d) (on_key id (enter active) (view d))
  unfolding run
  claim-Refines worker_id lease allowed = elim (Option-cases (read id d)) [
    | inl missing ↦
        missing-Refines id _ missing h
          (ap (λ x. x.1) (update_job-missing now id _ _ (claimed_by now worker_id lease) h missing))
    | inr (j, found) ↦
        let (returned, kept) =
          update_job-Replaces now id h (some ("claimed_by_worker:" <> worker_id)) without_details
            (claimed_by now worker_id lease) j found (unfold claimed_by in refl)
            (claimed_by-IsSound now worker_id lease (IsHealthy-read id j h found).1
              (allowed j found)) in
        Replaces-Refines id _ j _ found kept (unfold apply_changes claimed_by in refl)
  ]

  requeue-Refines :
      (reason : String)
      → IsAllowed (requeue now id reason) d
      → Refines (requeue_job now id reason d).1 (on_key id (enter waiting) (view d))
  requeue-Refines reason allowed = elim (Option-cases (read id d)) [
    | inl missing ↦ missing-Refines id _ missing h (unfold requeue_job in stops _ missing)
    | inr (j, found) ↦
        let (returned, kept) = requeue_job-Moves now id h j found reason (allowed j found) in
        Replaces-Refines id _ j _ found kept (requeue-life reason j found)
  ]

  -- A refused call has loaded the job, and that is all.
  refused-Refines :
      (g : Life → Life) (j : QueueJob) (e : Exception) (r : Result QueueJob × Jobs)
      → read id d ≡ some j
      → g (life j) ≡ life j
      → r ≡ (err e, (load_job now id d).1)
      → Refines r.1 (on_key id g (view d))
  refused-Refines g j e r found same refused =
      let (returned, kept) = load_job-Replaces now id h j found in
      rw refused (Replaces-Refines id g j _ found kept (loaded-life j ∙ sym same))

  cancel-life :
      (reason : String) (j : QueueJob) (found : read id d ≡ some j)
      → is_terminal j.status ≡ false
      → life (after_cancel now id h j found reason) ≡ cancellation (life j)
  unfolding after_cancel canceled_as apply_changes loaded
  cancel-life reason j found more = ground arith

  cancel-Refines :
      (reason : String) → Refines (cancel_job now id reason d).1 (on_key id cancellation (view d))
  cancel-Refines reason = elim (Option-cases (read id d)) [
    | inl missing ↦ missing-Refines id _ missing h (unfold cancel_job in stops _ missing)
    | inr (j, found) ↦ elim (Bool-cases (is_terminal j.status)) [
      | inl over ↦
          refused-Refines _ j _ _ found (kept_at_end j over)
            (cancel_job-refused now id h j found reason over)
      | inr more ↦
          Replaces-Refines id _ j _ found (cancel_job-Moves now id h j found reason more).1
            (cancel-life reason j found more)
    ]
  ]

  reschedule-life :
      (ready : ℕ) (j : QueueJob) (found : read id d ≡ some j)
      → can_reschedule j.status ≡ true
      → life (after_reschedule now id h j found ready) ≡ renewal (life j)
  unfolding after_reschedule rescheduled_for apply_changes loaded job_status_for_ready_at
  reschedule-life ready j found more = ground arith

  reschedule-Refines :
      (delay_seconds : Json) (run_at : Option RunAt)
      → Refines
          (reschedule_job now id delay_seconds run_at d).1
          (on_key id (renewal_at (build_ready_at now delay_seconds run_at)) (view d))
  reschedule-Refines delay_seconds run_at = elim (Option-cases (read id d)) [
    | inl missing ↦ missing-Refines id _ missing h (unfold reschedule_job in stops _ missing)
    | inr (j, found) ↦
        by_outcome j found (reschedule_job_outcome now id h j found delay_seconds run_at)
  ]
    where
      by_outcome :
          (j : QueueJob)
          → read id d ≡ some j
          → Reschedules now id delay_seconds run_at d j
          → Refines
              (reschedule_job now id delay_seconds run_at d).1
              (on_key id (renewal_at (build_ready_at now delay_seconds run_at)) (view d))
      by_outcome j found (reschedules ready j' can built moves fits) = rw built (
          Replaces-Refines id _ j _ found
            (reschedule_job-Moves now id h j found delay_seconds run_at ready can built).1
            (reschedule-life ready j found can))
      by_outcome j found (has_no_time e can bad ended) =
          rw bad (refused-Refines (λ l. l) j e _ found refl ended)
      by_outcome j found (cannot_reschedule cannot ended) =
          refused-Refines _ j _ _ found
            (kept_renewal j cannot (build_ready_at now delay_seconds run_at)) ended

-- A call that a client makes refines its effect.
run-Refines :
    (c : Call) {d : Jobs} → IsHealthy d → IsAllowed c d → Refines (run c d) (effect c (view d))
unfolding run effect
run-Refines (load now id) h allowed = load-Refines now id h
run-Refines (promote now) {d} h allowed =
    let (js, returned, healthy, reads) = promote_due_jobs_lem now h in
    same_lives-Refines _ (promoted-life now) d healthy reads
run-Refines (repair now) {d} h allowed =
    let (rs, returned, healthy, reads, fresh) = repair_stale_job_state_lem now h in
    same_lives-Refines _ (repaired-life now) d healthy reads
run-Refines (claim now id worker_id lease) h allowed =
    claim-Refines now id h worker_id lease allowed
run-Refines (complete now id outcome) h allowed = complete-Refines now id h outcome
run-Refines (fail now id exc) h allowed = fail-Refines now id h exc
run-Refines (requeue now id reason) h allowed = requeue-Refines now id h reason allowed
run-Refines (cancel now id reason) h allowed = cancel-Refines now id h reason
run-Refines (reschedule now id delay_seconds run_at) h allowed =
    reschedule-Refines now id h delay_seconds run_at

-- From a healthy directory, any sequence of calls that the clients make, each at any time, keeps the
-- directory healthy, and takes the phases, the attempts, the limits and the backoffs of the stored
-- jobs where the abstract queue takes them.
pub run_all-Refines :
    (cs : List Call) (d : Jobs)
    → IsHealthy d
    → AreAllowed cs d
    → Refines (run_all cs d) (effects cs (view d))
unfolding run_all effects
run_all-Refines [] d h allowed = record { healthy = h; same = refl }
run_all-Refines (c ∷ cs) d h allowed =
    let first = run-Refines c h allowed.0 in
    subst (λ v. Refines (run_all cs (run c d)) (effects cs v)) first.same
      (run_all-Refines cs (run c d) first.healthy allowed.1)
