-- ===== src/Workflow/Rounds.antt =====
-- A wait and the resuming after it bring a workflow back to its action.
use clarityos.Prelude.{ℕ, ◌+◌, String, ◌≡◌, refl, true, none, some, [], ◌∷◌, arith, string_eq}
use clarityos.Python.Exec.{ok, ◌>>◌}
use clarityos.Queue.Job.{seconds}
use clarityos.Python.Json.{str}
use clarityos.Workflow.State.{
  approval_wait, retry_wait, step_status_eq, step_type_eq, workflow_status_eq, workflow_transitions,
  StepError, json, WorkflowStep, WorkflowState,
}
use clarityos.Workflow.Steps.{find_step, get_step, approval_step_id, transition_workflow}
use clarityos.Workflow.Waits.{
  Dict, enter_wait, wait_step, update_dict, wait_for_approval, resume_from_approval, can_retry,
  retry_step_id, retry_details, spent, enter_retry, enter_approval, count_retry, schedule_retry,
  wait_for_retry, leave_retry, resume_from_retry,
}
use clarityos.Workflow.Detours.{
  IsActive, IsBack, waits_at, goes_on, named, block_eq, still_absent, wait_found, leave_eq,
  left_found, unblock_eq, goes_on-IsBack,
}

-- The new wait of each kind.
abbrev pub approval_wait_step : String → Dict → WorkflowStep
approval_wait_step approval_id extra =
    wait_step (approval_step_id approval_id) approval_wait
      (update_dict extra (("approval_id", json (str approval_id)) ∷ []))

abbrev pub retry_error : String → String → StepError
retry_error error_type message = record {
  error_type = error_type;
  message = message;
  retryable = some true;
}

abbrev pub retry_wait_step : ℕ → StepError → WorkflowState → WorkflowStep
retry_wait_step now error w =
    wait_step (retry_step_id (w.retry_state.attempts_used + 1)) retry_wait (
      retry_details (w.retry_state.attempts_used + 1) (now + seconds w.retry_policy.backoff_seconds)
        error)

module _ (w : WorkflowState) (action : WorkflowStep) (h : IsActive w action) where
  module _ (approval_id : String) (extra : Dict)
      (absent : find_step (approval_step_id approval_id) w.steps ≡ none) where
    waits_for_approval :
        wait_for_approval approval_id extra w
        ≡ (ok tt, waits_at (approval_wait_step approval_id extra) w)
    unfolding wait_for_approval enter_approval enter_wait transition_workflow workflow_transitions
    waits_for_approval = rw (block_eq w action h) (
        rw (still_absent w action h (approval_wait_step approval_id extra) absent) (rw h.runs refl))

    resumes_from_approval :
        resume_from_approval approval_id (waits_at (approval_wait_step approval_id extra) w)
        ≡ (ok tt, goes_on w action h (approval_wait_step approval_id extra) absent)
    unfolding resume_from_approval get_step
    resumes_from_approval =
        rw (wait_found w action h (approval_wait_step approval_id extra) absent) (
          rw (leave_eq w action h (approval_wait_step approval_id extra) absent refl) (
            rw (left_found w action h (approval_wait_step approval_id extra) absent) (
              rw (unblock_eq w action h (approval_wait_step approval_id extra) absent)
                (rw (named w action h) refl))))

    -- A workflow that runs its action and has no wait for the approval: waiting for the approval and
    -- resuming from it both return, and leave the workflow running at its action, with the wait
    -- completed and every other step as it was.
    pub approval-round :
        (w' : WorkflowState) × ((wait_for_approval approval_id extra
              >> resume_from_approval approval_id)
            w
          ≡ (ok tt, w'))
        × IsBack w (approval_wait_step approval_id extra) w'
    approval-round = (
      goes_on w action h (approval_wait_step approval_id extra) absent,
      rw waits_for_approval resumes_from_approval,
      goes_on-IsBack w action h (approval_wait_step approval_id extra) absent,
    )

  module _ (now : ℕ) (error_type message : String)
      (absent : find_step (retry_step_id (w.retry_state.attempts_used + 1)) w.steps ≡ none) where
    waits_for_retry :
        can_retry w ≡ true
        → wait_for_retry now error_type message true w ≡ (
          ok tt,
          record (waits_at (retry_wait_step now (retry_error error_type message) w) w) {
            retry_state = spent now (retry_error error_type message) w;
          },
        )
    unfolding wait_for_retry schedule_retry enter_retry count_retry enter_wait transition_workflow
        workflow_transitions spent
    waits_for_retry allowed = rw allowed (
        rw (block_eq w action h) (
          rw
            (still_absent w action h (retry_wait_step now (retry_error error_type message) w)
              absent)
            (rw h.runs refl)))

    -- The workflow with its retry counted.
    abbrev counted : WorkflowState
    counted = record w { retry_state = spent now (retry_error error_type message) w }

    counted-IsActive : IsActive counted action
    counted-IsActive = record { runs = h.runs; found = h.found; active = h.active }

    abbrev retried : WorkflowState
    retried =
        record (goes_on counted action counted-IsActive
          (retry_wait_step now (retry_error error_type message) w) absent) {
            retry_state = record (spent now (retry_error error_type message) w) {
              next_retry_at = none;
            };
          }

    resumes_from_retry :
        resume_from_retry
          (waits_at (retry_wait_step now (retry_error error_type message) w) counted)
        ≡ (ok tt, retried)
    unfolding resume_from_retry leave_retry get_step spent
    resumes_from_retry =
        rw
          (wait_found counted action counted-IsActive
            (retry_wait_step now (retry_error error_type message) w) absent)
          (rw
            (leave_eq counted action counted-IsActive
              (retry_wait_step now (retry_error error_type message) w) absent refl)
            (rw
              (left_found counted action counted-IsActive
                (retry_wait_step now (retry_error error_type message) w) absent)
              (rw
                (unblock_eq counted action counted-IsActive
                  (retry_wait_step now (retry_error error_type message) w) absent)
                (rw (named counted action counted-IsActive) refl))))

    spent-fits :
        can_retry w ≡ true
        → (spent now (retry_error error_type message) w).attempts_used
            + (spent now (retry_error error_type message) w).retries_remaining
          ≡ w.retry_policy.max_attempts
    unfolding spent
    spent-fits allowed = ground arith

    -- A workflow that runs its action, has a retry left and no wait for it yet: waiting for the retry
    -- and resuming from it both return. The workflow is left running at its action, with the wait
    -- completed and every other step as it was, one attempt more is used, and the attempts used and
    -- the retries remaining add up to the limit.
    pub retry-round :
        can_retry w ≡ true
        → (w' : WorkflowState) × ((wait_for_retry now error_type message true >> resume_from_retry)
              w
            ≡ (ok tt, w'))
          × IsBack w (retry_wait_step now (retry_error error_type message) w) w'
          × (w'.retry_state.attempts_used ≡ w.retry_state.attempts_used + 1)
          × (w'.retry_state.attempts_used + w'.retry_state.retries_remaining
              ≡ w.retry_policy.max_attempts)
          × (w'.retry_state.next_retry_at ≡ none)
    retry-round allowed =
        let back =
          goes_on-IsBack counted action counted-IsActive
            (retry_wait_step now (retry_error error_type message) w) absent in
        (
          retried,
          rw (waits_for_retry allowed) resumes_from_retry,
          record {
            runs = back.runs;
            current = back.current;
            same_type = back.same_type;
            wait = back.wait;
            others = back.others;
          },
          unfold spent in refl,
          spent-fits allowed,
          refl,
        )
