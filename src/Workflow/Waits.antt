-- ===== src/Workflow/Waits.antt =====
-- Waiting for an approval or a retry, and resuming (runtime/workflow.py).
use clarityos.Prelude.{
  ℕ, ◌+◌, ◌-◌, String, ◌<>◌, Bool, not, Option, none, some, List, [], ◌∷◌, ltb, if◌then◌else◌, ◌==◌,
  string_eq,
}
use clarityos.Python.Errors.{value_error}
use clarityos.Python.Exec.{Result, ok, err, continue, modify, ◌>>=◌, ◌>>◌}
use clarityos.Python.Json.{str, int, Fields}
use clarityos.Python.Text.{show_nat}
use clarityos.Prelude.Int.{pos}
use clarityos.Queue.Job.{seconds}
use clarityos.Workflow.State.{
  StepType, approval_wait, retry_wait, step_type_eq, in_progress, blocked, completed,
  step_status_eq, running, waiting, workflow_status_eq, StepError, Detail, json, moment, problem,
  RetryState, WorkflowStep, WorkflowState,
}
use clarityos.Workflow.Steps.{
  find_step, get_step, current_step, action_step, Change, when, at_step, transition_step,
  transition_workflow, move_workflow_unless, go_to, approval_step_id,
}
use clarityos.Workflow.Settings.{normalize_retry_policy}

abbrev pub Dict : Type 0
Dict = List (String × Detail)

unfoldable pub set_key : String → Detail → Dict → Dict
set_key k v [] = (k, v) ∷ []
set_key k v ((j, w) ∷ d) = if j == k then (j, v) ∷ d else (j, w) ∷ set_key k v d

-- `d.update(changes)`
unfoldable pub update_dict : Dict → Dict → Dict
unfolding set_key
update_dict [] d = d
update_dict ((k, v) ∷ changes) d = update_dict changes (set_key k v d)

-- `steps.insert(-1, step)`: in front of the last step
unfoldable pub insert_before_last : WorkflowStep → List WorkflowStep → List WorkflowStep
insert_before_last step [] = step ∷ []
insert_before_last step (last ∷ []) = step ∷ last ∷ []
insert_before_last step (s ∷ t ∷ steps) = s ∷ insert_before_last step (t ∷ steps)

-- The action is blocked, if it is in progress.
unfoldable pub block_action : Change
block_action = do
  action ← action_step
  when (action.status == in_progress) (transition_step action blocked none)

-- A new wait in front of the finish, or new details in the wait that is there.
unfoldable pub enter_wait :
    WorkflowStep → Dict → Option WorkflowStep → WorkflowState → WorkflowState
unfolding update_dict insert_before_last
enter_wait fresh changes none w = record w { steps = insert_before_last fresh w.steps }
enter_wait fresh changes (some old) w =
    at_step fresh.step_id (λ s. record s { step_details = update_dict changes s.step_details }) w

abbrev pub wait_step : String → StepType → Dict → WorkflowStep
wait_step step_id step_type details_of_step = record {
  step_id = step_id;
  step_type = step_type;
  status = in_progress;
  step_details = details_of_step;
  error = none;
}

unfoldable pub enter_approval : String → Dict → WorkflowState → WorkflowState
unfolding enter_wait update_dict
enter_approval approval_id extra w =
    enter_wait
      (wait_step (approval_step_id approval_id) approval_wait
        (update_dict extra (("approval_id", json (str approval_id)) ∷ [])))
      extra (find_step (approval_step_id approval_id) w.steps) w

unfoldable pub wait_for_approval : String → Dict → Change
unfolding block_action enter_approval
wait_for_approval approval_id extra = do
  block_action
  modify (enter_approval approval_id extra)
  move_workflow_unless waiting
  go_to (approval_step_id approval_id)

abbrev pub can_retry : WorkflowState → Bool
can_retry w = ltb w.retry_state.attempts_used w.retry_policy.max_attempts

abbrev pub retry_step_id : ℕ → String
retry_step_id attempt = "retry_wait:" <> show_nat attempt

abbrev pub retry_details : ℕ → ℕ → StepError → Dict
retry_details attempt next_retry_at error =
    ("attempt", json (int (pos attempt)))
    ∷ ("next_retry_at", moment next_retry_at)
    ∷ ("error", problem error)
    ∷ []

-- The retry state after one more attempt.
unfoldable pub spent : ℕ → StepError → WorkflowState → RetryState
spent now error w =
    let attempt = w.retry_state.attempts_used + 1 in
    record {
      attempts_used = attempt;
      retries_remaining = w.retry_policy.max_attempts - attempt;
      next_retry_at = some (now + seconds w.retry_policy.backoff_seconds);
      last_error = some error;
    }

unfoldable pub enter_retry : ℕ → StepError → WorkflowState → WorkflowState
unfolding enter_wait
enter_retry now error w =
    let attempt = w.retry_state.attempts_used + 1 in
    let details_of_step =
      retry_details attempt (now + seconds w.retry_policy.backoff_seconds) error in
    enter_wait (wait_step (retry_step_id attempt) retry_wait details_of_step) details_of_step
      (find_step (retry_step_id attempt) w.steps) w

unfoldable pub count_retry : ℕ → StepError → WorkflowState → WorkflowState
unfolding spent
count_retry now error w = record w { retry_state = spent now error w }

-- `attempt` is the number of the attempt that the workflow waits for.
unfoldable pub schedule_retry : ℕ → StepError → (attempt : ℕ) → Change
unfolding block_action enter_retry count_retry
schedule_retry now error attempt = do
  block_action
  modify (enter_retry now error)
  modify (count_retry now error)
  move_workflow_unless waiting
  go_to (retry_step_id attempt)

unfoldable pub wait_for_retry : ℕ → String → String → (retryable : Bool) → Change
unfolding schedule_retry
wait_for_retry now error_type message retryable w =
    if not retryable
    then (err (value_error "Cannot schedule a retry for a terminal error"), w)
    else if not (can_retry w)
    then (
      err (value_error ("Workflow `" <> w.workflow_id <> "` has exhausted its retry budget")),
      w,
    )
    else schedule_retry now
        (record { error_type = error_type; message = message; retryable = some retryable })
        (w.retry_state.attempts_used + 1) w

abbrev pub run_if_waiting : Change
run_if_waiting w = when (w.status == waiting) (transition_workflow running) w

-- A wait is over: it is completed, and the workflow runs again.
unfoldable pub leave_wait : WorkflowStep → Change
leave_wait step =
    when (step.status == in_progress) (transition_step step completed none) >> run_if_waiting

unfoldable pub unblock : WorkflowStep → Change
unblock action = when (action.status == blocked) (transition_step action in_progress none)

unfoldable pub resume_from_approval : String → Change
unfolding leave_wait unblock
resume_from_approval approval_id = do
  approval ← get_step (approval_step_id approval_id)
  leave_wait approval
  action ← action_step
  unblock action
  go_to action.step_id

unfoldable pub not_on_retry : WorkflowState → Result (Unit {0}) × WorkflowState
not_on_retry w =
    (err (value_error ("Workflow `" <> w.workflow_id <> "` is not waiting on a retry step")), w)

abbrev pub forget_retry : WorkflowState → WorkflowState
forget_retry w = record w { retry_state = record w.retry_state { next_retry_at = none } }

unfoldable pub leave_retry : WorkflowStep → Change
unfolding leave_wait unblock
leave_retry retry_step = do
  leave_wait retry_step
  action ← action_step
  unblock action
  modify forget_retry
  go_to action.step_id

unfoldable pub resume_from_retry : Change
unfolding not_on_retry leave_retry
resume_from_retry = do
  retry_step ← current_step
  if retry_step.step_type == retry_wait then leave_retry retry_step else not_on_retry

-- On a retry state that is not empty.
unfoldable pub configure_retry_policy : Option Fields → Change
configure_retry_policy config w =
    continue (normalize_retry_policy config)
      (λ policy w'. (
        ok tt,
        record w' {
          retry_policy = policy;
          retry_state = record w'.retry_state {
            retries_remaining = policy.max_attempts - w'.retry_state.attempts_used;
          };
        },
      ))
      w
