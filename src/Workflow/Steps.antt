-- ===== src/Workflow/Steps.antt =====
-- Finding and moving the steps of a workflow (runtime/workflow.py). A step that the source holds and
-- changes in place is the first one with its id in the list.
use clarityos.Prelude.{
  String, ◌<>◌, Bool, true, false, not, Option, none, some, List, [], ◌∷◌, if◌then◌else◌, ◌==◌,
  string_eq, elem,
}
use clarityos.Python.Errors.{value_error}
use clarityos.Python.Exec.{Result, ok, err, Exec, modify, ◌>>=◌, ◌>>◌}
use clarityos.Workflow.State.{
  StepType, model, tool, approval_wait, retry_wait, StepStatus, pending, in_progress, blocked,
  completed, step_status_eq, WorkflowStatus, running, waiting, succeeded, workflow_status_eq,
  workflow_transitions, step_transitions, StepError, WorkflowStep, WorkflowState,
}

abbrev pub step_type_name : StepType → String
step_type_name model = "model"
step_type_name tool = "tool"
step_type_name approval_wait = "approval_wait"
step_type_name retry_wait = "retry_wait"
step_type_name StepType.finish = "finish"

abbrev pub step_status_name : StepStatus → String
step_status_name pending = "pending"
step_status_name in_progress = "in_progress"
step_status_name blocked = "blocked"
step_status_name completed = "completed"
step_status_name StepStatus.failed = "failed"

abbrev pub workflow_status_name : WorkflowStatus → String
workflow_status_name running = "running"
workflow_status_name waiting = "waiting"
workflow_status_name succeeded = "succeeded"
workflow_status_name WorkflowStatus.failed = "failed"

-- `action_step_id`, `finish_step_id` and `approval_step_id`
abbrev pub action_step_id : StepType → String
action_step_id run_type = step_type_name run_type <> "_step"

abbrev pub finish_step_id : String
finish_step_id = "finish_step"

abbrev pub approval_step_id : String → String
approval_step_id approval_id = "approval_wait:" <> approval_id

unfoldable pub find_step : String → List WorkflowStep → Option WorkflowStep
find_step step_id [] = none
find_step step_id (s ∷ steps) = if s.step_id == step_id then some s else find_step step_id steps

-- The change of a step in place.
unfoldable pub put_step :
    String → (WorkflowStep → WorkflowStep) → List WorkflowStep → List WorkflowStep
put_step step_id f [] = []
put_step step_id f (s ∷ steps) =
    if s.step_id == step_id then f s ∷ steps else s ∷ put_step step_id f steps

step_or_unknown : String → Option WorkflowStep → Result WorkflowStep
step_or_unknown step_id none = err (value_error ("Unknown workflow step: " <> step_id))
step_or_unknown step_id (some s) = ok s

unfoldable pub get_step : String → Exec WorkflowState WorkflowStep
unfolding step_or_unknown
get_step step_id w = (step_or_unknown step_id (find_step step_id w.steps), w)

abbrev pub current_step : Exec WorkflowState WorkflowStep
current_step w = get_step w.current_step_id w

abbrev pub action_step : Exec WorkflowState WorkflowStep
action_step w = get_step (action_step_id w.run_type) w

abbrev pub Change : Type 0
Change = Exec WorkflowState (Unit {0})

-- `if b: m`
abbrev pub when : Bool → Change → Change
when true m w = m w
when false m w = (ok tt, w)

abbrev pub at_step : String → (WorkflowStep → WorkflowStep) → WorkflowState → WorkflowState
at_step step_id f w = record w { steps = put_step step_id f w.steps }

abbrev pub moved_step : StepStatus → Option StepError → WorkflowStep → WorkflowStep
moved_step status none s = record s { status = status }
moved_step status (some e) s = record s { status = status; error = some e }

unfoldable pub transition_step : WorkflowStep → StepStatus → Option StepError → Change
transition_step step next_status error w =
    if elem next_status (step_transitions step.status)
    then (ok tt, at_step step.step_id (moved_step next_status error) w)
    else (
      err (
          value_error (
            "Cannot transition workflow step `"
            <> step.step_id
            <> "` from `"
            <> step_status_name step.status
            <> "` to `"
            <> step_status_name next_status
            <> "`")),
      w,
    )

unfoldable pub transition_workflow : WorkflowStatus → Change
transition_workflow next_status w =
    if elem next_status (workflow_transitions w.status)
    then (ok tt, record w { status = next_status })
    else (
      err (
          value_error (
            "Cannot transition workflow `"
            <> w.workflow_id
            <> "` from `"
            <> workflow_status_name w.status
            <> "` to `"
            <> workflow_status_name next_status
            <> "`")),
      w,
    )

abbrev pub move_workflow_unless : WorkflowStatus → Change
move_workflow_unless next_status w =
    when (not (w.status == next_status)) (transition_workflow next_status) w

unfoldable pub start_step : WorkflowStep → Change
start_step step = when (step.status == pending) (transition_step step in_progress none)

abbrev pub go_to : String → Change
go_to step_id = modify (λ w. record w { current_step_id = step_id })

unfoldable pub mark_action_completed : Change
mark_action_completed = do
  action ← action_step
  when (not (action.status == completed)) (transition_step action completed none)
  finish_step ← get_step finish_step_id
  start_step finish_step
  go_to finish_step.step_id

-- The step is looked up again behind its start, which changes it.
unfoldable pub complete_finish_step : Change
complete_finish_step = do
  waiting_step ← get_step finish_step_id
  start_step waiting_step
  finish_step ← get_step finish_step_id
  when (not (finish_step.status == completed)) (transition_step finish_step completed none)
  move_workflow_unless succeeded
  go_to finish_step.step_id

unfoldable pub complete_workflow : Change
complete_workflow = mark_action_completed >> complete_finish_step

abbrev failure : String → String → StepError
failure error_type message = record { error_type = error_type; message = message; retryable = none }

abbrev pub fail_step : WorkflowStep → StepError → Change
fail_step step error =
    when (not (elem step.status (completed ∷ StepStatus.failed ∷ [])))
      (transition_step step StepStatus.failed (some error))

abbrev pub fail_unless_over : Change
fail_unless_over w =
    when (elem w.status (waiting ∷ running ∷ [])) (transition_workflow WorkflowStatus.failed) w

unfoldable pub fail_workflow : String → String → Change
fail_workflow error_type message = do
  step ← current_step
  fail_step step (failure error_type message)
  fail_unless_over
