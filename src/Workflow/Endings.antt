-- ===== src/Workflow/Endings.antt =====
-- A workflow that is over stays so, whatever operations follow.
use clarityos.Prelude.{
  ℕ, ◌+◌, String, Bool, ◌≡◌, refl, sym, ◌∙◌, subst, true, false, not, Option, none, some, List, [],
  ◌∷◌, if◌then◌else◌, ◌==◌, string_eq, elem, inl, inr, Bool-cases, ◌⊎◌,
}
use clarityos.Python.Exec.{modify}
use clarityos.Queue.Job.{seconds}
use clarityos.Workflow.State.{
  WorkflowStatus, succeeded, waiting, running, workflow_status_eq, StepStatus, in_progress, blocked,
  completed, step_status_eq, StepError, step_type_eq, retry_wait, WorkflowStep, WorkflowState,
}
use clarityos.Workflow.Steps.{
  find_step, Change, when, finish_step_id, transition_step, mark_action_completed,
  complete_finish_step, complete_workflow, fail_workflow, fail_step, fail_unless_over,
  approval_step_id,
}
use clarityos.Workflow.Waits.{
  Dict, block_action, enter_wait, schedule_retry, enter_retry, wait_for_approval, wait_for_retry,
  resume_from_approval, resume_from_retry, leave_wait, leave_retry, not_on_retry, unblock,
  run_if_waiting, enter_approval, count_retry, retry_step_id, retry_details, forget_retry,
  can_retry,
}
use clarityos.Workflow.History.{attach_run_to_workflow, set_action_details}
use clarityos.Workflow.Keeping.{
  IsOver, KeepsOver, then-KeepsOver, next-KeepsOver, when-KeepsOver, get_step-KeepsOver,
  current_step-KeepsOver, action_step-KeepsOver, transition_step-KeepsOver,
  transition_workflow-KeepsOver, move-KeepsOver, start_step-KeepsOver, go_to-KeepsOver,
}

complete_step-KeepsOver :
    (s : WorkflowStep)
    → KeepsOver (when (not (s.status == completed)) (transition_step s completed none))
complete_step-KeepsOver s = when-KeepsOver _ _ (transition_step-KeepsOver s completed none)

mark_action_completed-KeepsOver : KeepsOver mark_action_completed
unfolding mark_action_completed
mark_action_completed-KeepsOver = then-KeepsOver _ _ action_step-KeepsOver λ a.
    next-KeepsOver _ _ (complete_step-KeepsOver a) (
      then-KeepsOver _ _ (get_step-KeepsOver finish_step_id)
        λ f. next-KeepsOver _ _ (start_step-KeepsOver f) (go_to-KeepsOver f.step_id))

complete_finish_step-KeepsOver : KeepsOver complete_finish_step
unfolding complete_finish_step
complete_finish_step-KeepsOver = then-KeepsOver _ _ (get_step-KeepsOver finish_step_id) λ a.
    next-KeepsOver _ _ (start_step-KeepsOver a) (
      then-KeepsOver _ _ (get_step-KeepsOver finish_step_id) λ f.
        next-KeepsOver _ _ (complete_step-KeepsOver f)
          (next-KeepsOver _ _ (move-KeepsOver succeeded) (go_to-KeepsOver f.step_id)))

complete_workflow-KeepsOver : KeepsOver complete_workflow
unfolding complete_workflow
complete_workflow-KeepsOver =
    next-KeepsOver _ _ mark_action_completed-KeepsOver complete_finish_step-KeepsOver

fail_step-KeepsOver : (s : WorkflowStep) (e : StepError) → KeepsOver (fail_step s e)
fail_step-KeepsOver s e =
    when-KeepsOver (not (elem s.status (completed ∷ StepStatus.failed ∷ []))) _
      (transition_step-KeepsOver s StepStatus.failed (some e))

fail_unless_over-KeepsOver : KeepsOver fail_unless_over
fail_unless_over-KeepsOver = record {
  keeps = λ w over.
      (when-KeepsOver (elem w.status (waiting ∷ running ∷ [])) _
          (transition_workflow-KeepsOver WorkflowStatus.failed)).keeps
        w over;
}

run_if_waiting-KeepsOver : KeepsOver run_if_waiting
run_if_waiting-KeepsOver = record {
  keeps = λ w over.
      (when-KeepsOver (w.status == waiting) _ (transition_workflow-KeepsOver running)).keeps w over;
}

modify-KeepsOver :
    (f : WorkflowState → WorkflowState)
    → ((w : WorkflowState) → (f w).status ≡ w.status)
    → KeepsOver (modify f)
modify-KeepsOver f same = record { keeps = λ w over. same w }

fail_workflow-KeepsOver : (t m : String) → KeepsOver (fail_workflow t m)
unfolding fail_workflow
fail_workflow-KeepsOver t m =
    then-KeepsOver _ _ current_step-KeepsOver
      λ s. next-KeepsOver _ _ (fail_step-KeepsOver s _) fail_unless_over-KeepsOver

block_action-KeepsOver : KeepsOver block_action
unfolding block_action
block_action-KeepsOver =
    then-KeepsOver _ _ action_step-KeepsOver
      λ a. when-KeepsOver _ _ (transition_step-KeepsOver a blocked none)

enter_wait-status :
    (new : WorkflowStep) (d : Dict) (o : Option WorkflowStep) (w : WorkflowState)
    → (enter_wait new d o w).status ≡ w.status
unfolding enter_wait
enter_wait-status new d none w = refl
enter_wait-status new d (some s) w = refl

wait_for_approval-KeepsOver : (id : String) (extra : Dict) → KeepsOver (wait_for_approval id extra)
unfolding wait_for_approval
wait_for_approval-KeepsOver id extra = next-KeepsOver _ _ block_action-KeepsOver (
    next-KeepsOver _ _
      (modify-KeepsOver (enter_approval id extra) (λ w.
        unfold enter_approval in
        enter_wait-status _ extra (find_step (approval_step_id id) w.steps) w))
      (next-KeepsOver _ _ (move-KeepsOver waiting) (go_to-KeepsOver (approval_step_id id))))

enter_retry-status :
    (now : ℕ) (e : StepError) (w : WorkflowState) → (enter_retry now e w).status ≡ w.status
unfolding enter_retry
enter_retry-status now e w =
    let n = w.retry_state.attempts_used + 1 in
    enter_wait-status _ (retry_details n (now + seconds w.retry_policy.backoff_seconds) e)
      (find_step (retry_step_id n) w.steps) w

schedule_retry-KeepsOver : (now : ℕ) (e : StepError) (n : ℕ) → KeepsOver (schedule_retry now e n)
unfolding schedule_retry
schedule_retry-KeepsOver now e n = next-KeepsOver _ _ block_action-KeepsOver (
    next-KeepsOver _ _ (modify-KeepsOver (enter_retry now e) (enter_retry-status now e)) (
      next-KeepsOver _ _ (modify-KeepsOver (count_retry now e) (λ w. unfold count_retry in refl))
        (next-KeepsOver _ _ (move-KeepsOver waiting) (go_to-KeepsOver (retry_step_id n)))))

wait_for_retry-KeepsOver :
    (now : ℕ) (t m : String) (retryable : Bool) → KeepsOver (wait_for_retry now t m retryable)
unfolding wait_for_retry
wait_for_retry-KeepsOver now t m false = record { keeps = λ w over. refl }
wait_for_retry-KeepsOver now t m true = record {
  keeps = λ w over. elim (Bool-cases (can_retry w)) [
    | inl allowed ↦ rw allowed ((schedule_retry-KeepsOver now _ _).keeps w over)
    | inr spent_all ↦ rw spent_all refl
  ];
}

leave_wait-KeepsOver : (s : WorkflowStep) → KeepsOver (leave_wait s)
unfolding leave_wait
leave_wait-KeepsOver s =
    next-KeepsOver _ _
      (when-KeepsOver (s.status == in_progress) _ (transition_step-KeepsOver s completed none))
      run_if_waiting-KeepsOver

unblock-KeepsOver : (s : WorkflowStep) → KeepsOver (unblock s)
unfolding unblock
unblock-KeepsOver s = when-KeepsOver _ _ (transition_step-KeepsOver s in_progress none)

resume_from_approval-KeepsOver : (id : String) → KeepsOver (resume_from_approval id)
unfolding resume_from_approval
resume_from_approval-KeepsOver id = then-KeepsOver _ _ (get_step-KeepsOver _) λ s.
    next-KeepsOver _ _ (leave_wait-KeepsOver s) (
      then-KeepsOver _ _ action_step-KeepsOver
        λ a. next-KeepsOver _ _ (unblock-KeepsOver a) (go_to-KeepsOver a.step_id))

leave_retry-KeepsOver : (s : WorkflowStep) → KeepsOver (leave_retry s)
unfolding leave_retry
leave_retry-KeepsOver s = next-KeepsOver _ _ (leave_wait-KeepsOver s) (
    then-KeepsOver _ _ action_step-KeepsOver λ a.
      next-KeepsOver _ _ (unblock-KeepsOver a) (
        next-KeepsOver _ _ (modify-KeepsOver forget_retry (λ v. refl)) (go_to-KeepsOver a.step_id)))

if_retry-KeepsOver :
    (b : Bool) (s : WorkflowStep) → KeepsOver (if b then leave_retry s else not_on_retry)
unfolding not_on_retry
if_retry-KeepsOver true s = leave_retry-KeepsOver s
if_retry-KeepsOver false s = record { keeps = λ w over. refl }

resume_from_retry-KeepsOver : KeepsOver resume_from_retry
unfolding resume_from_retry not_on_retry
resume_from_retry-KeepsOver =
    then-KeepsOver _ _ current_step-KeepsOver λ s. if_retry-KeepsOver (s.step_type == retry_wait) s

attach_run-KeepsOver : (run_id : String) → KeepsOver (attach_run_to_workflow run_id)
unfolding attach_run_to_workflow
attach_run-KeepsOver run_id = modify-KeepsOver _ (λ w. refl)

set_action_details-KeepsOver : (changes : Dict) → KeepsOver (set_action_details changes)
unfolding set_action_details
set_action_details-KeepsOver changes =
    then-KeepsOver _ _ action_step-KeepsOver λ a. modify-KeepsOver _ (λ w. refl)

-- The operations that work on the steps of a workflow.
pub data Operation : Type 0 where
  completes : Operation
  fails : (error_type message : String) → Operation
  waits_for_approval : (approval_id : String) → Dict → Operation
  waits_for_retry : (now : ℕ) (error_type message : String) (retryable : Bool) → Operation
  resumes_from_approval : (approval_id : String) → Operation
  resumes_from_retry : Operation
  attaches_run : (run_id : String) → Operation
  sets_details : Dict → Operation

unfoldable pub run : Operation → Change
run completes = complete_workflow
run (fails t m) = fail_workflow t m
run (waits_for_approval id extra) = wait_for_approval id extra
run (waits_for_retry now t m retryable) = wait_for_retry now t m retryable
run (resumes_from_approval id) = resume_from_approval id
run resumes_from_retry = resume_from_retry
run (attaches_run run_id) = attach_run_to_workflow run_id
run (sets_details changes) = set_action_details changes

-- The operations one after the other; what each call returns or raises is dropped.
unfoldable pub run_all : List Operation → WorkflowState → WorkflowState
run_all [] w = w
run_all (op ∷ ops) w = run_all ops (run op w).1

run-KeepsOver : (op : Operation) → KeepsOver (run op)
unfolding run
run-KeepsOver completes = complete_workflow-KeepsOver
run-KeepsOver (fails t m) = fail_workflow-KeepsOver t m
run-KeepsOver (waits_for_approval id extra) = wait_for_approval-KeepsOver id extra
run-KeepsOver (waits_for_retry now t m retryable) = wait_for_retry-KeepsOver now t m retryable
run-KeepsOver (resumes_from_approval id) = resume_from_approval-KeepsOver id
run-KeepsOver resumes_from_retry = resume_from_retry-KeepsOver
run-KeepsOver (attaches_run run_id) = attach_run-KeepsOver run_id
run-KeepsOver (sets_details changes) = set_action_details-KeepsOver changes

-- A workflow that succeeded or failed keeps its status whatever operations follow, also where they
-- raise.
pub over-stays :
    (ops : List Operation) (w : WorkflowState)
    → (w.status ≡ succeeded) ⊎ (w.status ≡ WorkflowStatus.failed)
    → (run_all ops w).status ≡ w.status
unfolding run_all
over-stays [] w over = refl
over-stays (op ∷ ops) w over =
    let same = (run-KeepsOver op).keeps w over in
    over-stays ops (run op w).1 (subst IsOver (sym same) over) ∙ same
