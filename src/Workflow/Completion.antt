-- ===== src/Workflow/Completion.antt =====
-- `complete_workflow` (runtime/workflow.py) on a workflow that runs its action.
use clarityos.Prelude.{
  String, ◌≡◌, refl, ap, ◌∙◌, false, none, some, List, arith, ◌==◌, ==_iff, ==_refl, string_eq, inl,
  inr, Bool-cases,
}
use clarityos.Python.Exec.{ok}
use clarityos.Workflow.State.{
  succeeded, workflow_status_eq, workflow_transitions, StepStatus, pending, in_progress, completed,
  step_status_eq, step_transitions, WorkflowStep, WorkflowState,
}
use clarityos.Workflow.Steps.{
  find_step, put_step, get_step, finish_step_id, transition_step, transition_workflow, start_step,
  moved_step, mark_action_completed, complete_finish_step, complete_workflow,
}
use clarityos.Workflow.Lookup.{find_step-id, find-put}
use clarityos.Workflow.Detours.{IsActive, action_id}

-- A workflow that succeeded: its action and its finish are completed, and every other step is as it
-- was.
pub record IsCompleted (w : WorkflowState) (action finish : WorkflowStep) (w' : WorkflowState)
    : Type 0 where
  pub status : w'.status ≡ succeeded
  pub current : w'.current_step_id ≡ finish_step_id
  pub action_done : find_step (action_id w) w'.steps ≡ some (moved_step completed none action)
  pub finish_done : find_step finish_step_id w'.steps ≡ some (moved_step completed none finish)
  pub others :
      (k : String)
      → (action_id w == k) ≡ false
      → (finish_step_id == k) ≡ false
      → find_step k w'.steps ≡ find_step k w.steps

module _ (w : WorkflowState) (action last : WorkflowStep) (h : IsActive w action)
    (found : find_step finish_step_id w.steps ≡ some last) (waits : last.status ≡ pending) where
  named_action : action.step_id ≡ action_id w
  named_action = find_step-id (action_id w) action w.steps h.found

  named_finish : last.step_id ≡ finish_step_id
  named_finish = find_step-id finish_step_id last w.steps found

  -- One step cannot be both: the action is in progress, the finish pending.
  two_steps : (action_id w == finish_step_id) ≡ false
  two_steps = elim (Bool-cases (action_id w == finish_step_id)) [
    | inr other ↦ other
    | inl same ↦ absurd (
        ground (
          arith,
          ap (λ k. find_step k w.steps) ((==_iff (action_id w) finish_step_id).0 same),
          h.found,
          found,
          h.active,
          waits,
        ))
  ]

  finish_other : (finish_step_id == action_id w) ≡ false
  finish_other =
      ground
        (arith, two_steps, ==_iff (action_id w) finish_step_id, ==_iff finish_step_id (action_id w))

  abbrev acted : List WorkflowStep
  acted = put_step (action_id w) (moved_step completed none) w.steps

  abbrev started : List WorkflowStep
  started = put_step finish_step_id (moved_step in_progress none) acted

  abbrev marked : WorkflowState
  marked = record w { steps = started; current_step_id = finish_step_id }

  abbrev done : WorkflowState
  done = record marked {
    steps = put_step finish_step_id (moved_step completed none) started;
    status = succeeded;
  }

  moved-id : (s : StepStatus) (t : WorkflowStep) → (moved_step s none t).step_id ≡ t.step_id
  moved-id s t = refl

  finish_waits : find_step finish_step_id acted ≡ some last
  finish_waits =
      find-put finish_step_id (action_id w) (moved_step completed none) w.steps (moved-id completed)
      ∙ rw two_steps found

  finish_started : find_step finish_step_id started ≡ some (moved_step in_progress none last)
  finish_started =
      find-put finish_step_id finish_step_id (moved_step in_progress none) acted
        (moved-id in_progress)
      ∙ rw finish_waits refl

  marks : mark_action_completed w ≡ (ok tt, marked)
  unfolding mark_action_completed get_step transition_step step_transitions start_step
  marks =
      rw h.found (rw h.active (rw named_action (rw finish_waits (rw waits (rw named_finish refl)))))

  finishes : complete_finish_step marked ≡ (ok tt, done)
  unfolding complete_finish_step get_step transition_step step_transitions start_step
      transition_workflow workflow_transitions
  finishes = rw finish_started (rw finish_started (rw h.runs (rw named_finish refl)))

  done-IsCompleted : IsCompleted w action last done
  done-IsCompleted = record {
    status = refl;
    current = refl;
    action_done =
        find-put (action_id w) finish_step_id (moved_step completed none) started
          (moved-id completed)
        ∙ rw finish_other (
            find-put (action_id w) finish_step_id (moved_step in_progress none) acted
              (moved-id in_progress)
            ∙ rw finish_other (
                find-put (action_id w) (action_id w) (moved_step completed none) w.steps
                  (moved-id completed)
                ∙ rw (==_refl (action_id w), h.found) refl));
    finish_done =
        find-put finish_step_id finish_step_id (moved_step completed none) started
          (moved-id completed)
        ∙ rw finish_started refl;
    others = λ k no_action no_finish.
        find-put k finish_step_id (moved_step completed none) started (moved-id completed)
        ∙ rw no_finish (
            find-put k finish_step_id (moved_step in_progress none) acted (moved-id in_progress)
            ∙ rw no_finish (
                find-put k (action_id w) (moved_step completed none) w.steps (moved-id completed)
                ∙ rw no_action refl));
  }

  -- A workflow that runs its action, with its finish still pending: `complete_workflow` returns and
  -- leaves the workflow succeeded at its finish, with the action and the finish completed and every
  -- other step as it was.
  pub complete_workflow_lem :
      (w' : WorkflowState) × (complete_workflow w ≡ (ok tt, w')) × IsCompleted w action last w'
  unfolding complete_workflow
  complete_workflow_lem = (done, rw marks (rw finishes refl), done-IsCompleted)
