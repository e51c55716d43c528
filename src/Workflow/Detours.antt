-- ===== src/Workflow/Detours.antt =====
-- What a wait in front of the finish does to a workflow that runs its action, and how the action goes
-- on after it.
use clarityos.Prelude.{
  String, ◌≡◌, refl, sym, ap, ◌∙◌, subst, false, none, some, List, arith, ◌==◌, ==_iff, ==_refl,
  string_eq, inl, inr, Bool-cases,
}
use clarityos.Python.Exec.{ok}
use clarityos.Workflow.State.{
  StepStatus, in_progress, blocked, completed, step_status_eq, running, waiting, step_type_eq,
  workflow_status_eq, step_transitions, workflow_transitions, WorkflowStep, WorkflowState,
}
use clarityos.Workflow.Steps.{
  find_step, put_step, get_step, action_step_id, moved_step, at_step, transition_step,
  transition_workflow,
}
use clarityos.Workflow.Waits.{block_action, insert_before_last, unblock, leave_wait}
use clarityos.Workflow.Lookup.{find_step-id, find-put, find-insert, find-inserted}

-- A workflow whose action is in progress.
pub record IsActive (w : WorkflowState) (action : WorkflowStep) : Type 0 where
  pub runs : w.status ≡ running
  pub found : find_step (action_step_id w.run_type) w.steps ≡ some action
  pub active : action.status ≡ in_progress

abbrev pub action_id : WorkflowState → String
action_id w = action_step_id w.run_type

-- The workflow runs again at its action: the wait is completed, and every other step is as it was.
pub record IsBack (w : WorkflowState) (new : WorkflowStep) (w' : WorkflowState) : Type 0 where
  pub runs : w'.status ≡ running
  pub current : w'.current_step_id ≡ action_id w
  pub same_type : w'.run_type ≡ w.run_type
  pub wait : find_step new.step_id w'.steps ≡ some (moved_step completed none new)
  pub others :
      (k : String) → (new.step_id == k) ≡ false → find_step k w'.steps ≡ find_step k w.steps

moved-id : (status : StepStatus) (s : WorkflowStep) → (moved_step status none s).step_id ≡ s.step_id
moved-id status s = refl

-- The steps with the action blocked and a new wait.
abbrev pub with_wait : WorkflowStep → WorkflowState → List WorkflowStep
with_wait new w = insert_before_last new (put_step (action_id w) (moved_step blocked none) w.steps)

abbrev pub waits_at : WorkflowStep → WorkflowState → WorkflowState
waits_at new w = record w {
  steps = with_wait new w;
  status = waiting;
  current_step_id = new.step_id;
}

module _ (w : WorkflowState) (action : WorkflowStep) (h : IsActive w action) where
  pub named : action.step_id ≡ action_id w
  named = find_step-id (action_id w) action w.steps h.found

  pub block_eq : block_action w ≡ (ok tt, at_step (action_id w) (moved_step blocked none) w)
  unfolding block_action get_step transition_step step_transitions
  block_eq = rw h.found (rw h.active (rw named refl))

  module _ (new : WorkflowStep) (absent : find_step new.step_id w.steps ≡ none) where
    other_id : (action_id w == new.step_id) ≡ false
    other_id = elim (Bool-cases (action_id w == new.step_id)) [
      | inr other ↦ other
      | inl same ↦ cc (
        ap (λ k. find_step k w.steps) ((==_iff (action_id w) new.step_id).0 same),
        absent,
        h.found,
      )
    ]

    id_other : (new.step_id == action_id w) ≡ false
    id_other =
        ground (arith, other_id, ==_iff (action_id w) new.step_id, ==_iff new.step_id (action_id w))

    pub still_absent :
        find_step new.step_id (put_step (action_id w) (moved_step blocked none) w.steps) ≡ none
    still_absent =
        find-put new.step_id (action_id w) (moved_step blocked none) w.steps (moved-id blocked)
        ∙ rw other_id absent

    pub wait_found : find_step new.step_id (with_wait new w) ≡ some new
    wait_found =
        find-inserted new (put_step (action_id w) (moved_step blocked none) w.steps) still_absent

    blocked_found :
        find_step (action_id w) (with_wait new w) ≡ some (moved_step blocked none action)
    blocked_found =
        find-insert (action_id w) new _ id_other
        ∙ find-put (action_id w) (action_id w) (moved_step blocked none) w.steps (moved-id blocked)
        ∙ rw (==_refl (action_id w), h.found) refl

    -- The workflow when the wait is over, and when the action goes on.
    abbrev pub left : WorkflowState
    left = record (waits_at new w) {
      steps = put_step new.step_id (moved_step completed none) (with_wait new w);
      status = running;
    }

    abbrev pub goes_on : WorkflowState
    goes_on = record (at_step (action_id w) (moved_step in_progress none) left) {
      current_step_id = action_id w;
    }

    pub leave_eq : new.status ≡ in_progress → leave_wait new (waits_at new w) ≡ (ok tt, left)
    unfolding leave_wait transition_step step_transitions transition_workflow workflow_transitions
    leave_eq fresh = rw fresh refl

    pub left_found :
        find_step (action_id w) (put_step new.step_id (moved_step completed none) (with_wait new w))
        ≡ some (moved_step blocked none action)
    left_found =
        find-put (action_id w) new.step_id (moved_step completed none) _ (moved-id completed)
        ∙ rw id_other blocked_found

    pub unblock_eq :
        unblock (moved_step blocked none action) left
        ≡ (ok tt, at_step (action_id w) (moved_step in_progress none) left)
    unfolding unblock transition_step step_transitions
    unblock_eq = rw named refl

    action_same : moved_step in_progress none (moved_step blocked none action) ≡ action
    action_same = ap (λ x. record action { status = x }) (sym h.active)

    wait_completed : find_step new.step_id goes_on.steps ≡ some (moved_step completed none new)
    wait_completed =
        find-put new.step_id (action_id w) (moved_step in_progress none) _ (moved-id in_progress)
        ∙ rw other_id (
            find-put new.step_id new.step_id (moved_step completed none) _ (moved-id completed)
            ∙ rw (==_refl new.step_id, wait_found) refl)

    action_back : find_step (action_id w) goes_on.steps ≡ find_step (action_id w) w.steps
    action_back =
        find-put (action_id w) (action_id w) (moved_step in_progress none) _ (moved-id in_progress)
        ∙ rw (==_refl (action_id w), left_found) (ap some action_same ∙ sym h.found)

    others_back :
        (k : String) → (new.step_id == k) ≡ false → find_step k goes_on.steps ≡ find_step k w.steps
    others_back k other = elim (Bool-cases (action_id w == k)) [
      | inl same ↦
          subst (λ i. find_step i goes_on.steps ≡ find_step i w.steps)
            ((==_iff (action_id w) k).0 same) action_back
      | inr no_action ↦
          find-put k (action_id w) (moved_step in_progress none) _ (moved-id in_progress)
          ∙ rw no_action (
              find-put k new.step_id (moved_step completed none) _ (moved-id completed)
              ∙ rw other (
                  find-insert k new _ other
                  ∙ (find-put k (action_id w) (moved_step blocked none) w.steps (moved-id blocked)
                      ∙ rw no_action refl)))
    ]

    pub goes_on-IsBack : IsBack w new goes_on
    goes_on-IsBack = record {
      runs = refl;
      current = refl;
      same_type = refl;
      wait = wait_completed;
      others = others_back;
    }
