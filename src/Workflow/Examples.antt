-- ===== src/Workflow/Examples.antt =====
-- The theorems of the workflows at small workflows.
use clarityos.Prelude.{
  arith, List, ◌↔◌, true, ◌+◌, ◌≡◌, refl, none, some, [], ◌∷◌, arith, inl, string_eq,
}
use clarityos.Python.Exec.{ok, ◌>>◌}
use clarityos.Python.Json.{end}
use clarityos.Python.Text.{show_nat}
use clarityos.Workflow.State.{
  WorkflowEntry, Delegation, model, finish, pending, in_progress, running, succeeded, WorkflowStep,
  WorkflowState,
}
use clarityos.Workflow.Steps.{find_step, complete_workflow}
use clarityos.Workflow.Waits.{
  wait_for_approval, resume_from_approval, wait_for_retry, resume_from_retry,
}
use clarityos.Workflow.Children.{new_step, no_children, register_child_workflow}
use clarityos.Workflow.Detours.{IsActive, IsBack}
use clarityos.Workflow.Rounds.{
  approval_wait_step, retry_error, retry_wait_step, approval-round, retry-round,
}
use clarityos.Workflow.Settings.{delegation_denial_reason}
use clarityos.Python.Directory.{Directory, read, write}
use clarityos.Workflow.History.{write_workflow}
use clarityos.Workflow.Writes.{IsSettled, write_workflow-keeps_history}
use clarityos.Workflow.Registers.{
  Allows, delegation_denial_reason-Allows, IsWithinChildren, Registers,
  register_child_workflow-IsWithinChildren,
}
use clarityos.Workflow.Endings.{completes, resumes_from_retry, run_all, over-stays}
use clarityos.Workflow.Completion.{IsCompleted, complete_workflow_lem}

abbrev action : WorkflowStep
action = new_step "model_step" model in_progress

abbrev last : WorkflowStep
last = new_step "finish_step" finish pending

-- A workflow of a model run, with two retries and one child allowed.
abbrev sample : WorkflowState
sample = record {
  workflow_id = "w";
  run_id = "w";
  latest_run_id = "w";
  root_workflow_id = "w";
  parent_workflow_id = none;
  depth = 0;
  child_workflow_ids = [];
  agent = "writer";
  run_type = model;
  request = end;
  artifacts = [];
  memories = [];
  shared_memories = [];
  subrun_policy = record no_children { max_children = 1; max_depth = 1 };
  delegation = none;
  retry_policy = record { max_attempts = 2; backoff_seconds = 30 };
  retry_state = record {
    attempts_used = 0;
    retries_remaining = 2;
    next_retry_at = none;
    last_error = none;
  };
  status = running;
  current_step_id = "model_step";
  steps = action ∷ last ∷ [];
  transition_history = [];
  created_at = 5;
  updated_at = 5;
}

sample-IsActive : IsActive sample action
unfolding find_step
sample-IsActive = record { runs = refl; found = refl; active = refl }

approval-round_example :
    (w' : WorkflowState) × ((wait_for_approval "p" [] >> resume_from_approval "p") sample
      ≡ (ok tt, w'))
    × IsBack sample (approval_wait_step "p" []) w'
unfolding find_step
approval-round_example = approval-round sample action sample-IsActive "p" [] refl

retry-round_example :
    (w' : WorkflowState) × ((wait_for_retry 50 "TimeoutError" "late" true >> resume_from_retry)
        sample
      ≡ (ok tt, w'))
    × IsBack sample (retry_wait_step 50 (retry_error "TimeoutError" "late") sample) w'
    × (w'.retry_state.attempts_used ≡ 1)
    × (w'.retry_state.attempts_used + w'.retry_state.retries_remaining ≡ 2)
    × (w'.retry_state.next_retry_at ≡ none)
unfolding find_step show_nat
retry-round_example = retry-round sample action sample-IsActive 50 "TimeoutError" "late" refl refl

complete_workflow_lem_example :
    (w' : WorkflowState) × (complete_workflow sample ≡ (ok tt, w'))
    × IsCompleted sample action last w'
unfolding find_step
complete_workflow_lem_example = complete_workflow_lem sample action last sample-IsActive refl refl

sample-IsWithinChildren : IsWithinChildren sample
sample-IsWithinChildren = record {
  shallow = λ h. omega arith;
  bounded = ground arith;
  distinct = tt;
}

register_child_workflow-IsWithinChildren_example :
    IsWithinChildren (register_child_workflow "c" sample).1
    × Registers "c" sample (register_child_workflow "c" sample)
register_child_workflow-IsWithinChildren_example =
    register_child_workflow-IsWithinChildren "c" sample sample-IsWithinChildren

abbrev over : WorkflowState
over = record sample { status = succeeded }

over-stays_example : (run_all (completes ∷ resumes_from_retry ∷ []) over).status ≡ succeeded
over-stays_example = over-stays (completes ∷ resumes_from_retry ∷ []) over (inl refl)

abbrev stored : Directory WorkflowState
stored = ("w", sample) ∷ []

sample-stored : read sample.workflow_id stored ≡ some sample
unfolding read
sample-stored = refl

write_workflow-keeps_history_example :
    (after : WorkflowState) × (entries : List WorkflowEntry) × (write_workflow 9 over stored
      ≡ (ok after, write "w" after stored))
    × (after.transition_history ≡ entries)
    × ((entries ≡ []) ↔ IsSettled sample over)
    × (after.updated_at ≡ 9)
    × (after.status ≡ succeeded)
    × (after.steps ≡ sample.steps)
    × (after.retry_state ≡ sample.retry_state)
write_workflow-keeps_history_example =
    write_workflow-keeps_history 9 over sample stored sample-stored

abbrev readers : Delegation
readers = record {
  role = none;
  assigned_by_workflow_id = none;
  assigned_by_run_id = none;
  allowed_capabilities = "file_read" ∷ [];
  allowed_tools = "cat" ∷ [];
  task_intent = none;
  expected_output = none;
  completion_criteria = [];
}

delegation_denial_reason-Allows_example :
    (delegation_denial_reason "w" (some readers) "file_read" (some "cat") ≡ none)
    ↔ Allows readers "file_read" (some "cat")
delegation_denial_reason-Allows_example =
    delegation_denial_reason-Allows "w" readers "file_read" (some "cat")
