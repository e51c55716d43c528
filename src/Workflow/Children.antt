-- ===== src/Workflow/Children.antt =====
-- New workflows, and what is registered with a workflow: children, artifacts and memories
-- (runtime/workflow.py).
use clarityos.Prelude.{
  ℕ, String, ◌<>◌, Bool, not, ◌&&◌, Option, none, some, List, [], ◌∷◌, ◌++◌, ltb, length, any_of,
  if◌then◌else◌, ◌==◌, string_eq, elem,
}
use clarityos.Python.Errors.{Exception, value_error}
use clarityos.Python.Exec.{Result, ok, err, and_then, map_result, continue}
use clarityos.Python.Json.{Fields}
use clarityos.Workflow.State.{
  StepType, finish, StepStatus, in_progress, pending, running, SubrunPolicy, RetryPolicy, Entry,
  WorkflowStep, WorkflowState,
}
use clarityos.Workflow.Steps.{action_step_id, finish_step_id, Change}
use clarityos.Workflow.Settings.{
  normalize_subrun_policy, normalize_delegation, normalize_shared_memories, default_retry_state,
}

unfoldable pub can_spawn_child_workflow : WorkflowState → Bool
can_spawn_child_workflow w =
    ltb w.depth w.subrun_policy.max_depth
    && ltb (length w.child_workflow_ids) w.subrun_policy.max_children

abbrev pub cannot_spawn : WorkflowState → Exception
cannot_spawn w =
    value_error ("Workflow `" <> w.workflow_id <> "` cannot spawn more child workflows")

unfoldable pub register_child_workflow : String → Change
unfolding can_spawn_child_workflow
register_child_workflow child w =
    if elem child w.child_workflow_ids
    then (ok tt, w)
    else if not (can_spawn_child_workflow w)
    then (err (cannot_spawn w), w)
    else (ok tt, record w { child_workflow_ids = w.child_workflow_ids ++ child ∷ [] })

abbrev pub has_id : String → Entry → Bool
has_id entry_id e = e.entry_id == entry_id

unfoldable pub register_artifact : Entry → WorkflowState → WorkflowState
register_artifact artifact w =
    if any_of (has_id artifact.entry_id) w.artifacts
    then w
    else record w { artifacts = w.artifacts ++ artifact ∷ [] }

-- The first memory with the id is replaced; a new one goes to the end.
unfoldable pub put_memory : Entry → List Entry → List Entry
put_memory memory [] = memory ∷ []
put_memory memory (m ∷ memories) =
    if has_id memory.entry_id m then memory ∷ memories else m ∷ put_memory memory memories

unfoldable pub register_memory : Entry → WorkflowState → WorkflowState
unfolding put_memory
register_memory memory w = record w { memories = put_memory memory w.memories }

unfoldable pub configure_subrun_policy : Option Fields → Change
configure_subrun_policy config w =
    continue (normalize_subrun_policy config)
      (λ policy w'. (ok tt, record w' { subrun_policy = policy })) w

-- `root_workflow_id or run_id`
abbrev pub root_or : String → Option String → String
root_or run_id none = run_id
root_or run_id (some root) = if root == "" then run_id else root

abbrev pub new_step : String → StepType → StepStatus → WorkflowStep
new_step step_id step_type status = record {
  step_id = step_id;
  step_type = step_type;
  status = status;
  step_details = [];
  error = none;
}

abbrev pub no_retries : RetryPolicy
no_retries = record { max_attempts = 0; backoff_seconds = 0 }

abbrev pub no_children : SubrunPolicy
no_children = record {
  max_children = 0;
  max_depth = 0;
  allowed_agents = none;
  allowed_capabilities = none;
  allowed_tools = none;
}

-- The arguments of `create_workflow_state`.
pub record WorkflowRequest : Type 0 where
  pub run_id : String
  pub agent : String
  pub run_type : StepType
  pub request : Fields
  pub parent_workflow_id : Option String
  pub root_workflow_id : Option String
  pub depth : ℕ
  pub delegation : Option Fields
  pub shared_memories : List Entry

unfoldable pub create_workflow_state : ℕ → WorkflowRequest → Result WorkflowState
create_workflow_state now r = and_then (normalize_shared_memories r.shared_memories) λ shared.
    map_result
      (λ given. record {
        workflow_id = r.run_id;
        run_id = r.run_id;
        latest_run_id = r.run_id;
        root_workflow_id = root_or r.run_id r.root_workflow_id;
        parent_workflow_id = r.parent_workflow_id;
        depth = r.depth;
        child_workflow_ids = [];
        agent = r.agent;
        run_type = r.run_type;
        request = r.request;
        artifacts = [];
        memories = [];
        shared_memories = shared;
        subrun_policy = no_children;
        delegation = given;
        retry_policy = no_retries;
        retry_state = default_retry_state no_retries;
        status = running;
        current_step_id = action_step_id r.run_type;
        steps =
            new_step (action_step_id r.run_type) r.run_type in_progress
            ∷ new_step finish_step_id finish pending
            ∷ [];
        transition_history = [];
        created_at = now;
        updated_at = now;
      })
      (normalize_delegation r.delegation)
