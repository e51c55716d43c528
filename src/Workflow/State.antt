-- ===== src/Workflow/State.antt =====
-- The state of a workflow (runtime/workflow.py, `WorkflowState` and `WorkflowStep`).
use clarityos.Prelude.{
  ℕ, String, Bool, true, Option, List, [], ◌∷◌, nat_beq, Eq, string_eq, ◌≡◌, ◌↔◌, arith,
}
use clarityos.Python.Json.{Json, Fields}

pub data StepType : Type 0 where
  model tool approval_wait retry_wait finish : StepType

pub data StepStatus : Type 0 where
  pending in_progress blocked completed failed : StepStatus

pub data WorkflowStatus : Type 0 where
  running waiting succeeded failed : WorkflowStatus

abbrev pub step_type_code : StepType → ℕ
step_type_code model = 0
step_type_code tool = 1
step_type_code approval_wait = 2
step_type_code retry_wait = 3
step_type_code finish = 4

abbrev pub step_status_code : StepStatus → ℕ
step_status_code pending = 0
step_status_code in_progress = 1
step_status_code blocked = 2
step_status_code completed = 3
step_status_code failed = 4

abbrev pub workflow_status_code : WorkflowStatus → ℕ
workflow_status_code running = 0
workflow_status_code waiting = 1
workflow_status_code succeeded = 2
workflow_status_code failed = 3

pub step_type_iff :
    (a b : StepType) → (nat_beq (step_type_code a) (step_type_code b) ≡ true) ↔ (a ≡ b)
step_type_iff a b = ground arith

pub step_status_iff :
    (a b : StepStatus) → (nat_beq (step_status_code a) (step_status_code b) ≡ true) ↔ (a ≡ b)
step_status_iff a b = ground arith

pub workflow_status_iff :
    (a b : WorkflowStatus)
    → (nat_beq (workflow_status_code a) (workflow_status_code b) ≡ true) ↔ (a ≡ b)
workflow_status_iff a b = ground arith

instance abbrev pub step_type_eq : Eq StepType
step_type_eq = record {
  equals = λ a b. nat_beq (step_type_code a) (step_type_code b);
  equals_iff = step_type_iff;
}

instance abbrev pub step_status_eq : Eq StepStatus
step_status_eq = record {
  equals = λ a b. nat_beq (step_status_code a) (step_status_code b);
  equals_iff = step_status_iff;
}

instance abbrev pub workflow_status_eq : Eq WorkflowStatus
workflow_status_eq = record {
  equals = λ a b. nat_beq (workflow_status_code a) (workflow_status_code b);
  equals_iff = workflow_status_iff;
}

-- `WORKFLOW_STATUS_TRANSITIONS`
unfoldable pub workflow_transitions : WorkflowStatus → List WorkflowStatus
workflow_transitions running = waiting ∷ succeeded ∷ failed ∷ []
workflow_transitions waiting = running ∷ failed ∷ []
workflow_transitions succeeded = []
workflow_transitions failed = []

-- `STEP_STATUS_TRANSITIONS`
unfoldable pub step_transitions : StepStatus → List StepStatus
step_transitions pending = in_progress ∷ blocked ∷ completed ∷ failed ∷ []
step_transitions in_progress = blocked ∷ completed ∷ failed ∷ []
step_transitions blocked = in_progress ∷ completed ∷ failed ∷ []
step_transitions completed = []
step_transitions failed = []

-- The `error` of a step; `retryable` is there only for the error that a retry waits on.
pub record StepError : Type 0 where
  pub error_type : String
  pub message : String
  pub retryable : Option Bool

-- What the dictionary of a step's details holds.
pub data Detail : Type 0 where
  json : Json → Detail
  moment : ℕ → Detail
  problem : StepError → Detail

pub record WorkflowStep : Type 0 where
  pub step_id : String
  pub step_type : StepType
  pub status : StepStatus
  pub step_details : List (String × Detail)
  pub error : Option StepError

pub record RetryPolicy : Type 0 where
  pub max_attempts : ℕ
  pub backoff_seconds : ℕ

pub record RetryState : Type 0 where
  pub attempts_used : ℕ
  pub retries_remaining : ℕ
  pub next_retry_at : Option ℕ
  pub last_error : Option StepError

pub record SubrunPolicy : Type 0 where
  pub max_children : ℕ
  pub max_depth : ℕ
  pub allowed_agents : Option (List String)
  pub allowed_capabilities : Option (List String)
  pub allowed_tools : Option (List String)

-- A `delegation` that is not empty.
pub record Delegation : Type 0 where
  pub role : Option String
  pub assigned_by_workflow_id : Option String
  pub assigned_by_run_id : Option String
  pub allowed_capabilities : List String
  pub allowed_tools : List String
  pub task_intent : Option String
  pub expected_output : Option String
  pub completion_criteria : List String

-- An artifact or a memory: its id, and the other keys of its dictionary.
pub record Entry : Type 0 where
  pub entry_id : String
  pub fields : Fields

-- An entry of the history, `transition_entry`.
pub data WorkflowEntry : Type 0 where
  creation :
      (timestamp : ℕ)
      → WorkflowStatus
      → (current_step_id run_id latest_run_id : String) → WorkflowEntry
  status_changed : (timestamp : ℕ) → (from to : WorkflowStatus) → WorkflowEntry
  current_step_changed latest_run_attached : (timestamp : ℕ) → (from to : String) → WorkflowEntry
  step_added : (timestamp : ℕ) → (step_id : String) → StepType → StepStatus → WorkflowEntry
  step_status_changed :
      (timestamp : ℕ)
      → (step_id : String) → StepType
      → (from to : StepStatus) → Option StepError
      → WorkflowEntry
  child_workflow_registered : (timestamp : ℕ) → (child_workflow_id : String) → WorkflowEntry
  artifact_registered memory_registered :
      (timestamp : ℕ) → (id : String) → (kind : Json) → WorkflowEntry
  retry_state_updated : (timestamp : ℕ) → RetryState → WorkflowEntry

pub record WorkflowState : Type 0 where
  pub workflow_id : String
  pub run_id : String
  pub latest_run_id : String
  pub root_workflow_id : String
  pub parent_workflow_id : Option String
  pub depth : ℕ
  pub child_workflow_ids : List String
  pub agent : String
  pub run_type : StepType
  pub request : Fields
  pub artifacts : List Entry
  pub memories : List Entry
  pub shared_memories : List Entry
  pub subrun_policy : SubrunPolicy
  pub delegation : Option Delegation
  pub retry_policy : RetryPolicy
  pub retry_state : RetryState
  pub status : WorkflowStatus
  pub current_step_id : String
  pub steps : List WorkflowStep
  pub transition_history : List WorkflowEntry
  pub created_at : ℕ
  pub updated_at : ℕ
