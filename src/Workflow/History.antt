-- ===== src/Workflow/History.antt =====
-- Writing a workflow with the history of its changes, and two small changes of it (runtime/workflow.py).
use clarityos.Prelude.{
  ℕ, String, Bool, true, false, ◌&&◌, Option, none, some, option_eq, List, [], ◌∷◌, ◌++◌, map,
  nat_eq, Eq, ◌≡◌, ◌↔◌, arith, ◌==◌, ==_iff, elem, string_eq, if◌then◌else◌,
}
use clarityos.Python.Exec.{ok, Exec, modify, ◌>>=◌}
use clarityos.Python.Json.{get_or_null}
use clarityos.Python.Directory.{Directory, read, write}
use clarityos.Workflow.State.{
  workflow_status_eq, step_status_eq, StepError, WorkflowStep, RetryState, Entry, WorkflowEntry,
  creation, status_changed, current_step_changed, latest_run_attached, step_added,
  step_status_changed, child_workflow_registered, artifact_registered, memory_registered,
  retry_state_updated, WorkflowState,
}
use clarityos.Workflow.Steps.{Change, action_step, at_step}
use clarityos.Workflow.Waits.{Dict, update_dict}

abbrev pub flag_beq : Bool → Bool → Bool
flag_beq true b = b
flag_beq false true = false
flag_beq false false = true

pub flag_beq_iff : (a b : Bool) → (flag_beq a b ≡ true) ↔ (a ≡ b)
flag_beq_iff true true = ground arith
flag_beq_iff true false = ground arith
flag_beq_iff false true = ground arith
flag_beq_iff false false = ground arith

instance abbrev pub flag_eq : Eq Bool
flag_eq = record { equals = flag_beq; equals_iff = flag_beq_iff }

abbrev step_error_beq : StepError → StepError → Bool
step_error_beq a b =
    a.error_type == b.error_type && a.message == b.message && a.retryable == b.retryable

pub step_error_beq_iff : (a b : StepError) → (step_error_beq a b ≡ true) ↔ (a ≡ b)
step_error_beq_iff a b = ground (
  arith,
  ==_iff a.error_type b.error_type,
  ==_iff a.message b.message,
  ==_iff a.retryable b.retryable,
)

instance abbrev pub step_error_eq : Eq StepError
step_error_eq = record { equals = step_error_beq; equals_iff = step_error_beq_iff }

abbrev retry_state_beq : RetryState → RetryState → Bool
retry_state_beq a b =
    a.attempts_used == b.attempts_used
    && a.retries_remaining == b.retries_remaining
    && a.next_retry_at == b.next_retry_at
    && a.last_error == b.last_error

pub retry_state_beq_iff : (a b : RetryState) → (retry_state_beq a b ≡ true) ↔ (a ≡ b)
retry_state_beq_iff a b = ground (
  arith,
  ==_iff a.attempts_used b.attempts_used,
  ==_iff a.retries_remaining b.retries_remaining,
  ==_iff a.next_retry_at b.next_retry_at,
  ==_iff a.last_error b.last_error,
)

instance abbrev pub retry_state_eq : Eq RetryState
retry_state_eq = record { equals = retry_state_beq; equals_iff = retry_state_beq_iff }

-- A dictionary of the steps by their ids: of steps with one id the last is found, in the place of the
-- first.
map_steps : Directory WorkflowStep → List WorkflowStep → Directory WorkflowStep
map_steps known [] = known
map_steps known (s ∷ steps) = map_steps (write s.step_id s known) steps

unfoldable pub workflow_step_map : List WorkflowStep → Directory WorkflowStep
unfolding map_steps
workflow_step_map steps = map_steps [] steps

abbrev pub unless : Bool → WorkflowEntry → List WorkflowEntry
unless same entry = if same then [] else entry ∷ []

abbrev pub step_entry :
    ℕ → (step_id : String) → WorkflowStep → Option WorkflowStep → List WorkflowEntry
step_entry timestamp step_id s none = step_added timestamp step_id s.step_type s.status ∷ []
step_entry timestamp step_id s (some old) =
    unless (old.status == s.status)
      (step_status_changed timestamp step_id s.step_type old.status s.status s.error)

unfoldable pub step_entries : ℕ → (previous current : Directory WorkflowStep) → List WorkflowEntry
step_entries timestamp previous [] = []
step_entries timestamp previous ((k, s) ∷ current) =
    step_entry timestamp k s (read k previous) ++ step_entries timestamp previous current

unfoldable pub child_entries : ℕ → (previous current : List String) → List WorkflowEntry
child_entries timestamp previous [] = []
child_entries timestamp previous (c ∷ current) =
    unless (elem c previous) (child_workflow_registered timestamp c)
    ++ child_entries timestamp previous current

-- The loops over artifacts and memories; `make` gives the entry of one that is new.
unfoldable pub new_entries :
    (make : Entry → WorkflowEntry) → (previous : List String) → List Entry → List WorkflowEntry
new_entries make previous [] = []
new_entries make previous (e ∷ current) =
    unless (elem e.entry_id previous) (make e) ++ new_entries make previous current

abbrev pub entry_ids : List Entry → List String
entry_ids es = map (λ e. e.entry_id) es

-- What is added to the history of the stored workflow `p`.
unfoldable pub workflow_changes : (p c : WorkflowState) → List WorkflowEntry
unfolding workflow_step_map step_entries child_entries new_entries
workflow_changes p c =
    let t = c.updated_at in
    unless (p.status == c.status) (status_changed t p.status c.status)
    ++ (unless (p.current_step_id == c.current_step_id)
          (current_step_changed t p.current_step_id c.current_step_id)
        ++ (unless (p.latest_run_id == c.latest_run_id)
              (latest_run_attached t p.latest_run_id c.latest_run_id)
            ++ (step_entries t (workflow_step_map p.steps) (workflow_step_map c.steps)
                ++ (child_entries t p.child_workflow_ids c.child_workflow_ids
                    ++ (new_entries
                          (λ e. artifact_registered t e.entry_id (get_or_null "kind" e.fields))
                          (entry_ids p.artifacts) c.artifacts
                        ++ (new_entries
                              (λ e.
                                memory_registered t e.entry_id (get_or_null "memory_type" e.fields))
                              (entry_ids p.memories) c.memories
                            ++ unless (p.retry_state == c.retry_state)
                                (retry_state_updated t c.retry_state)))))))

unfoldable pub build_workflow_transition_history :
    Option WorkflowState → WorkflowState → List WorkflowEntry
unfolding workflow_changes
build_workflow_transition_history none c =
    c.transition_history
    ++ creation c.updated_at c.status c.current_step_id c.run_id c.latest_run_id ∷ []
build_workflow_transition_history (some p) c = p.transition_history ++ workflow_changes p c

-- The workflow as the write leaves it, which is also what it stores and returns.
unfoldable pub write_workflow : ℕ → WorkflowState → Exec (Directory WorkflowState) WorkflowState
unfolding build_workflow_transition_history
write_workflow now w d =
    let current = record w { updated_at = now } in
    let final = record current {
      transition_history = build_workflow_transition_history (read w.workflow_id d) current;
    } in
    (ok final, write w.workflow_id final d)

unfoldable pub attach_run_to_workflow : (run_id : String) → Change
attach_run_to_workflow run_id = modify (λ w. record w { latest_run_id = run_id })

unfoldable pub set_action_details : Dict → Change
unfolding update_dict
set_action_details changes = do
  action ← action_step
  modify
      (at_step action.step_id (λ s. record s { step_details = update_dict changes s.step_details }))
