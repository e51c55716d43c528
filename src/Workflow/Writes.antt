-- ===== src/Workflow/Writes.antt =====
-- What writing a workflow adds to the history of the stored one (runtime/workflow.py, `write_workflow`).
use clarityos.Prelude.{
  ℕ, String, Bool, true, false, some, Option-cases, Eq, ◌∙◌, List, [], ◌∷◌, ◌++◌, All, ◌≡◌, ◌↔◌,
  refl, ap, arith, ◌==◌, ==_iff, elem, string_eq, inl, inr,
}
use clarityos.Python.Exec.{ok}
use clarityos.Python.Json.{get_or_null}
use clarityos.Python.Directory.{Directory, read, write}
use clarityos.Workflow.State.{
  step_status_eq, workflow_status_eq, WorkflowStep, Entry, WorkflowEntry, artifact_registered,
  memory_registered, WorkflowState,
}
use clarityos.Workflow.History.{
  retry_state_eq, unless, step_entry, step_entries, child_entries, new_entries, entry_ids,
  workflow_step_map, workflow_changes, build_workflow_transition_history, write_workflow,
}

-- Nothing is added by two parts exactly where neither adds a thing.
both : {P Q A : Type 0} (xs ys : List A) → (xs ≡ []) ↔ P → (ys ≡ []) ↔ Q → (xs ++ ys ≡ []) ↔ (P × Q)
both [] ys f g = (λ h. (f.0 refl, g.0 h), λ (p, q). g.1 q)
both (x ∷ xs) ys f g = (λ h. cc h, λ (p, q). cc (f.1 p))

unless-nil : (b : Bool) (e : WorkflowEntry) → (unless b e ≡ []) ↔ (b ≡ true)
unless-nil true e = ground arith
unless-nil false e = ground arith

unless-same :
    {A : Type 0} ⦃eq : Eq A⦄ (a b : A) (e : WorkflowEntry) → (unless (a == b) e ≡ []) ↔ (a ≡ b)
unless-same a b e =
    (λ h. (==_iff a b).0 ((unless-nil _ e).0 h), λ h. (unless-nil _ e).1 ((==_iff a b).1 h))

-- The step was known, with the same status.
abbrev pub IsKnownStep : Directory WorkflowStep → String × WorkflowStep → Type 0
IsKnownStep previous (k, s) =
    (old : WorkflowStep) × (read k previous ≡ some old) × (old.status ≡ s.status)

step_entry-nil :
    (t : ℕ) (k : String) (s : WorkflowStep) (previous : Directory WorkflowStep)
    → (step_entry t k s (read k previous) ≡ []) ↔ IsKnownStep previous (k, s)
step_entry-nil t k s previous = elim (Option-cases (read k previous)) [
  | inl missing ↦ (λ h. cc (rw missing at h), λ (old, there, same). cc (missing, there))
  | inr (old, there) ↦ (
    λ h. (old, there, (unless-same old.status s.status _).0 (rw there at h)),
    λ (other, found, same).
        let e : old ≡ other = cc (there, found) in
        rw there ((unless-same old.status s.status _).1 (ap (λ o. o.status) e ∙ same)),
  )
]

step_entries-nil :
    (t : ℕ) (previous current : Directory WorkflowStep)
    → (step_entries t previous current ≡ []) ↔ All (IsKnownStep previous) current
unfolding step_entries
step_entries-nil t previous [] = (λ h. tt, λ h. refl)
step_entries-nil t previous ((k, s) ∷ current) =
    both _ _ (step_entry-nil t k s previous) (step_entries-nil t previous current)

child_entries-nil :
    (t : ℕ) (previous current : List String)
    → (child_entries t previous current ≡ []) ↔ All (λ c. elem c previous ≡ true) current
unfolding child_entries
child_entries-nil t previous [] = (λ h. tt, λ h. refl)
child_entries-nil t previous (c ∷ current) =
    both _ _ (unless-nil (elem c previous) _) (child_entries-nil t previous current)

new_entries-nil :
    (make : Entry → WorkflowEntry) (previous : List String) (current : List Entry)
    → (new_entries make previous current ≡ []) ↔ All (λ e. elem e.entry_id previous ≡ true) current
unfolding new_entries
new_entries-nil make previous [] = (λ h. tt, λ h. refl)
new_entries-nil make previous (e ∷ current) =
    both _ _ (unless-nil (elem e.entry_id previous) _) (new_entries-nil make previous current)

-- What the history records of a workflow is in `c` as it is in `p`: the status, the current step, the
-- latest run, the retries, each step and its status, and the children, artifacts and memories, of
-- which some may be gone.
abbrev pub IsSettled : (p c : WorkflowState) → Type 0
IsSettled p c =
    (p.status ≡ c.status)
    × ((p.current_step_id ≡ c.current_step_id)
        × ((p.latest_run_id ≡ c.latest_run_id)
            × (All (IsKnownStep (workflow_step_map p.steps)) (workflow_step_map c.steps)
                × (All (λ k. elem k p.child_workflow_ids ≡ true) c.child_workflow_ids
                    × (All (λ e. elem e.entry_id (entry_ids p.artifacts) ≡ true) c.artifacts
                        × (All (λ e. elem e.entry_id (entry_ids p.memories) ≡ true) c.memories
                            × (p.retry_state ≡ c.retry_state)))))))

workflow_changes-nil : (p c : WorkflowState) → (workflow_changes p c ≡ []) ↔ IsSettled p c
unfolding workflow_changes
workflow_changes-nil p c = both _ _ (unless-same p.status c.status _) (
    both _ _ (unless-same p.current_step_id c.current_step_id _) (
      both _ _ (unless-same p.latest_run_id c.latest_run_id _) (
        both _ _
          (step_entries-nil c.updated_at (workflow_step_map p.steps) (workflow_step_map c.steps))
          (both _ _ (child_entries-nil c.updated_at p.child_workflow_ids c.child_workflow_ids) (
            both _ _
              (new_entries-nil
                (λ e. artifact_registered c.updated_at e.entry_id (get_or_null "kind" e.fields))
                (entry_ids p.artifacts) c.artifacts)
              (both _ _
                (new_entries-nil
                  (λ e.
                    memory_registered c.updated_at e.entry_id (get_or_null "memory_type" e.fields))
                  (entry_ids p.memories) c.memories)
                (unless-same p.retry_state c.retry_state _)))))))

-- Writing a workflow whose file holds an earlier state of it: the history of the earlier state is a
-- prefix of the new one, and nothing is added to it exactly where all that the history records is as
-- it was. The workflow is stored under its id with its status, steps and waits, and is returned.
pub write_workflow-keeps_history :
    (now : ℕ) (w old : WorkflowState) (d : Directory WorkflowState)
    → read w.workflow_id d ≡ some old
    → (after : WorkflowState) × (entries : List WorkflowEntry) × (write_workflow now w d
        ≡ (ok after, write w.workflow_id after d))
      × (after.transition_history ≡ old.transition_history ++ entries)
      × ((entries ≡ []) ↔ IsSettled old w)
      × (after.updated_at ≡ now)
      × (after.status ≡ w.status)
      × (after.steps ≡ w.steps)
      × (after.retry_state ≡ w.retry_state)
unfolding write_workflow build_workflow_transition_history
write_workflow-keeps_history now w old d there =
    let current = record w { updated_at = now } in
    let entries = workflow_changes old current in
    let after : WorkflowState = record current {
      transition_history = old.transition_history ++ entries;
    } in
    (after, entries, rw there refl, refl, workflow_changes-nil old current, refl, refl, refl, refl)
