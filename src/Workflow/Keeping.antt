-- ===== src/Workflow/Keeping.antt =====
-- Actions on a workflow that leave the status of a workflow that is over.
use clarityos.Prelude.{
  String, Bool, ◌≡◌, refl, sym, ◌∙◌, subst, true, false, not, Option, none, ◌==◌, string_eq, elem,
  inl, inr, Bool-cases, ◌⊎◌,
}
use clarityos.Python.Exec.{Result, ok, err, Exec, continue, ◌>>=◌, ◌>>◌}
use clarityos.Workflow.State.{
  WorkflowStatus, succeeded, workflow_status_eq, workflow_transitions, StepStatus, pending,
  in_progress, step_status_eq, step_transitions, StepError, step_type_eq, WorkflowStep,
  WorkflowState,
}
use clarityos.Workflow.Steps.{
  get_step, current_step, action_step, Change, when, transition_step, transition_workflow,
  start_step, go_to, move_workflow_unless,
}

abbrev pub IsOver : WorkflowStatus → Type 0
IsOver s = (s ≡ succeeded) ⊎ (s ≡ WorkflowStatus.failed)

-- `m` leaves the status of a workflow that is over.
pub record KeepsOver {A : Type 0} (m : Exec WorkflowState A) : Type 0 where
  pub keeps : (w : WorkflowState) → IsOver w.status → (m w).1.status ≡ w.status

module _ {A B : Type 0} where
  continue-keeps :
      (w : WorkflowState) (f : A → Exec WorkflowState B) (r : Result A) (w' : WorkflowState)
      → IsOver w.status
      → ((a : A) → KeepsOver (f a))
      → w'.status ≡ w.status
      → (continue r f w').1.status ≡ w.status
  continue-keeps w f (ok a) w' over h same = (h a).keeps w' (subst IsOver (sym same) over) ∙ same
  continue-keeps w f (err e) w' over h same = same

  pub then-KeepsOver :
      (m : Exec WorkflowState A) (f : A → Exec WorkflowState B)
      → KeepsOver m
      → ((a : A) → KeepsOver (f a))
      → KeepsOver (m >>= f)
  then-KeepsOver m f hm hf = record {
    keeps = λ w over. continue-keeps w f (m w).0 (m w).1 over hf (hm.keeps w over);
  }

  pub next-KeepsOver :
      (m : Exec WorkflowState A) (n : Exec WorkflowState B)
      → KeepsOver m
      → KeepsOver n
      → KeepsOver (m >> n)
  next-KeepsOver m n hm hn = record {
    keeps = λ w over. continue-keeps w (λ _. n) (m w).0 (m w).1 over (λ _. hn) (hm.keeps w over);
  }

pub when-KeepsOver : (b : Bool) (m : Change) → KeepsOver m → KeepsOver (when b m)
when-KeepsOver true m h = record { keeps = λ w over. h.keeps w over }
when-KeepsOver false m h = record { keeps = λ w over. refl }

pub get_step-KeepsOver : (k : String) → KeepsOver (get_step k)
unfolding get_step
get_step-KeepsOver k = record { keeps = λ w over. refl }

pub current_step-KeepsOver : KeepsOver current_step
unfolding get_step
current_step-KeepsOver = record { keeps = λ w over. refl }

pub action_step-KeepsOver : KeepsOver action_step
unfolding get_step
action_step-KeepsOver = record { keeps = λ w over. refl }

pub transition_step-KeepsOver :
    (s : WorkflowStep) (next : StepStatus) (e : Option StepError)
    → KeepsOver (transition_step s next e)
unfolding transition_step
transition_step-KeepsOver s next e = record {
  keeps = λ w over. elim (Bool-cases (elem next (step_transitions s.status))) [
    | inl allowed ↦ rw allowed refl
    | inr refused ↦ rw refused refl
  ];
}

no_way_out : (s next : WorkflowStatus) → IsOver s → elem next (workflow_transitions s) ≡ false
unfolding workflow_transitions
no_way_out s next (inl e) = rw e refl
no_way_out s next (inr e) = rw e refl

pub transition_workflow-KeepsOver : (next : WorkflowStatus) → KeepsOver (transition_workflow next)
unfolding transition_workflow
transition_workflow-KeepsOver next = record {
  keeps = λ w over. rw (no_way_out w.status next over) refl;
}

pub move-KeepsOver : (next : WorkflowStatus) → KeepsOver (move_workflow_unless next)
move-KeepsOver next = record {
  keeps = λ w over.
      (when-KeepsOver (not (w.status == next)) (transition_workflow next)
          (transition_workflow-KeepsOver next)).keeps
        w over;
}

pub start_step-KeepsOver : (s : WorkflowStep) → KeepsOver (start_step s)
unfolding start_step
start_step-KeepsOver s =
    when-KeepsOver (s.status == pending) _ (transition_step-KeepsOver s in_progress none)

pub go_to-KeepsOver : (k : String) → KeepsOver (go_to k)
go_to-KeepsOver k = record { keeps = λ w over. refl }
