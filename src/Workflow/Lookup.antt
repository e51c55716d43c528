-- ===== src/Workflow/Lookup.antt =====
-- What a change or an insertion of a step does to the search for one.
use clarityos.Prelude.{
  String, ◌≡◌, refl, false, none, some, List, [], ◌∷◌, arith, if◌then◌else◌, ◌==◌, ==_iff, ==_refl,
  string_eq, inl, inr, Bool-cases,
}
use clarityos.Queue.Rewrites.{on_some}
use clarityos.Workflow.State.{WorkflowStep}
use clarityos.Workflow.Steps.{find_step, put_step}
use clarityos.Workflow.Waits.{insert_before_last}

pub find_step-id :
    (k : String) (s : WorkflowStep) (steps : List WorkflowStep)
    → find_step k steps ≡ some s
    → s.step_id ≡ k
unfolding find_step
find_step-id k s [] e = cc
find_step-id k s (t ∷ steps) e = ground (arith, ==_iff t.step_id k, find_step-id k s steps)

pub find-put :
    (j k : String) (f : WorkflowStep → WorkflowStep) (steps : List WorkflowStep)
    → ((s : WorkflowStep) → (f s).step_id ≡ s.step_id)
    → find_step j (put_step k f steps)
      ≡ (if k == j then on_some f (find_step j steps) else find_step j steps)
unfolding find_step put_step
find-put j k f [] keeps = ground arith
find-put j k f (s ∷ steps) keeps = ground (
  arith,
  keeps s,
  find-put j k f steps keeps,
  ==_iff s.step_id k,
  ==_iff s.step_id j,
  ==_iff k j,
  ==_iff (f s).step_id j,
)

pub find-insert :
    (j : String) (new : WorkflowStep) (steps : List WorkflowStep)
    → (new.step_id == j) ≡ false
    → find_step j (insert_before_last new steps) ≡ find_step j steps
unfolding find_step insert_before_last
find-insert j new [] other = rw other refl
find-insert j new (s ∷ []) other = rw other refl
find-insert j new (s ∷ t ∷ steps) other = rw (find-insert j new (t ∷ steps) other) refl

pub find-inserted :
    (new : WorkflowStep) (steps : List WorkflowStep)
    → find_step new.step_id steps ≡ none
    → find_step new.step_id (insert_before_last new steps) ≡ some new
unfolding find_step insert_before_last
find-inserted new [] absent = rw (==_refl new.step_id) refl
find-inserted new (s ∷ []) absent = rw (==_refl new.step_id) refl
find-inserted new (s ∷ t ∷ steps) absent = elim (Bool-cases (s.step_id == new.step_id)) [
  | inl same ↦ cc (rw same at absent)
  | inr other ↦ rw other (find-inserted new (t ∷ steps) (rw other at absent))
]
