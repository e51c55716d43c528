-- ===== src/Workflow/Registers.antt =====
-- The bounds that registration keeps, and the end of a workflow (runtime/workflow.py).
use clarityos.Prelude.{
  ◌⊎◌, ◌<◌, ◌≤◌, String, ◌≡◌, refl, ◌∙◌, subst, true, false, not, ◌&&◌, Option, none, some, List,
  [], ◌∷◌, ◌++◌, arith, length, if◌then◌else◌, ◌==◌, ==_iff, ==_refl, string_eq, elem, any_of, inl,
  inr, Bool-cases, length-append, ◌↔◌,
}
use clarityos.Python.Exec.{Result, ok, err}
use clarityos.Workflow.State.{workflow_status_eq, step_status_eq, Entry, WorkflowState, Delegation}
use clarityos.Workflow.Children.{
  cannot_spawn, can_spawn_child_workflow, register_child_workflow, has_id, register_artifact,
  put_memory, register_memory,
}
use clarityos.Workflow.Settings.{delegation_denial_reason}

abbrev pub AreDistinctIds : List String → Type 0
AreDistinctIds [] = Unit
AreDistinctIds (x ∷ xs) = (elem x xs ≡ false) × AreDistinctIds xs

elem-append :
    (x y : String) (xs : List String)
    → elem x xs ≡ false
    → (x == y) ≡ false
    → elem x (xs ++ y ∷ []) ≡ false
elem-append x y [] h other = rw other refl
elem-append x y (z ∷ xs) h other = ground (arith, elem-append x y xs)

append-AreDistinctIds :
    (y : String) (xs : List String)
    → AreDistinctIds xs
    → elem y xs ≡ false
    → AreDistinctIds (xs ++ y ∷ [])
append-AreDistinctIds y [] h absent = (refl, tt)
append-AreDistinctIds y (x ∷ xs) h absent =
    ground (arith, elem-append x y xs, append-AreDistinctIds y xs, ==_iff x y, ==_iff y x)

-- The children are different, and no more and no deeper than the policy allows.
pub record IsWithinChildren (w : WorkflowState) : Type 0 where
  pub shallow : 0 < length w.child_workflow_ids → w.depth < w.subrun_policy.max_depth
  pub bounded : length w.child_workflow_ids ≤ w.subrun_policy.max_children
  pub distinct : AreDistinctIds w.child_workflow_ids

module _ (child : String) (w : WorkflowState)
    (absent : elem child w.child_workflow_ids ≡ false) where
  register_new :
      can_spawn_child_workflow w ≡ true
      → register_child_workflow child w
        ≡ (ok tt, record w { child_workflow_ids = w.child_workflow_ids ++ child ∷ [] })
  unfolding register_child_workflow can_spawn_child_workflow
  register_new allowed = rw absent (rw allowed refl)

  register_full :
      can_spawn_child_workflow w ≡ false
      → register_child_workflow child w ≡ (err (cannot_spawn w), w)
  unfolding register_child_workflow can_spawn_child_workflow
  register_full full = rw absent (rw full refl)

register_again :
    (child : String) (w : WorkflowState)
    → elem child w.child_workflow_ids ≡ true
    → register_child_workflow child w ≡ (ok tt, w)
unfolding register_child_workflow
register_again child w there = rw there refl

elem-last : (x : String) (xs : List String) → elem x (xs ++ x ∷ []) ≡ true
elem-last x [] = rw (==_refl x) refl
elem-last x (y ∷ xs) = ground (arith, elem-last x xs)

elem-others :
    (k x : String) (xs : List String) → (k == x) ≡ false → elem k (xs ++ x ∷ []) ≡ elem k xs
elem-others k x [] other = rw other refl
elem-others k x (y ∷ xs) other = rw (elem-others k x xs other) refl

-- The workflow is not too deep for a child, and has room for one more.
abbrev pub HasRoom : WorkflowState → Type 0
HasRoom w =
    (w.depth < w.subrun_policy.max_depth)
    × (length w.child_workflow_ids < w.subrun_policy.max_children)

can_spawn-HasRoom : (w : WorkflowState) → (can_spawn_child_workflow w ≡ true) ↔ HasRoom w
unfolding can_spawn_child_workflow
can_spawn-HasRoom w = ground arith

no_room :
    (child : String) (w : WorkflowState)
    → elem child w.child_workflow_ids ≡ false
    → can_spawn_child_workflow w ≡ false
    → (elem child w.child_workflow_ids ≡ true) ⊎ HasRoom w
    → ⊥
no_room child w absent full (inl there) = cc (absent, there)
no_room child w absent full (inr room) = cc (full, (can_spawn-HasRoom w).1 room)

-- How the registration of a child ends.
pub record Registers (child : String) (w : WorkflowState) (r : Result (Unit {0}) × WorkflowState)
    : Type 0 where
  pub accepted : (r.0 ≡ ok tt) ↔ ((elem child w.child_workflow_ids ≡ true) ⊎ HasRoom w)
  pub refused : (r.0 ≡ ok tt) ⊎ (r ≡ (err (cannot_spawn w), w))
  pub there : r.0 ≡ ok tt → elem child r.1.child_workflow_ids ≡ true
  pub others :
      (k : String)
      → (k == child) ≡ false
      → elem k r.1.child_workflow_ids ≡ elem k w.child_workflow_ids

-- Registering a child keeps the children different, no more than the policy allows, and none in a
-- workflow as deep as its policy allows. It succeeds exactly where the child is registered already, or
-- the workflow is less deep and has fewer children than its policy allows. The child is then among
-- the children; otherwise an exception is raised and the workflow is as it was. The other children
-- are always kept, and none is added.
pub register_child_workflow-IsWithinChildren :
    (child : String) (w : WorkflowState)
    → IsWithinChildren w
    → IsWithinChildren (register_child_workflow child w).1
      × Registers child w (register_child_workflow child w)
register_child_workflow-IsWithinChildren child w h =
    elim (Bool-cases (elem child w.child_workflow_ids)) [
      | inl there ↦ rw (register_again child w there) (
        h,
        record {
          accepted = (λ e. inl there, λ m. refl);
          refused = inl refl;
          there = λ e. there;
          others = λ k e. refl;
        },
      )
      | inr absent ↦ elim (Bool-cases (can_spawn_child_workflow w)) [
        | inl allowed ↦
            let room = (can_spawn-HasRoom w).0 allowed in
            rw (register_new child w absent allowed) (
              record {
                shallow = λ some_child. room.0;
                bounded = omega (arith, room.1, length-append w.child_workflow_ids (child ∷ []));
                distinct = append-AreDistinctIds child w.child_workflow_ids h.distinct absent;
              },
              record {
                accepted = (λ e. inr room, λ m. refl);
                refused = inl refl;
                there = λ e. elem-last child w.child_workflow_ids;
                others = λ k other. elem-others k child w.child_workflow_ids other;
              },
            )
        | inr full ↦ rw (register_full child w absent full) (
          h,
          record {
            accepted = (λ e. cc e, λ m. absurd (no_room child w absent full m));
            refused = inr refl;
            there = λ e. cc e;
            others = λ k e. refl;
          },
        )
      ]
    ]

-- The first entry with an id.
abbrev pub find_entry : String → List Entry → Option Entry
find_entry k [] = none
find_entry k (e ∷ es) = if has_id k e then some e else find_entry k es

find_entry-put :
    (k : String) (memory : Entry) (es : List Entry)
    → find_entry k (put_memory memory es)
      ≡ (if memory.entry_id == k then some memory else find_entry k es)
unfolding put_memory
find_entry-put k memory [] = refl
find_entry-put k memory (e ∷ es) = ground (
  arith,
  find_entry-put k memory es,
  ==_iff e.entry_id memory.entry_id,
  ==_iff e.entry_id k,
  ==_iff memory.entry_id k,
)

-- After the registration of a memory, the memory with its id is the new one, and every other id
-- finds what it found before.
pub register_memory_lookup :
    (memory : Entry) (w : WorkflowState) (k : String)
    → find_entry k (register_memory memory w).memories
      ≡ (if memory.entry_id == k then some memory else find_entry k w.memories)
unfolding register_memory
register_memory_lookup memory w k = find_entry-put k memory w.memories

find_entry-append :
    (k : String) (a : Entry) (es : List Entry)
    → find_entry k (es ++ a ∷ [])
      ≡ (if any_of (has_id k) es then find_entry k es else find_entry k (a ∷ []))
find_entry-append k a [] = refl
find_entry-append k a (e ∷ es) = ground (arith, find_entry-append k a es)

absent_entry :
    (k : String) (es : List Entry) → any_of (has_id k) es ≡ false → find_entry k es ≡ none
absent_entry k [] h = refl
absent_entry k (e ∷ es) h = ground (arith, absent_entry k es)

registered_at :
    (k : String) (a : Entry) (es : List Entry)
    → any_of (has_id a.entry_id) es ≡ false
    → find_entry k (es ++ a ∷ []) ≡ (if a.entry_id == k then some a else find_entry k es)
registered_at k a es fresh = elim (Bool-cases (a.entry_id == k)) [
  | inl same ↦
      let gone = subst (λ i. any_of (has_id i) es ≡ false) ((==_iff a.entry_id k).0 same) fresh in
      find_entry-append k a es ∙ rw (gone, same) refl
  | inr other ↦ find_entry-append k a es ∙ rw other (ground (arith, absent_entry k es))
]

-- The registration of an artifact keeps the first one with each id: an artifact whose id is new is
-- found under it, and every other id finds what it found before.
pub register_artifact_lookup :
    (a : Entry) (w : WorkflowState) (k : String)
    → find_entry k (register_artifact a w).artifacts ≡ (
        if not (any_of (has_id a.entry_id) w.artifacts) && (a.entry_id == k)
        then some a
        else find_entry k w.artifacts)
unfolding register_artifact
register_artifact_lookup a w k = elim (Bool-cases (any_of (has_id a.entry_id) w.artifacts)) [
  | inl known ↦ rw known refl
  | inr fresh ↦ rw fresh (registered_at k a w.artifacts fresh)
]

-- What a delegation allows.
abbrev pub Allows : Delegation → String → Option String → Type 0
Allows d capability none = elem capability d.allowed_capabilities ≡ true
Allows d capability (some name) =
    (elem capability d.allowed_capabilities ≡ true) × (elem name d.allowed_tools ≡ true)

-- A delegation has no reason to deny a use exactly where it allows the capability, and the tool if one
-- is named.
pub delegation_denial_reason-Allows :
    (workflow_id : String) (d : Delegation) (capability : String) (tool_name : Option String)
    → (delegation_denial_reason workflow_id (some d) capability tool_name ≡ none)
      ↔ Allows d capability tool_name
unfolding delegation_denial_reason
delegation_denial_reason-Allows workflow_id d capability none = ground arith
delegation_denial_reason-Allows workflow_id d capability (some name) = ground arith
