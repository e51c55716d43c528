-- ===== src/Approval/Trails.antt =====
-- What the history of an approval says, in every directory that the operations of runtime/approval.py
-- can make from an empty one.
use clarityos.Prelude.{
  ℕ, String, ◌≡◌, refl, subst, true, false, none, some, List, [], ◌∷◌, ◌++◌, arith, string_eq, elem,
  In, inl, inr, Bool-cases, Option-cases,
}
use clarityos.Python.Exec.{ok, Exec}
use clarityos.Python.Directory.{read, write}
use clarityos.Python.Files.{AllFiles, AllFiles-read, AllFiles-write}
use clarityos.Approval.State.{
  ApprovalStatus, pending, approved, resumed, denied, aborted, status_eq, transitions, Actor,
  system, operator, reached, HistoryItem, Approval, Approvals, write_approval, get_approval,
  ApprovalRequest, first_history, create_approval, moved_to, change_status, update_approval_status,
  approve_approval, deny_approval, abort_approval, mark_approval_resumed, add_history_entry,
}

-- Only the system resumes; the operator decides everything else.
abbrev pub actor_for : ApprovalStatus → Actor
actor_for resumed = system
actor_for _ = operator

-- A history that a chain of allowed transitions leaves, with the status that it ends in.
pub data IsTrail : List HistoryItem → ApprovalStatus → Type 0 where
  begins : (t : ℕ) (es : List HistoryItem) → es ≡ first_history t → IsTrail es pending
  moves :
      (t : ℕ) (es es' : List HistoryItem) (s s' : ApprovalStatus)
      → IsTrail es s
      → elem s' (transitions s) ≡ true
      → es' ≡ es ++ record { state = reached s'; timestamp = t; actor = actor_for s' } ∷ []
      → IsTrail es' s'

abbrev pub HasTrail : String → Approval → Type 0
HasTrail id a = (a.approval_id ≡ id) × IsTrail a.history a.status

-- The operations of the module.
pub data Operation : Type 0 where
  creates : (approval_id : String) → ApprovalRequest → Operation
  approves denies aborts : (approval_id : String) → Operation
  resumes : (approval_id resumed_run_id : String) → Operation

unfoldable pub run : ℕ → Operation → Exec Approvals Approval
run now (creates id r) = create_approval now id r
run now (approves id) = approve_approval now id
run now (denies id) = deny_approval now id
run now (aborts id) = abort_approval now id
run now (resumes id run_id) = mark_approval_resumed now id run_id

-- The directories that the operations make, one after the other, from an empty one.
pub data Reaches : Approvals → Type 0 where
  start : (d : Approvals) → d ≡ [] → Reaches d
  step :
      (now : ℕ) (op : Operation) (d d' : Approvals) → Reaches d → d' ≡ (run now op d).1 → Reaches d'

module _ (now : ℕ) where
  moved_to-HasTrail :
      (s : ApprovalStatus) (id : String) (a : Approval)
      → HasTrail id a
      → elem s (transitions a.status) ≡ true
      → HasTrail id (moved_to now s (actor_for s) a)
  unfolding moved_to add_history_entry
  moved_to-HasTrail s id a (named, trail) allowed =
      (named, moves now a.history _ a.status s trail allowed refl)

  create_approval-keeps :
      (id : String) (r : ApprovalRequest) (d : Approvals)
      → AllFiles HasTrail d
      → AllFiles HasTrail (create_approval now id r d).1
  unfolding create_approval write_approval
  create_approval-keeps id r d h =
      AllFiles-write HasTrail id _ d h (refl, begins now (first_history now) refl)

  module _ (id : String) (s : ApprovalStatus) (d : Approvals) where
    pub update-missing : read id d ≡ none → (update_approval_status now id s (actor_for s) d).1 ≡ d
    unfolding update_approval_status get_approval
    update-missing e = rw e refl

    pub update-allowed :
        (a : Approval)
        → read id d ≡ some a
        → elem s (transitions a.status) ≡ true
        → update_approval_status now id s (actor_for s) d ≡ (
          ok (moved_to now s (actor_for s) a),
          write a.approval_id (moved_to now s (actor_for s) a) d,
        )
    unfolding update_approval_status get_approval change_status write_approval moved_to
        add_history_entry
    update-allowed a found allowed = rw found (rw allowed refl)

    pub update-refused :
        (a : Approval)
        → read id d ≡ some a
        → elem s (transitions a.status) ≡ false
        → (update_approval_status now id s (actor_for s) d).1 ≡ d
    unfolding update_approval_status get_approval change_status
    update-refused a found refused = rw found (rw refused refl)

    update-keeps :
        AllFiles HasTrail d → AllFiles HasTrail (update_approval_status now id s (actor_for s) d).1
    update-keeps h = elim (Option-cases (read id d)) [
      | inl e ↦ rw (update-missing e) h
      | inr (a, found) ↦
          let fits = AllFiles-read HasTrail id a d h found in
          elim (Bool-cases (elem s (transitions a.status))) [
            | inl allowed ↦ rw (update-allowed a found allowed) (
                AllFiles-write HasTrail a.approval_id _ d h
                  (moved_to-HasTrail s a.approval_id a (refl, fits.1) allowed))
            | inr refused ↦ rw (update-refused a found refused) h
          ]
    ]

  module _ (id run_id : String) (d : Approvals) where
    pub mark-missing : read id d ≡ none → (mark_approval_resumed now id run_id d).1 ≡ d
    unfolding mark_approval_resumed update_approval_status get_approval
    mark-missing e = rw e refl

    module _ (a : Approval) (found : read id d ≡ some a) where
      pub mark-refused :
          elem resumed (transitions a.status) ≡ false
          → (mark_approval_resumed now id run_id d).1 ≡ d
      unfolding mark_approval_resumed update_approval_status get_approval change_status
      mark-refused refused = rw found (rw refused refl)

      abbrev pub marked : Approval
      marked = record (moved_to now resumed system a) {
        resumed_run_id = some run_id;
        updated_at = now;
      }

      -- Resuming writes twice: the new status, then the run.
      pub mark-allowed :
          elem resumed (transitions a.status) ≡ true
          → (mark_approval_resumed now id run_id d).1
            ≡ write a.approval_id marked (write a.approval_id (moved_to now resumed system a) d)
      unfolding mark_approval_resumed write_approval moved_to add_history_entry
      mark-allowed allowed = rw (update-allowed id resumed d a found allowed) refl

    marks-keeps : AllFiles HasTrail d → AllFiles HasTrail (mark_approval_resumed now id run_id d).1
    marks-keeps h = elim (Option-cases (read id d)) [
      | inl e ↦ rw (mark-missing e) h
      | inr (a, found) ↦
          let fits = AllFiles-read HasTrail id a d h found in
          elim (Bool-cases (elem resumed (transitions a.status))) [
            | inl allowed ↦
                let trail = moved_to-HasTrail resumed a.approval_id a (refl, fits.1) allowed in
                rw (mark-allowed a found allowed) (
                  AllFiles-write HasTrail a.approval_id _ _
                    (AllFiles-write HasTrail a.approval_id _ d h trail) trail)
            | inr refused ↦ rw (mark-refused a found refused) h
          ]
    ]

  run-keeps :
      (op : Operation) (d : Approvals) → AllFiles HasTrail d → AllFiles HasTrail (run now op d).1
  unfolding run approve_approval deny_approval abort_approval
  run-keeps (creates id r) d h = create_approval-keeps id r d h
  run-keeps (approves id) d h = update-keeps id approved d h
  run-keeps (denies id) d h = update-keeps id denied d h
  run-keeps (aborts id) d h = update-keeps id aborted d h
  run-keeps (resumes id run_id) d h = marks-keeps id run_id d h

-- Every stored approval has a trail.
pub Reaches-HasTrail : (d : Approvals) → Reaches d → AllFiles HasTrail d
Reaches-HasTrail d (start _ e) = rw e tt
Reaches-HasTrail d (step now op d₀ _ r e) = rw e (run-keeps now op d₀ (Reaches-HasTrail d₀ r))

-- `s` was reached by the operator.
abbrev pub WasReached : ApprovalStatus → List HistoryItem → Type 0
WasReached s es = (t : ℕ) × In (record { state = reached s; timestamp = t; actor = operator }) es

In-append : {A : Type 0} (a : A) (xs ys : List A) → In a xs → In a (xs ++ ys)
In-append a [] ys m = absurd m
In-append a (x ∷ xs) ys (inl e) = inl e
In-append a (x ∷ xs) ys (inr m) = inr (In-append a xs ys m)

In-last : {A : Type 0} (a : A) (xs : List A) → In a (xs ++ a ∷ [])
In-last a [] = inl refl
In-last a (x ∷ xs) = inr (In-last a xs)

into_resumed : (s : ApprovalStatus) → elem resumed (transitions s) ≡ true → s ≡ approved
unfolding transitions
into_resumed s e = ground arith

trail-approved :
    (es : List HistoryItem) (s : ApprovalStatus)
    → IsTrail es s
    → s ≡ approved
    → WasReached approved es
trail-approved es s (begins t _ e) same = cc
trail-approved es s (moves t es₀ _ s₀ _ trail allowed e) same = (t, rw (e, same) (In-last _ es₀))

trail-resumed :
    (es : List HistoryItem) (s : ApprovalStatus)
    → IsTrail es s
    → s ≡ resumed
    → WasReached approved es
trail-resumed es s (begins t _ e) same = cc
trail-resumed es s (moves t es₀ _ s₀ _ trail allowed e) same =
    let before = into_resumed s₀ (subst (λ x. elem x (transitions s₀) ≡ true) same allowed) in
    let (u, m) = trail-approved es₀ s₀ trail before in (u, rw e (In-append _ es₀ _ m))

-- In every directory that the operations can make, an approval that is resumed has an entry in its
-- history by which the operator approved it.
pub resumed-was_approved :
    (d : Approvals) (id : String) (a : Approval)
    → Reaches d
    → read id d ≡ some a
    → a.status ≡ resumed
    → WasReached approved a.history
resumed-was_approved d id a r found is_resumed =
    trail-resumed a.history a.status (AllFiles-read HasTrail id a d (Reaches-HasTrail d r) found).1
      is_resumed
