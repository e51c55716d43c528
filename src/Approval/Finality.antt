-- ===== src/Approval/Finality.antt =====
-- An approval that was resumed, denied or aborted stays as it is (runtime/approval.py).
use clarityos.Prelude.{
  ℕ, String, ◌≡◌, sym, ap, ◌∙◌, true, false, some, [], arith, ◌==◌, ==_iff, string_eq, elem, ◌⊎◌,
  inl, inr, Bool-cases, Option-cases,
}
use clarityos.Python.Directory.{read, write, read-write}
use clarityos.Python.Files.{AllFiles, AllFiles-read}
use clarityos.Approval.State.{
  ApprovalStatus, approved, resumed, denied, aborted, status_eq, transitions, Approval, Approvals,
  write_approval, create_approval, update_approval_status, approve_approval, deny_approval,
  abort_approval, mark_approval_resumed,
}
use clarityos.Approval.Trails.{
  Operation, creates, approves, denies, aborts, resumes, run, HasTrail, actor_for, Reaches,
  Reaches-HasTrail, update-missing, update-allowed, update-refused, mark-missing, mark-refused,
  mark-allowed,
}

final_status :
    (s : ApprovalStatus) → (s ≡ resumed) ⊎ (s ≡ denied) ⊎ (s ≡ aborted) → transitions s ≡ []
unfolding transitions
final_status s over = ground arith

-- `uuid.uuid4` draws no id that is in use.
abbrev pub Spares : String → Operation → Type 0
Spares id (creates k r) = (k == id) ≡ false
Spares id _ = Unit

module _ (now : ℕ) (id : String) (a : Approval) (d : Approvals) (h : AllFiles HasTrail d)
    (found : read id d ≡ some a) (final : transitions a.status ≡ []) where
  -- An approval that can still change is another one.
  other_file :
      (k : String) (b : Approval) (s : ApprovalStatus)
      → read k d ≡ some b
      → elem s (transitions b.status) ≡ true
      → (b.approval_id == id) ≡ false
  other_file k b s there allowed = elim (Bool-cases (b.approval_id == id)) [
    | inr other ↦ other
    | inl same ↦ absurd (
        let named =
          sym (AllFiles-read HasTrail k b d h there).0 ∙ (==_iff b.approval_id id).0 same in
        cc (
          ap (λ (x : Approval). elem s (transitions x.status)) (same_approval named there),
          allowed,
          ap (λ l. elem s l) final,
        ))
  ]
    where
      same_approval : {k : String} {b : Approval} → k ≡ id → read k d ≡ some b → b ≡ a
      same_approval {k} {b} named there = cc (ap (λ i. read i d) named, found, there)

  kept_by_write : (k : String) (v : Approval) → (k == id) ≡ false → read id (write k v d) ≡ some a
  kept_by_write k v other = rw (read-write, other) found

  update-spares :
      (k : String) (s : ApprovalStatus)
      → read id (update_approval_status now k s (actor_for s) d).1 ≡ some a
  update-spares k s = elim (Option-cases (read k d)) [
    | inl e ↦ rw (update-missing now k s d e) found
    | inr (b, there) ↦ elim (Bool-cases (elem s (transitions b.status))) [
      | inl allowed ↦
          rw (update-allowed now k s d b there allowed)
            (kept_by_write b.approval_id _ (other_file k b s there allowed))
      | inr refused ↦ rw (update-refused now k s d b there refused) found
    ]
  ]

  mark-spares : (k run_id : String) → read id (mark_approval_resumed now k run_id d).1 ≡ some a
  mark-spares k run_id = elim (Option-cases (read k d)) [
    | inl e ↦ rw (mark-missing now k run_id d e) found
    | inr (b, there) ↦ elim (Bool-cases (elem resumed (transitions b.status))) [
      | inl allowed ↦
          let other = other_file k b resumed there allowed in
          rw (mark-allowed now k run_id d b there allowed)
            (rw (read-write, other) (rw (read-write, other) found))
      | inr refused ↦ rw (mark-refused now k run_id d b there refused) found
    ]
  ]

  run-Spares : (op : Operation) → Spares id op → read id (run now op d).1 ≡ some a
  unfolding run create_approval write_approval approve_approval deny_approval abort_approval
  run-Spares (creates k r) other = kept_by_write k _ other
  run-Spares (approves k) t = update-spares k approved
  run-Spares (denies k) t = update-spares k denied
  run-Spares (aborts k) t = update-spares k aborted
  run-Spares (resumes k run_id) t = mark-spares k run_id

-- In every directory that the operations can make, an approval that was resumed, denied or aborted is
-- stored unchanged after any further operation, where a new approval gets an id of its own.
pub final_approval-stays :
    (now : ℕ) (id : String) (a : Approval) (d : Approvals) (op : Operation)
    → Reaches d
    → read id d ≡ some a
    → (a.status ≡ resumed) ⊎ (a.status ≡ denied) ⊎ (a.status ≡ aborted)
    → Spares id op
    → read id (run now op d).1 ≡ some a
final_approval-stays now id a d op r found over =
    run-Spares now id a d (Reaches-HasTrail d r) found (final_status a.status over) op
