-- ===== src/Approval/Examples.antt =====
-- The theorems of the approvals at one approval.
use clarityos.Prelude.{◌≡◌, refl, some, [], ◌∷◌, inl, string_eq}
use clarityos.Python.Json.{null}
use clarityos.Python.Directory.{read, write}
use clarityos.Approval.State.{
  pending, approved, resumed, ApprovalRequest, Approval, Approvals, create_approval,
  approve_approval, mark_approval_resumed, update_approval_status, get_approval, change_status,
  write_approval, moved_to, add_history_entry, transitions, requested, reached, operator, system,
}
use clarityos.Approval.Trails.{
  creates, approves, aborts, resumes, run, Reaches, start, step, WasReached, resumed-was_approved,
}
use clarityos.Approval.Finality.{final_approval-stays}

abbrev request : ApprovalRequest
request = record {
  run_id = "r";
  workflow_id = "w";
  agent = "writer";
  policy_name = "strict";
  action = null;
  reason = "needs a look";
  request = null;
}

abbrev created_dir : Approvals
created_dir = (run 5 (creates "p" request) []).1

abbrev approved_dir : Approvals
approved_dir = (run 7 (approves "p") created_dir).1

abbrev resumed_dir : Approvals
resumed_dir = (run 9 (resumes "p" "r2") approved_dir).1

resumed_dir-Reaches : Reaches resumed_dir
resumed_dir-Reaches =
    step 9 (resumes "p" "r2") approved_dir resumed_dir
      (step 7 (approves "p") created_dir approved_dir
        (step 5 (creates "p" request) [] created_dir (start [] refl) refl) refl)
      refl

abbrev resumed_approval : Approval
resumed_approval = record {
  approval_id = "p";
  status = resumed;
  created_at = 5;
  updated_at = 9;
  requested_run_id = "r";
  workflow_id = "w";
  resumed_run_id = some "r2";
  agent = "writer";
  policy = "strict";
  action = null;
  reason = "needs a look";
  request = null;
  history =
      record { state = requested; timestamp = 5; actor = system }
      ∷ record { state = reached pending; timestamp = 5; actor = system }
      ∷ record { state = reached approved; timestamp = 7; actor = operator }
      ∷ record { state = reached resumed; timestamp = 9; actor = system }
      ∷ [];
}

read_resumed : read "p" resumed_dir ≡ some resumed_approval
unfolding run create_approval approve_approval mark_approval_resumed update_approval_status
    get_approval change_status write_approval moved_to add_history_entry transitions read write
read_resumed = refl

resumed-was_approved_example : WasReached approved resumed_approval.history
resumed-was_approved_example =
    resumed-was_approved resumed_dir "p" resumed_approval resumed_dir-Reaches read_resumed refl

final_approval-stays_example : read "p" (run 20 (aborts "p") resumed_dir).1 ≡ some resumed_approval
final_approval-stays_example =
    final_approval-stays 20 "p" resumed_approval resumed_dir (aborts "p") resumed_dir-Reaches
      read_resumed (inl refl) tt
