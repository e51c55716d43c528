-- ===== src/Approval/State.antt =====
-- The record of an approval and the operations on stored approvals (runtime/approval.py).
use clarityos.Prelude.{
  ℕ, String, ◌<>◌, Bool, true, Option, none, some, List, [], ◌∷◌, ◌++◌, str_ltb, nat_beq,
  if◌then◌else◌, Eq, ◌==◌, string_eq, elem, keep_if, ◌≡◌, ◌↔◌, arith,
}
use clarityos.Prelude.Sort.{sort_by}
use clarityos.Python.Errors.{approval_state, file_not_found}
use clarityos.Python.Exec.{Result, ok, err, Exec, ◌>>=◌}
use clarityos.Python.Json.{Json, str, null, obj, Fields, field, end, eq_json}
use clarityos.Python.Directory.{Directory, files, read, write}

pub data ApprovalStatus : Type 0 where
  pending approved resumed denied aborted : ApprovalStatus

abbrev pub status_name : ApprovalStatus → String
status_name pending = "pending"
status_name approved = "approved"
status_name resumed = "resumed"
status_name denied = "denied"
status_name aborted = "aborted"

abbrev pub status_code : ApprovalStatus → ℕ
status_code pending = 0
status_code approved = 1
status_code resumed = 2
status_code denied = 3
status_code aborted = 4

pub status_beq_iff :
    (a b : ApprovalStatus) → (nat_beq (status_code a) (status_code b) ≡ true) ↔ (a ≡ b)
status_beq_iff a b = ground arith

instance abbrev pub status_eq : Eq ApprovalStatus
status_eq = record {
  equals = λ a b. nat_beq (status_code a) (status_code b);
  equals_iff = status_beq_iff;
}

-- `TRANSITIONS`
unfoldable pub transitions : ApprovalStatus → List ApprovalStatus
transitions pending = approved ∷ denied ∷ aborted ∷ []
transitions approved = resumed ∷ aborted ∷ []
transitions resumed = []
transitions denied = []
transitions aborted = []

pub data Actor : Type 0 where
  system operator : Actor

pub data HistoryState : Type 0 where
  requested : HistoryState
  reached : ApprovalStatus → HistoryState

pub record HistoryItem : Type 0 where
  pub state : HistoryState
  pub timestamp : ℕ
  pub actor : Actor

pub record Approval : Type 0 where
  pub approval_id : String
  pub status : ApprovalStatus
  pub created_at : ℕ
  pub updated_at : ℕ
  pub requested_run_id : String
  pub workflow_id : String
  pub resumed_run_id : Option String
  pub agent : String
  pub policy : String
  pub action : Json
  pub reason : String
  pub request : Json
  pub history : List HistoryItem

abbrev pub Approvals : Type 0
Approvals = Directory Approval

unfoldable pub write_approval : Approval → Exec Approvals Approval
write_approval a d = (ok a, write a.approval_id a d)

found_approval : String → Option Approval → Result Approval
found_approval approval_id none = err (file_not_found ("Approval not found: " <> approval_id))
found_approval approval_id (some a) = ok a

unfoldable pub get_approval : String → Exec Approvals Approval
unfolding found_approval
get_approval approval_id d = (found_approval approval_id (read approval_id d), d)

-- The order of the paths `{approval_id}.json`.
path_before : Approval → Approval → Bool
path_before a b = str_ltb (a.approval_id <> ".json") (b.approval_id <> ".json")

unfoldable pub list_approvals_for_workflow : String → Approvals → List Approval
unfolding path_before
list_approvals_for_workflow workflow_id d =
    keep_if (λ a. a.workflow_id == workflow_id) (sort_by path_before (files d))

unfoldable pub add_history_entry : ℕ → HistoryState → Actor → Approval → Approval
add_history_entry now state actor a = record a {
  history = a.history ++ record { state = state; timestamp = now; actor = actor } ∷ [];
}

pub record ApprovalRequest : Type 0 where
  pub run_id : String
  pub workflow_id : String
  pub agent : String
  pub policy_name : String
  pub action : Json
  pub reason : String
  pub request : Json

abbrev pub first_history : ℕ → List HistoryItem
first_history now =
    record { state = requested; timestamp = now; actor = system }
    ∷ record { state = reached pending; timestamp = now; actor = system }
    ∷ []

-- `approval_id` is the id that `uuid.uuid4` draws.
unfoldable pub create_approval : ℕ → String → ApprovalRequest → Exec Approvals Approval
unfolding write_approval
create_approval now approval_id r = write_approval (record {
  approval_id = approval_id;
  status = pending;
  created_at = now;
  updated_at = now;
  requested_run_id = r.run_id;
  workflow_id = r.workflow_id;
  resumed_run_id = none;
  agent = r.agent;
  policy = r.policy_name;
  action = r.action;
  reason = r.reason;
  request = r.request;
  history = first_history now;
})

cannot_transition : String → ApprovalStatus → ApprovalStatus → Result Approval
cannot_transition approval_id current status = err (
    approval_state
      ("Cannot transition approval `"
        <> approval_id
        <> "` from `"
        <> status_name current
        <> "` to `"
        <> status_name status
        <> "`")
      approval_id)

unfoldable pub moved_to : ℕ → ApprovalStatus → Actor → Approval → Approval
unfolding add_history_entry
moved_to now status actor a =
    add_history_entry now (reached status) actor (record a { status = status; updated_at = now })

unfoldable pub change_status :
    ℕ → String → ApprovalStatus → Actor → Approval → Exec Approvals Approval
unfolding cannot_transition moved_to write_approval
change_status now approval_id status actor a d =
    if elem status (transitions a.status)
    then write_approval (moved_to now status actor a) d
    else (cannot_transition approval_id a.status status, d)

unfoldable pub update_approval_status :
    ℕ → String → ApprovalStatus → Actor → Exec Approvals Approval
unfolding get_approval change_status
update_approval_status now approval_id status actor = do
  a ← get_approval approval_id
  change_status now approval_id status actor a

unfoldable pub approve_approval : ℕ → String → Exec Approvals Approval
approve_approval now approval_id = update_approval_status now approval_id approved operator

unfoldable pub deny_approval : ℕ → String → Exec Approvals Approval
deny_approval now approval_id = update_approval_status now approval_id denied operator

unfoldable pub abort_approval : ℕ → String → Exec Approvals Approval
abort_approval now approval_id = update_approval_status now approval_id aborted operator

unfoldable pub mark_approval_resumed : ℕ → String → String → Exec Approvals Approval
unfolding write_approval
mark_approval_resumed now approval_id resumed_run_id = do
  a ← update_approval_status now approval_id resumed system
  write_approval (record a { resumed_run_id = some resumed_run_id; updated_at = now })

abbrev pub str_or_null : Option String → Json
str_or_null none = null
str_or_null (some t) = str t

abbrev pub obj_or_null : Option Fields → Json
obj_or_null none = null
obj_or_null (some fields) = obj fields

unfoldable pub request_of : String → String → Option String → Option Fields → Json
request_of user_input agent_name tool_name tool_args = obj (
    field "input" (str user_input) (
      field "agent" (str agent_name)
        (field "tool" (str_or_null tool_name) (field "tool_args" (obj_or_null tool_args) end))))

unfoldable pub approval_matches_request :
    Approval → String → String → Option String → Option Fields → Bool
unfolding request_of
approval_matches_request a user_input agent_name tool_name tool_args =
    eq_json a.request (request_of user_input agent_name tool_name tool_args)
