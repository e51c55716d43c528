-- ===== src/Session/Record.antt =====
-- The record of a session (runtime/session.py). The entries `continuity` and `maintenance` of its
-- metadata, which the operations write, are fields of their own; `open` is written `opened`, since it
-- is a reserved word here.
use clarityos.Prelude.{
  ℕ, String, Bool, true, Option, List, [], ◌∷◌, nat_beq, Eq, ◌≡◌, ◌↔◌, arith, string_eq,
}
use clarityos.Python.Json.{Fields}

pub data SessionStatus : Type 0 where
  opened active waiting errored archived recovered : SessionStatus

abbrev pub session_status_code : SessionStatus → ℕ
session_status_code opened = 0
session_status_code active = 1
session_status_code waiting = 2
session_status_code errored = 3
session_status_code archived = 4
session_status_code recovered = 5

pub session_status_beq_iff :
    (a b : SessionStatus)
    → (nat_beq (session_status_code a) (session_status_code b) ≡ true) ↔ (a ≡ b)
session_status_beq_iff a b = ground arith

instance abbrev pub session_status_eq : Eq SessionStatus
session_status_eq = record {
  equals = λ a b. nat_beq (session_status_code a) (session_status_code b);
  equals_iff = session_status_beq_iff;
}

abbrev pub session_status_name : SessionStatus → String
session_status_name opened = "open"
session_status_name active = "active"
session_status_name waiting = "waiting"
session_status_name errored = "errored"
session_status_name archived = "archived"
session_status_name recovered = "recovered"

-- `SESSION_STATUS_TRANSITIONS`
unfoldable pub session_transitions : SessionStatus → List SessionStatus
session_transitions opened = active ∷ waiting ∷ errored ∷ archived ∷ []
session_transitions active = active ∷ waiting ∷ errored ∷ archived ∷ []
session_transitions waiting = active ∷ waiting ∷ errored ∷ recovered ∷ archived ∷ []
session_transitions errored = active ∷ waiting ∷ recovered ∷ archived ∷ []
session_transitions recovered = active ∷ waiting ∷ errored ∷ archived ∷ []
session_transitions archived = []

pub data MessageRole : Type 0 where
  user assistant system : MessageRole

abbrev pub role_name : MessageRole → String
role_name user = "user"
role_name assistant = "assistant"
role_name system = "system"

pub data MessageStatus : Type 0 where
  submitted answered pending failing : MessageStatus

-- The texts of the source.
abbrev pub message_status_name : MessageStatus → String
message_status_name submitted = "submitted"
message_status_name answered = "completed"
message_status_name pending = "waiting"
message_status_name failing = "errored"

pub data ScopeKind : Type 0 where
  global_scope agent_scope workflow_scope run_scope : ScopeKind

abbrev pub scope_name : ScopeKind → String
scope_name global_scope = "global"
scope_name agent_scope = "agent"
scope_name workflow_scope = "workflow"
scope_name run_scope = "run"

pub record MemoryScope : Type 0 where
  pub kind : ScopeKind
  pub value : Option String

pub record Ownership : Type 0 where
  pub auth_required : Bool
  pub surface : Option String
  pub token_hash : Option String
  pub issued_at : Option ℕ

pub record SessionMessage : Type 0 where
  pub message_id : String
  pub role : MessageRole
  pub content : Option String
  pub status : MessageStatus
  pub created_at : ℕ
  pub agent : Option String
  pub workflow_id : Option String
  pub run_id : Option String
  pub job_id : Option String
  pub worker_id : Option String
  pub metadata : Fields

pub record RoleCounts : Type 0 where
  pub users : ℕ
  pub assistants : ℕ
  pub systems : ℕ

pub record Compaction : Type 0 where
  pub compaction_id : String
  pub created_at : ℕ
  pub summary : String
  pub message_count : ℕ
  pub message_roles : RoleCounts
  pub compacted_message_ids : List String
  pub retained_message_ids : List String
  pub source_memory_ids : List String
  pub source_workflow_ids : List String
  pub memory_scope : MemoryScope
  pub from_timestamp : ℕ
  pub to_timestamp : ℕ

-- The summary and its `carry_forward`; the two counts of the source are the lengths of the lists.
pub record CarriedSummary : Type 0 where
  pub based_on_compaction_id : Option String
  pub updated_at : ℕ
  pub summary : String
  pub recent_message_limit : ℕ
  pub source_memory_limit : ℕ
  pub max_summary_chars : ℕ
  pub session_status : SessionStatus
  pub current_workflow_id : Option String
  pub memory_scope : MemoryScope
  pub recent_message_ids : List String
  pub source_memory_ids : List String
  pub source_workflow_ids : List String

pub record Continuity : Type 0 where
  pub compactions : List Compaction
  pub active_compaction_id : Option String
  pub active_summary : Option CarriedSummary
  pub updated_at : Option ℕ

pub record Maintenance : Type 0 where
  pub archived_at : Option ℕ
  pub archive_reason : Option String

pub data SessionEntry : Type 0 where
  creation : (timestamp : ℕ) → SessionStatus → (agent : String) → MemoryScope → SessionEntry
  status_changed : (timestamp : ℕ) → (from to : SessionStatus) → SessionEntry
  workflow_changed run_changed : (timestamp : ℕ) → (from to : Option String) → SessionEntry
  compacted :
      (timestamp : ℕ)
      → (compaction_id : Option String) → (message_count retained_count memory_count : ℕ)
      → SessionEntry
  message_appended :
      (timestamp : ℕ)
      → (message_id : String) → MessageRole
      → MessageStatus
      → (workflow_id run_id : Option String) → SessionEntry

pub record Session : Type 0 where
  pub session_id : String
  pub title : Option String
  pub agent : String
  pub status : SessionStatus
  pub ownership : Ownership
  pub memory_scope : MemoryScope
  pub current_workflow_id : Option String
  pub workflow_ids : List String
  pub last_run_id : Option String
  pub last_job_id : Option String
  pub messages : List SessionMessage
  pub metadata : Fields
  pub continuity : Option Continuity
  pub maintenance : Option Maintenance
  pub transition_history : List SessionEntry
  pub created_at : ℕ
  pub updated_at : ℕ
