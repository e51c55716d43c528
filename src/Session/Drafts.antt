-- ===== src/Session/Drafts.antt =====
-- What a message to a session is before it is answered (runtime/session.py). The context that
-- runtime/assistant_grounding.py adds to a prompt is the parameter `ground_prompt`.
use clarityos.Prelude.{
  ℕ, String, ◌||◌, Option, none, some, List, [], ◌∷◌, ◌++◌, ◌<>◌, ◌==◌, string_eq, if◌then◌else◌,
}
use clarityos.Python.Errors.{value_error}
use clarityos.Python.Exec.{Result, ok, err, and_then, map_result}
use clarityos.Python.Json.{Json, null, str, arr, obj, Items, nil, cons, Fields, field, end}
use clarityos.Python.Text.{strip, is_blank}
use clarityos.Session.Checks.{
  normalize_memory_scope, normalize_metadata, normalize_optional_text, normalize_text, raw_scope,
}
use clarityos.Session.Continuity.{MemorySummary}
use clarityos.Session.Preview.{default_title, or_else}
use clarityos.Session.Record.{
  session_status_eq, MemoryScope, ScopeKind, Session, SessionMessage, SessionStatus, active,
  archived, errored, recovered, run_scope, submitted, user, waiting, workflow_scope,
}
use clarityos.Session.Summary.{build_session_continuity_summary}

pub record PromptEntry : Type 0 where
  pub title : String
  pub source : String
  pub content : String

pub record AppendRequest : Type 0 where
  pub content : String
  pub agent : Option String
  pub tool_name : Option String
  pub tool_args : Option Fields
  pub approval_id : Option String
  pub metadata : Json

-- What `start_workflow` is asked, and what is read of its result.
pub record StartRequest : Type 0 where
  pub user_input : String
  pub agent_name : String
  pub request : AppendRequest
  pub prompt_context : List PromptEntry

pub record WorkflowResult : Type 0 where
  pub workflow_id : Option String
  pub latest_run_id : Option String
  pub run_id : Option String
  pub job_id : Option String
  pub worker_id : Option String
  pub status : Option String
  pub output : Option String
  pub approval : Json
  pub retry : Json

abbrev pub text_json : Option String → Json
text_json none = null
text_json (some t) = str t

-- `d[k] = v`
unfoldable pub put : String → Json → Fields → Fields
put k v end = field k v end
put k v (field j w fs) = if j == k then field k v fs else field j w (put k v fs)

request_json : AppendRequest → Json
request_json r = obj (
    field "tool" (text_json r.tool_name) (
      field "tool_args" (elim r.tool_args [ none ↦ null | some args ↦ obj args ])
        (field "approval_id" (text_json r.approval_id) end)))

source_items : List PromptEntry → Items
source_items [] = nil
source_items (e ∷ es) =
    cons (obj (field "title" (str e.title) (field "source" (str e.source) end))) (source_items es)

-- The sources of the prompt are noted in the message, where there are any.
grounded : List PromptEntry → Fields → Fields
unfolding source_items put
grounded [] metadata = metadata
grounded (e ∷ es) metadata =
    put "grounding"
      (obj (
        field "profile" (str "repo_assistant") (field "sources" (arr (source_items (e ∷ es))) end)))
      metadata

unfoldable pub session_target_status : (previous : SessionStatus) → String → SessionStatus
session_target_status previous workflow_status =
    if workflow_status == "success"
    then (if previous == waiting || previous == errored then recovered else active)
    else if workflow_status == "pending" || workflow_status == "retry_wait"
    then waiting
    else errored

unfoldable pub follow_memory_scope :
    MemoryScope → (workflow_id run_id : Option String) → Result MemoryScope
follow_memory_scope scope workflow_id run_id = elim scope.kind [
  | workflow_scope ↦
      map_result (λ v. record scope { value = v })
        (normalize_optional_text workflow_id "memory_scope.value")
  | run_scope ↦
      map_result (λ v. record scope { value = v })
        (normalize_optional_text run_id "memory_scope.value")
  | _ ↦ ok scope
]

abbrev pub agent_or : Option String → String → String
agent_or none agent = agent
agent_or (some a) agent = or_else a agent

-- `session.last_job_id`, if the result names a job
abbrev pub job_or : Option String → Option String → Option String
job_or none old = old
job_or (some job) old = if is_blank job then old else some (strip job)

title_or : Option String → String → Option String
title_or none content = some (default_title content)
title_or (some title) content = some title

-- The session as the message finds it, without the message, and the message as it is asked.
pub record Draft : Type 0 where
  pub base : Session
  pub asked : SessionMessage
  pub content : String
  pub agent : String
  pub context : List PromptEntry

unfoldable pub appended : Session → SessionMessage → Session
appended s m = record s { messages = s.messages ++ m ∷ [] }

module _ (list_memories : ScopeKind → Option String → ℕ → List MemorySummary)
    (ground_prompt : (surface : Option String) → (content agent : String) → List PromptEntry) where
  continuity_context : ℕ → Session → String → List PromptEntry
  continuity_context now s asked_id =
      elim (build_session_continuity_summary list_memories now s (asked_id ∷ []) 4 4 900) [
        | none ↦ []
        | some summary ↦
            record {
              title = "Session continuity";
              source = "session_continuity:" <> s.session_id;
              content = summary.summary;
            }
            ∷ []
      ]

  unfoldable pub new_message :
      ℕ → String → AppendRequest → (content agent : String) → Fields → SessionMessage
  unfolding put request_json
  new_message now message_id r content agent metadata = record {
    message_id = message_id;
    role = user;
    content = some content;
    status = submitted;
    created_at = now;
    agent = some agent;
    workflow_id = none;
    run_id = none;
    job_id = none;
    worker_id = none;
    metadata = put "request" (request_json r) metadata;
  }

  unfoldable pub draft_of :
      ℕ → Session → SessionMessage → (content agent : String) → MemoryScope → Draft
  unfolding continuity_context grounded title_or
  draft_of now s m content agent scope =
      let base = record s {
        agent = agent;
        memory_scope = scope;
        title = title_or s.title content;
      } in
      let context =
        continuity_context now (record base { messages = s.messages ++ m ∷ [] }) m.message_id
        ++ ground_prompt s.ownership.surface content agent in
      record {
        base = base;
        asked = record m { metadata = grounded context m.metadata };
        content = content;
        agent = agent;
        context = context;
      }

  -- What comes before the workflow: the checks, the message and the context of the prompt.
  unfoldable pub prepare : ℕ → String → AppendRequest → Session → Result Draft
  unfolding new_message draft_of
  prepare now message_id r s =
      if s.status == archived
      then err (
          value_error
            ("Session `" <> s.session_id <> "` is archived and cannot accept new messages"))
      else and_then (normalize_text r.content "content") (λ content.
        and_then (normalize_text (agent_or r.agent s.agent) "agent") (λ agent.
          and_then (normalize_metadata r.metadata) (λ metadata.
            map_result
              (draft_of now s (new_message now message_id r content agent metadata) content agent)
              (normalize_memory_scope (some (raw_scope s.memory_scope)) agent))))
