-- ===== src/Session/Store.antt =====
-- The stored sessions (runtime/session.py): the moves of the status, writing with the history, and
-- loading. The snapshot that is returned leaves out the hash of the token.
use clarityos.Prelude.{
  ℕ, String, Bool, Option, none, some, List, [], ◌∷◌, ◌++◌, map, length, ◌<>◌, ◌==◌, string_eq,
  option_eq, elem, if◌then◌else◌,
}
use clarityos.Python.Errors.{Exception, value_error, file_not_found}
use clarityos.Python.Exec.{Result, ok, err, and_then, map_result, traverse, Exec}
use clarityos.Python.Json.{Fields}
use clarityos.Python.Directory.{Directory, read, write}
use clarityos.Session.Checks.{
  normalize_content, normalize_memory_scope, normalize_optional_text, normalize_ownership,
  normalize_text, raw_scope, unique_strings,
}
use clarityos.Session.Continuity.{find_compaction, message_ids}
use clarityos.Session.Record.{
  session_status_eq, Compaction, Continuity, Maintenance, MemoryScope, Ownership, Session,
  SessionEntry, SessionMessage, SessionStatus, compacted, creation, message_appended, run_changed,
  session_status_name, session_transitions, status_changed, workflow_changed,
}

abbrev pub Sessions : Type 0
Sessions = Directory Session

abbrev pub no_transition : Session → SessionStatus → Exception
no_transition session next = value_error (
    "Cannot transition session `"
    <> session.session_id
    <> "` from `"
    <> session_status_name session.status
    <> "` to `"
    <> session_status_name next
    <> "`")

-- `transition_session`, on the session that it changes
unfoldable pub transition_session : Session → SessionStatus → Result Session
transition_session session next =
    if elem next (session_transitions session.status)
    then ok (record session { status = next })
    else err (no_transition session next)

-- `[entry]`, if the two differ
abbrev pub entry_if : Bool → SessionEntry → List SessionEntry
entry_if same entry = if same then [] else entry ∷ []

abbrev pub active_id : Session → Option String
active_id session = elim session.continuity [ none ↦ none | some k ↦ k.active_compaction_id ]

abbrev pub stored_compactions : Session → List Compaction
stored_compactions session = elim session.continuity [ none ↦ [] | some k ↦ k.compactions ]

compaction_entries : ℕ → Option String → Option Compaction → List SessionEntry
compaction_entries timestamp id none = []
compaction_entries timestamp id (some c) =
    compacted timestamp id c.message_count (length c.retained_message_ids)
      (length c.source_memory_ids)
    ∷ []

new_message_entries : ℕ → (old : List String) → List SessionMessage → List SessionEntry
new_message_entries timestamp old [] = []
new_message_entries timestamp old (m ∷ ms) =
    let rest = new_message_entries timestamp old ms in
    if elem m.message_id old
    then rest
    else message_appended timestamp m.message_id m.role m.status m.workflow_id m.run_id ∷ rest

-- The entries that a write adds to the history of the stored session `previous`.
unfoldable pub changes_between : (previous current : Session) → List SessionEntry
unfolding compaction_entries new_message_entries find_compaction
changes_between p c =
    let t = c.updated_at in
    entry_if (p.status == c.status) (status_changed t p.status c.status)
    ++ (entry_if (p.current_workflow_id == c.current_workflow_id)
          (workflow_changed t p.current_workflow_id c.current_workflow_id)
        ++ (entry_if (p.last_run_id == c.last_run_id) (run_changed t p.last_run_id c.last_run_id)
            ++ ((if active_id c == active_id p
                  then []
                  else compaction_entries t (active_id c)
                      (find_compaction (active_id c) (stored_compactions c)))
                ++ new_message_entries t (message_ids p.messages) c.messages)))

unfoldable pub build_session_transition_history : Option Session → Session → List SessionEntry
unfolding changes_between
build_session_transition_history none c =
    c.transition_history ++ creation c.updated_at c.status c.agent c.memory_scope ∷ []
build_session_transition_history (some p) c = p.transition_history ++ changes_between p c

-- The session object as `write_session` leaves it, which is also what it stores.
unfoldable pub written : ℕ → Option Session → Ownership → Session → Session
unfolding build_session_transition_history
written now previous ownership session =
    let current = record session { ownership = ownership; updated_at = now } in
    record current { transition_history = build_session_transition_history previous current }

unfoldable pub write_owned : ℕ → Session → Result Ownership → Exec Sessions Session
unfolding written
write_owned now session (err e) d = (err e, d)
write_owned now session (ok ownership) d =
    let final = written now (read session.session_id d) ownership session in
    (ok final, write session.session_id final d)

unfoldable pub write_session : ℕ → Session → Exec Sessions Session
unfolding write_owned normalize_ownership
write_session now session = write_owned now session (normalize_ownership session.ownership)

-- `session_snapshot`: the hash of the token is left out.
abbrev pub session_snapshot : Session → Session
session_snapshot session = record session {
  ownership = record session.ownership { token_hash = none };
}

-- `session_summary`: in the place of the messages their number and the last one.
pub record SessionSummary : Type 0 where
  pub session_id : String
  pub title : Option String
  pub agent : String
  pub status : SessionStatus
  pub ownership : Ownership
  pub memory_scope : MemoryScope
  pub current_workflow_id : Option String
  pub workflow_ids : List String
  pub last_run_id : Option String
  pub last_job_id : Option String
  pub message_count : ℕ
  pub last_message : Option SessionMessage
  pub metadata : Fields
  pub continuity : Option Continuity
  pub maintenance : Option Maintenance
  pub created_at : ℕ
  pub updated_at : ℕ

last_message_of : List SessionMessage → Option SessionMessage
last_message_of [] = none
last_message_of (m ∷ []) = some m
last_message_of (m ∷ n ∷ ms) = last_message_of (n ∷ ms)

unfoldable pub session_summary : Session → SessionSummary
unfolding last_message_of
session_summary s = record {
  session_id = s.session_id;
  title = s.title;
  agent = s.agent;
  status = s.status;
  ownership = record s.ownership { token_hash = none };
  memory_scope = s.memory_scope;
  current_workflow_id = s.current_workflow_id;
  workflow_ids = s.workflow_ids;
  last_run_id = s.last_run_id;
  last_job_id = s.last_job_id;
  message_count = length s.messages;
  last_message = last_message_of s.messages;
  metadata = s.metadata;
  continuity = s.continuity;
  maintenance = s.maintenance;
  created_at = s.created_at;
  updated_at = s.updated_at;
}

unfoldable pub load_message : SessionMessage → Result SessionMessage
load_message m = and_then (normalize_text m.message_id "messages[].message_id") (λ message_id.
    and_then (normalize_optional_text m.agent "messages[].agent") (λ agent.
      and_then (normalize_optional_text m.workflow_id "messages[].workflow_id") (λ workflow_id.
        and_then (normalize_optional_text m.run_id "messages[].run_id") (λ run_id.
          and_then (normalize_optional_text m.job_id "messages[].job_id") (λ job_id.
            map_result
              (λ worker_id. record m {
                message_id = message_id;
                content = normalize_content m.content;
                agent = agent;
                workflow_id = workflow_id;
                run_id = run_id;
                job_id = job_id;
                worker_id = worker_id;
              })
              (normalize_optional_text m.worker_id "messages[].worker_id"))))))

unfoldable pub load_links : Session → Result Session
unfolding load_message
load_links s =
    and_then (normalize_optional_text s.current_workflow_id "current_workflow_id") (λ workflow.
      and_then (normalize_optional_text s.last_run_id "last_run_id") (λ run.
        and_then (normalize_optional_text s.last_job_id "last_job_id") (λ job.
          map_result
            (λ messages. record s {
              current_workflow_id = workflow;
              workflow_ids = unique_strings (map some s.workflow_ids);
              last_run_id = run;
              last_job_id = job;
              messages = messages;
            })
            (traverse load_message s.messages))))

-- The normalization of what a file holds.
unfoldable pub load_record : Session → Result Session
unfolding load_links
load_record s = and_then (normalize_optional_text s.title "title") (λ title.
    and_then (normalize_text s.agent "agent") (λ agent.
      and_then (normalize_ownership s.ownership) (λ ownership.
        and_then (normalize_memory_scope (some (raw_scope s.memory_scope)) agent) (λ scope.
          load_links (record s {
            title = title;
            agent = agent;
            ownership = ownership;
            memory_scope = scope;
          })))))

unfoldable pub load_found : String → Option Session → Result Session
load_found session_id none = err (file_not_found ("Session not found: " <> session_id))
load_found session_id (some s) = load_record s

unfoldable pub load_session : String → Sessions → Result Session
unfolding load_found load_record
load_session session_id d = load_found session_id (read session_id d)
