-- ===== src/Session/Samples.antt =====
-- Small sessions, requests and answers, for the theorems of the sessions.
use clarityos.Python.Directory.{read}
use clarityos.Prelude.{ℕ, String, ◌≡◌, refl, true, Option, none, some, List, [], ◌∷◌, string_eq}
use clarityos.Prelude.Int.{pos}
use clarityos.Python.Errors.{value_error}
use clarityos.Python.Exec.{Result, ok, err, traverse}
use clarityos.Python.Json.{null, end}
use clarityos.Python.Text.{strip}
use clarityos.Session.Checks.{
  normalize_content, normalize_memory_scope, normalize_metadata, normalize_optional_text,
  normalize_ownership, normalize_text, unique_strings,
}
use clarityos.Session.Cleanup.{PrunedSessions, prune_sessions, statuses_or_archived}
use clarityos.Session.Compacting.{CompactLimits, compact_limits, new_compaction}
use clarityos.Session.Continuity.{MemorySummary}
use clarityos.Session.Drafts.{
  AppendRequest, Draft, PromptEntry, StartRequest, WorkflowResult, appended, draft_of, new_message,
  prepare,
}
use clarityos.Session.Messages.{append_session_message, ask, completed_message, linked}
use clarityos.Session.Record.{
  session_status_eq, Compaction, MemoryScope, ScopeKind, Session, SessionMessage, active,
  agent_scope, archived,
}
use clarityos.Session.Store.{Sessions, load_session}
use clarityos.Session.Upkeep.{
  SessionRequest, check_session, new_session, normalize_status, positive_limit,
}

-- The digest of every token.
abbrev pub hash : String → String
hash token = "digest"

abbrev pub scope : MemoryScope
scope = record { kind = agent_scope; value = some "mock" }

abbrev pub sample : Session
sample = record {
  session_id = "s";
  title = none;
  agent = "mock";
  status = active;
  ownership = record {
    auth_required = true;
    surface = none;
    token_hash = some "digest";
    issued_at = some 1;
  };
  memory_scope = scope;
  current_workflow_id = none;
  workflow_ids = [];
  last_run_id = none;
  last_job_id = none;
  messages = [];
  metadata = end;
  continuity = none;
  maintenance = none;
  transition_history = [];
  created_at = 1;
  updated_at = 1;
}

abbrev pub sample_sessions : Sessions
sample_sessions = ("s", sample) ∷ []

pub sample-loads : load_session "s" sample_sessions ≡ ok sample
unfolding load_session read normalize_optional_text normalize_text strip normalize_ownership
    normalize_memory_scope unique_strings
sample-loads = refl

abbrev pub sample_request : SessionRequest
sample_request = record {
  title = none;
  agent = "mock";
  metadata = null;
  memory_scope = none;
  surface = none;
}

abbrev pub fresh : Session
fresh = new_session 9 "n" "digest" "mock" none none scope end

pub fresh-checked : check_session 9 "n" "digest" sample_request ≡ ok fresh
unfolding check_session normalize_text strip normalize_optional_text normalize_memory_scope
    normalize_metadata
fresh-checked = refl

abbrev pub no_memories : ScopeKind → Option String → ℕ → List MemorySummary
no_memories kind value limit = []

abbrev pub no_grounding : Option String → String → String → List PromptEntry
no_grounding surface content agent = []

abbrev pub question : AppendRequest
question = record {
  content = "hello";
  agent = none;
  tool_name = none;
  tool_args = none;
  approval_id = none;
  metadata = null;
}

abbrev pub draft : Draft
draft =
    draft_of no_memories no_grounding 9 sample
      (new_message no_memories no_grounding 9 "q" question "hello" "mock" end) "hello" "mock" scope

pub draft-prepared : prepare no_memories no_grounding 9 "q" question sample ≡ ok draft
unfolding prepare normalize_text strip normalize_metadata normalize_memory_scope
draft-prepared = refl

abbrev pub broken : StartRequest → Result WorkflowResult
broken request = err (value_error "broken")

pub broken-raises : ask no_memories no_grounding broken question draft ≡ err (value_error "broken")
unfolding ask
broken-raises = refl

abbrev pub failed_append : Result (Session × WorkflowResult) × Sessions
failed_append =
    append_session_message no_memories no_grounding broken 9 "s" "q" "r" question sample_sessions

abbrev pub reply : WorkflowResult
reply = record {
  workflow_id = some "w";
  latest_run_id = some "u";
  run_id = none;
  job_id = some "j";
  worker_id = none;
  status = some "success";
  output = some "hi";
  approval = null;
  retry = null;
}

abbrev pub working : StartRequest → Result WorkflowResult
working request = ok reply

pub working-returns : ask no_memories no_grounding working question draft ≡ ok reply
unfolding ask
working-returns = refl

abbrev pub asked_session : Session
asked_session = appended draft.base (completed_message no_memories no_grounding reply draft.asked)

abbrev pub joined_session : Session
joined_session = record asked_session {
  current_workflow_id = some "w";
  workflow_ids = "w" ∷ [];
  last_run_id = some "u";
  last_job_id = some "j";
}

pub reply-links : linked no_memories no_grounding reply asked_session ≡ ok joined_session
unfolding linked appended draft_of normalize_optional_text normalize_text strip unique_strings
reply-links = refl

abbrev pub answered_append : Result (Session × WorkflowResult) × Sessions
answered_append =
    append_session_message no_memories no_grounding working 9 "s" "q" "r" question sample_sessions

abbrev pub old_sessions : Sessions
old_sessions = ("o", record sample { session_id = "o"; status = archived }) ∷ sample_sessions

pub archived-wanted : traverse normalize_status (statuses_or_archived none) ≡ ok (archived ∷ [])
unfolding normalize_status
archived-wanted = refl

abbrev pub one : Option ℕ
one = some 1

pub one_left : positive_limit (some (pos 1)) ≡ ok (some 1)
unfolding positive_limit
one_left = refl

abbrev pub pruned : Result PrunedSessions × Sessions
pruned = prune_sessions 9999999999 none (pos 1) (some (pos 1)) old_sessions

abbrev pub message_with : String → SessionMessage
message_with id = record draft.asked { message_id = id }

abbrev pub chatty : Session
chatty = record sample { messages = message_with "a" ∷ message_with "b" ∷ [] }

abbrev pub chatty_sessions : Sessions
chatty_sessions = ("s", chatty) ∷ []

pub chatty-loads : load_session "s" chatty_sessions ≡ ok chatty
unfolding load_session draft_of new_message read normalize_optional_text normalize_text strip
    normalize_ownership normalize_memory_scope unique_strings normalize_content
chatty-loads = refl

abbrev pub limits : CompactLimits
limits = record { keep_recent_messages = 1; memory_limit = 4; max_summary_chars = 900 }

pub limits-parsed : compact_limits (pos 1) (pos 4) (pos 900) ≡ ok limits
unfolding compact_limits
limits-parsed = refl

abbrev pub isoformat : ℕ → String
isoformat t = "time"

abbrev pub made_of_chatty : Compaction
made_of_chatty = new_compaction isoformat no_memories 20 "c" limits chatty
