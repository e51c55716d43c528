-- ===== src/Session/Messages.antt =====
-- Appending a message to a session (runtime/session.py). The workflow that answers a message
-- (`start_workflow` of runtime/workflow_runner.py) is the parameter `start`: it returns or raises, and
-- leaves the files of sessions alone. The context that runtime/assistant_grounding.py adds to a prompt
-- is the parameter `ground_prompt`.
use clarityos.Prelude.{
  ℕ, String, Option, none, some, List, [], ◌∷◌, ◌++◌, map, ◌==◌, string_eq, if◌then◌else◌,
}
use clarityos.Python.Errors.{Exception, type_name, message}
use clarityos.Python.Exec.{
  Result, ok, err, and_then, map_result, Exec, lift, pure, raise, ◌>>=◌, ◌>>◌,
}
use clarityos.Python.Json.{str, obj, Fields, field, end}
use clarityos.Python.Text.{or_text}
use clarityos.Session.Checks.{normalize_content, normalize_optional_text, unique_strings}
use clarityos.Session.Continuity.{MemorySummary}
use clarityos.Session.Drafts.{
  AppendRequest, Draft, PromptEntry, StartRequest, WorkflowResult, appended, follow_memory_scope,
  prepare, session_target_status, text_json,
}
use clarityos.Session.Record.{
  session_status_eq, ScopeKind, Session, SessionMessage, answered, assistant, errored, failing,
  pending,
}
use clarityos.Session.Store.{
  Sessions, load_session, session_snapshot, transition_session, write_session,
}
use clarityos.Session.Summary.{refresh_session_continuity_summary}
use clarityos.Session.Drafts.{job_or}

module _ (list_memories : ScopeKind → Option String → ℕ → List MemorySummary)
    (ground_prompt : (surface : Option String) → (content agent : String) → List PromptEntry) where
  error_json : Exception → Fields
  error_json exc =
      field "error"
        (obj (field "type" (str (type_name exc)) (field "message" (str (message exc)) end))) end

  unfoldable pub error_message : ℕ → String → String → Exception → SessionMessage
  unfolding error_json
  error_message now reply_id agent exc = record {
    message_id = reply_id;
    role = assistant;
    content = none;
    status = failing;
    created_at = now;
    agent = some agent;
    workflow_id = none;
    run_id = none;
    job_id = none;
    worker_id = none;
    metadata = error_json exc;
  }

  -- `except Exception as exc`: the session is errored, the error becomes a message, and the exception
  -- is raised again. What the transition or the write raises takes its place.
  unfoldable pub append_failed :
      ℕ → (reply_id : String) → Draft → Exception → Exec Sessions (Session × WorkflowResult)
  unfolding error_message
  append_failed now reply_id p exc = do
    moved ← lift (transition_session (appended p.base p.asked) errored)
    write_session now (appended moved (error_message now reply_id p.agent exc))
    raise exc

  abbrev pub run_of : WorkflowResult → Option String
  run_of result = or_text result.latest_run_id result.run_id

  abbrev pub status_of : WorkflowResult → String
  status_of result = elim result.status [ none ↦ "errored" | some status ↦ status ]

  unfoldable pub completed_message : WorkflowResult → SessionMessage → SessionMessage
  completed_message result m = record m {
    status = answered;
    workflow_id = result.workflow_id;
    run_id = run_of result;
    job_id = result.job_id;
    worker_id = result.worker_id;
  }

  unfoldable pub reply_message : ℕ → String → String → WorkflowResult → SessionMessage
  reply_message now reply_id agent result = record {
    message_id = reply_id;
    role = assistant;
    content = normalize_content result.output;
    status = if status_of result == "success" then answered else pending;
    created_at = now;
    agent = some agent;
    workflow_id = result.workflow_id;
    run_id = run_of result;
    job_id = result.job_id;
    worker_id = result.worker_id;
    metadata =
        field "result_status" (text_json result.status)
          (field "approval" result.approval (field "retry" result.retry end));
  }

  -- The links of the session to the workflow that answered.
  unfoldable pub linked : WorkflowResult → Session → Result Session
  unfolding follow_memory_scope
  linked result s =
      and_then (normalize_optional_text result.workflow_id "current_workflow_id") (λ workflow.
        and_then (normalize_optional_text (run_of result) "last_run_id") (λ run.
          map_result
            (λ scope. record s {
              current_workflow_id = workflow;
              workflow_ids = unique_strings (map some s.workflow_ids ++ result.workflow_id ∷ []);
              last_run_id = run;
              last_job_id = job_or result.job_id s.last_job_id;
              memory_scope = scope;
            })
            (follow_memory_scope s.memory_scope result.workflow_id (run_of result))))

  unfoldable pub append_answered :
      ℕ → (reply_id : String) → Draft → WorkflowResult → Exec Sessions (Session × WorkflowResult)
  unfolding completed_message reply_message linked session_target_status
  append_answered now reply_id p result = do
    joined ← lift (linked result (appended p.base (completed_message result p.asked)))
    moved ←
        lift (transition_session joined (session_target_status joined.status (status_of result)))
    let replied = appended moved (reply_message now reply_id p.agent result)
    stored ← write_session now (refresh_session_continuity_summary list_memories now replied)
    pure (session_snapshot stored, result)

  module _ (start : StartRequest → Result WorkflowResult) where
    unfoldable pub answer :
        ℕ → String → Draft → Result WorkflowResult → Exec Sessions (Session × WorkflowResult)
    unfolding append_failed append_answered
    answer now reply_id p (err exc) = append_failed now reply_id p exc
    answer now reply_id p (ok result) = append_answered now reply_id p result

    unfoldable pub ask : AppendRequest → Draft → Result WorkflowResult
    ask r p = start (record {
      user_input = p.content;
      agent_name = p.agent;
      request = r;
      prompt_context = p.context;
    })

    -- `message_id` and `reply_id` are the ids that `uuid4` draws for the two messages.
    unfoldable pub append_session_message :
        ℕ
        → (session_id message_id reply_id : String) → AppendRequest
        → Exec Sessions (Session × WorkflowResult)
    unfolding prepare answer ask
    append_session_message now session_id message_id reply_id r = do
      s ← (λ d. (load_session session_id d, d))
      p ← lift (prepare list_memories ground_prompt now message_id r s)
      answer now reply_id p (ask r p)
