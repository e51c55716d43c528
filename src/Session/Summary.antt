-- ===== src/Session/Summary.antt =====
-- The summary that a session carries forward into its next prompt (runtime/session.py).
use clarityos.Prelude.{
  ℕ, ◌/◌, max, min, String, not, Option, none, some, List, [], ◌∷◌, ◌++◌, map, keep_if, ◌<>◌,
  string_eq, option_eq, elem, if◌then◌else◌,
}
use clarityos.Python.Text.{is_empty}
use clarityos.Session.Checks.{unique_strings}
use clarityos.Session.Continuity.{
  ContinuityView, MemorySummary, continuity_metadata, last_of, memory_ids, message_ids,
  select_continuity_memories,
}
use clarityos.Session.Preview.{
  bounded_lines_text, message_preview_for_summary, or_else, truncate_text,
}
use clarityos.Session.Record.{
  CarriedSummary, Compaction, Continuity, ScopeKind, Session, SessionMessage, session_status_name,
}
use clarityos.Session.Continuity.{format_memory_scope}

module _ (list_memories : ScopeKind → Option String → ℕ → List MemorySummary) where
  recent_lines : List SessionMessage → List String
  recent_lines [] = []
  recent_lines (m ∷ ms) = "Recent message tail:" ∷ map (message_preview_for_summary 84) (m ∷ ms)

  memory_line : MemorySummary → String
  memory_line m = "- [" <> m.memory_id <> "] " <> elim m.payload_summary [
    | none ↦ "memory"
    | some text ↦ or_else (truncate_text 92 text) "memory"
  ]

  memory_lines : List MemorySummary → List String
  memory_lines [] = []
  memory_lines (m ∷ ms) = "Relevant continuity memories:" ∷ map memory_line (m ∷ ms)

  earlier_lines : ℕ → Compaction → List String
  earlier_lines max_chars c =
      let earlier = truncate_text (min (max_chars / 2) 480) c.summary in
      if is_empty earlier then [] else "Earlier compacted context:" ∷ earlier ∷ []

  or_none : Option String → String
  or_none none = "none"
  or_none (some t) = or_else t "none"

  carried :
      ℕ
      → Session
      → (excluded : List String) → (recent_limit memory_limit max_chars : ℕ) → Compaction
      → CarriedSummary
  unfolding earlier_lines recent_lines memory_lines memory_line or_none format_memory_scope
  carried now session excluded recent_limit memory_limit max_chars c =
      let recent =
        last_of recent_limit (keep_if (λ m. not (elem m.message_id excluded)) session.messages) in
      let memories = select_continuity_memories list_memories session memory_limit in
      let lines =
        "Carry-forward summary for this session."
        ∷ ("Session status: "
            <> session_status_name session.status
            <> ". Current workflow: "
            <> or_none session.current_workflow_id
            <> ". Memory scope: "
            <> format_memory_scope session.memory_scope
            <> ".")
        ∷ (earlier_lines max_chars c ++ (recent_lines recent ++ memory_lines memories)) in
      record {
        based_on_compaction_id = some c.compaction_id;
        updated_at = now;
        summary = bounded_lines_text lines max_chars;
        recent_message_limit = recent_limit;
        source_memory_limit = memory_limit;
        max_summary_chars = max_chars;
        session_status = session.status;
        current_workflow_id = session.current_workflow_id;
        memory_scope = session.memory_scope;
        recent_message_ids = message_ids recent;
        source_memory_ids = memory_ids memories;
        source_workflow_ids = unique_strings (
            session.current_workflow_id
            ∷ (map some c.source_workflow_ids
                ++ (map (λ m. m.workflow_id) recent ++ map (λ m. m.workflow_id) memories)));
      }

  -- `build_session_continuity_summary`, with its limits
  unfoldable pub build_session_continuity_summary :
      ℕ
      → Session
      → (excluded : List String) → (recent_limit memory_limit max_chars : ℕ) → Option CarriedSummary
  unfolding carried
  build_session_continuity_summary now session excluded recent_limit memory_limit max_chars =
      elim (continuity_metadata session).active_compaction [
        | none ↦ none
        | some c ↦ some (
            carried now session excluded (max recent_limit 1) (max memory_limit 1)
              (max max_chars 240) c)
      ]

  unfoldable pub refreshed : ContinuityView → Option CarriedSummary → Continuity
  refreshed view none = record {
    compactions = view.compactions;
    active_compaction_id = view.active_compaction_id;
    active_summary = none;
    updated_at = view.updated_at;
  }
  refreshed view (some summary) = record {
    compactions = view.compactions;
    active_compaction_id = view.active_compaction_id;
    active_summary = some summary;
    updated_at = some summary.updated_at;
  }

  -- With the default limits, as every caller has them.
  unfoldable pub refresh_session_continuity_summary : ℕ → Session → Session
  unfolding refreshed
  refresh_session_continuity_summary now session = record session {
    continuity = some (
        refreshed (continuity_metadata session)
          (build_session_continuity_summary now session [] 4 4 900));
  }
