-- ===== src/Session/Compacting.antt =====
-- Compacting the past messages of a session (runtime/session.py). Stored memories and the texts of times
-- are parameters.
use clarityos.Prelude.{
  ℕ, suc, String, Bool, true, false, ◌&&◌, Option, none, some, List, [], ◌∷◌, ◌++◌, map, leb,
  length, take, ◌<>◌, ◌==◌, string_eq, list_eq, if◌then◌else◌,
}
use clarityos.Prelude.Int.{ℤ, pos}
use clarityos.Python.Errors.{value_error}
use clarityos.Python.Exec.{Result, ok, err, and_then, map_result, Exec, lift, pure, ◌>>=◌}
use clarityos.Session.Checks.{unique_strings}
use clarityos.Session.Continuity.{
  ContinuitySnapshot, MemorySummary, all_but_last, continuity_metadata, continuity_scope_memories,
  last_of, message_ids, session_continuity_snapshot,
}
use clarityos.Session.Preview.{last_created, role_counts, summarize_message_window}
use clarityos.Session.Record.{session_status_eq, Compaction, ScopeKind, Session, SessionMessage}
use clarityos.Session.Store.{Sessions, load_session, session_snapshot, write_session}
use clarityos.Session.Summary.{refresh_session_continuity_summary}

pub record CompactOutcome : Type 0 where
  pub compacted : Bool
  pub reason : String
  pub session : Session
  pub continuity : ContinuitySnapshot
  pub compaction : Option Compaction

-- The limits of a compaction, which are to be positive.
positive : (field_name : String) → ℤ → Result ℕ
positive field_name (pos (suc n)) = ok (suc n)
positive field_name _ =
    err (value_error ("Session `" <> field_name <> "` must be a positive integer"))

pub record CompactLimits : Type 0 where
  pub keep_recent_messages : ℕ
  pub memory_limit : ℕ
  pub max_summary_chars : ℕ

unfoldable pub compact_limits : (keep memory chars : ℤ) → Result CompactLimits
unfolding positive
compact_limits keep memory chars = and_then (positive "keep_recent_messages" keep) (λ k.
    and_then (positive "memory_limit" memory) (λ m.
      map_result (λ c. record { keep_recent_messages = k; memory_limit = m; max_summary_chars = c })
        (positive "max_summary_chars" chars)))

first_created : List SessionMessage → ℕ
first_created [] = 0
first_created (m ∷ ms) = m.created_at

-- Whether the active compaction covers the same messages and memories.
abbrev pub same_compaction : Option Compaction → Compaction → Bool
same_compaction none c = false
same_compaction (some old) c =
    old.compacted_message_ids == c.compacted_message_ids
    && old.retained_message_ids == c.retained_message_ids
    && old.source_memory_ids == c.source_memory_ids

module _ (isoformat : ℕ → String)
    (list_memories : ScopeKind → Option String → ℕ → List MemorySummary) where
  -- The compaction of all messages but those that are kept; there is at least one.
  unfoldable pub new_compaction : ℕ → String → CompactLimits → Session → Compaction
  unfolding first_created
  new_compaction now compaction_id l s =
      let old = all_but_last l.keep_recent_messages s.messages in
      let kept = last_of l.keep_recent_messages s.messages in
      let memories = continuity_scope_memories list_memories s l.memory_limit in
      record {
        compaction_id = compaction_id;
        created_at = now;
        summary = summarize_message_window isoformat old l.max_summary_chars;
        message_count = length old;
        message_roles = role_counts old;
        compacted_message_ids = message_ids old;
        retained_message_ids = message_ids kept;
        source_memory_ids =
            unique_strings
              (map (λ m. some m.memory_id) memories.0 ++ map (λ m. some m.memory_id) memories.1);
        source_workflow_ids = unique_strings (
            map (λ m. m.workflow_id) old
            ++ (map (λ m. m.workflow_id) memories.0 ++ map (λ m. m.workflow_id) memories.1));
        memory_scope = s.memory_scope;
        from_timestamp = first_created old;
        to_timestamp = last_created (first_created old) old;
      }

  -- `MAX_STORED_COMPACTIONS` are kept, the newest first.
  unfoldable pub with_compaction : ℕ → Compaction → Session → Session
  with_compaction now c s = record s {
    continuity = some (record {
      compactions = take 5 (c ∷ (continuity_metadata s).compactions);
      active_compaction_id = some c.compaction_id;
      active_summary = none;
      updated_at = some now;
    });
  }

  abbrev pub refreshed_with : ℕ → Compaction → Session → Session
  refreshed_with now c s =
      refresh_session_continuity_summary list_memories now (with_compaction now c s)

  unfoldable pub store_compaction : ℕ → Compaction → Session → Exec Sessions CompactOutcome
  store_compaction now c s = do
    stored ← write_session now (refreshed_with now c s)
    pure (record {
      compacted = true;
      reason = "compacted";
      session = session_snapshot stored;
      continuity = session_continuity_snapshot stored;
      compaction = some c;
    })

  unfoldable pub compact_loaded :
      ℕ → String → CompactLimits → Session → Exec Sessions CompactOutcome
  unfolding new_compaction with_compaction store_compaction
  compact_loaded now compaction_id l s =
      let known = (continuity_metadata s).active_compaction in
      let c = new_compaction now compaction_id l s in
      if leb (length s.messages) l.keep_recent_messages
      then pure (record {
        compacted = false;
        reason = "not_enough_messages";
        session = session_snapshot s;
        continuity = session_continuity_snapshot s;
        compaction = known;
      })
      else if same_compaction known c
      then pure (record {
        compacted = false;
        reason = "already_compacted";
        session = session_snapshot s;
        continuity = session_continuity_snapshot s;
        compaction = known;
      })
      else store_compaction now c s

  -- `compaction_id` is the id that `uuid4` draws.
  unfoldable pub compact_session_continuity :
      ℕ
      → (session_id compaction_id : String) → (keep memory chars : ℤ) → Exec Sessions CompactOutcome
  unfolding compact_limits compact_loaded
  compact_session_continuity now session_id compaction_id keep memory chars = do
    l ← lift (compact_limits keep memory chars)
    s ← (λ d. (load_session session_id d, d))
    compact_loaded now compaction_id l s
