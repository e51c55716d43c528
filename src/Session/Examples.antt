-- ===== src/Session/Examples.antt =====
-- The theorems of the sessions at small sessions.
use clarityos.Prelude.{
  ◌+◌, ◌*◌, In, ◌≤◌, String, ◌≡◌, ◌≢◌, ◌⊎◌, ◌↔◌, refl, true, false, Option, none, some, [], ◌∷◌,
  ◌++◌, length, take, arith, string_eq,
}
use clarityos.Prelude.Int.{pos}
use clarityos.Python.Errors.{value_error}
use clarityos.Python.Exec.{ok, err}
use clarityos.Python.Directory.{write}
use clarityos.Python.Text.{strip, is_blank, text_length}
use clarityos.Session.Access.{default_header, verify_session_access}
use clarityos.Session.Answers.{append_session_message-answers}
use clarityos.Session.Appends.{append_session_message-raises}
use clarityos.Session.Bounds.{bounded_lines_text_lem, join_lines}
use clarityos.Session.Budget.{monitor_budget, session_continuity_budget, within_budget}
use clarityos.Session.Checks.{is_missing}
use clarityos.Session.Compacting.{compact_session_continuity}
use clarityos.Session.Compactions.{compact_session_continuity_lem}
use clarityos.Session.Continuity.{continuity_metadata, session_continuity_snapshot}
use clarityos.Session.Drafts.{appended, session_target_status}
use clarityos.Session.Grants.{IsGranted, verify_session_access_lem}
use clarityos.Session.Messages.{completed_message, error_message, reply_message}
use clarityos.Session.Preview.{bounded_lines_text}
use clarityos.Session.Pruning.{Prunes, prune_sessions_lem}
use clarityos.Session.Cleanup.{PrunedSessions}
use clarityos.Session.Returning.{AreDistinctStems, AllLoad}
use clarityos.Queue.Job.{seconds, before_epoch}
use clarityos.Session.Record.{session_status_eq, Session, active, archived, errored, opened}
use clarityos.Session.Settled.{compacted-settles}
use clarityos.Session.Store.{load_session, no_transition, session_snapshot}
use clarityos.Session.Tokens.{create_session-grants}
use clarityos.Session.Upkeep.{sorted_stems, create_session}
use clarityos.Session.Samples.{
  hash, sample, sample_sessions, sample-loads, sample_request, fresh, fresh-checked, no_memories,
  no_grounding, question, draft, draft-prepared, broken, broken-raises, failed_append, reply,
  working, working-returns, joined_session, reply-links, answered_append, old_sessions,
  archived-wanted, one, one_left, pruned, chatty, chatty_sessions, chatty-loads, limits,
  limits-parsed, isoformat, made_of_chatty,
}

bounded_lines_text_lem_example :
    (text_length (bounded_lines_text ("one" ∷ "two" ∷ []) 5) ≤ 9)
    × (text_length (join_lines ("one" ∷ "two" ∷ [])) ≤ 5
        → bounded_lines_text ("one" ∷ "two" ∷ []) 5 ≡ join_lines ("one" ∷ "two" ∷ []))
bounded_lines_text_lem_example = bounded_lines_text_lem ("one" ∷ "two" ∷ []) 5 (omega arith)

verify_session_access_lem_example :
    (verify_session_access hash sample (some "token") default_header ≡ ok tt)
    ↔ IsGranted hash sample default_header (some "token")
verify_session_access_lem_example =
    verify_session_access_lem hash sample default_header (some "token")

create_session-grants_example :
    (st : Session) × (create_session hash 9 "n" "token" sample_request sample_sessions
      ≡ (ok (session_snapshot st, "token"), write "n" st sample_sessions))
    × (st.status ≡ opened)
    × (verify_session_access hash st (some "token") default_header ≡ ok tt)
    × ((given : Option String)
        → (verify_session_access hash st given default_header ≡ ok tt)
          ↔ ((t : String) × (given ≡ some t) × (is_blank t ≡ false) × (hash (strip t) ≡ "digest")))
unfolding strip
create_session-grants_example =
    create_session-grants hash 9 "n" "token" default_header sample_request
      (record { stripped = refl; not_blank = refl }) (record { stripped = refl; not_blank = refl })
      fresh fresh-checked sample_sessions

append_session_message-raises_example :
    (sample.status ≢ errored
      → (final : Session) × (failed_append
          ≡ (err (value_error "broken"), write "s" final sample_sessions))
        × (final.session_id ≡ "s")
        × (final.status ≡ errored)
        × (final.messages
            ≡ (sample.messages ++ draft.asked ∷ [])
              ++ error_message no_memories no_grounding 9 "r" draft.agent (value_error "broken")
                ∷ []))
    × (sample.status ≡ errored
        → failed_append
          ≡ (err (no_transition (appended draft.base draft.asked) errored), sample_sessions))
append_session_message-raises_example =
    append_session_message-raises no_memories no_grounding 9 "q" question broken "r" "s" sample
      draft sample_sessions sample-loads draft-prepared (value_error "broken") broken-raises

append_session_message-answers_example :
    ((sample.status ≢ errored) ⊎ (session_target_status active "success" ≢ errored)
      → (final : Session) × (answered_append
          ≡ (ok (session_snapshot final, reply), write "s" final sample_sessions))
        × (final.session_id ≡ "s")
        × (final.status ≡ session_target_status active "success")
        × (final.messages
            ≡ (sample.messages ++ completed_message no_memories no_grounding reply draft.asked ∷ [])
              ++ reply_message no_memories no_grounding 9 "r" draft.agent reply ∷ []))
    × (sample.status ≡ errored
        → session_target_status active "success" ≡ errored
        → answered_append ≡ (err (no_transition joined_session errored), sample_sessions))
append_session_message-answers_example =
    append_session_message-answers no_memories no_grounding working 9 "q" "r" "s" question sample
      draft sample_sessions sample-loads draft-prepared reply joined_session working-returns
      reply-links

prune_sessions_lem_example :
    Prunes 9999999999 (archived ∷ []) 1 one (sorted_stems old_sessions) old_sessions pruned
    × ((k : String) (s : Session)
        → load_session k pruned.1 ≡ ok s
        → In k (sorted_stems old_sessions))
    × (AreDistinctStems (sorted_stems old_sessions)
        → AllLoad (sorted_stems old_sessions) old_sessions
        → seconds (1 * 3600) ≤ 9999999999 + before_epoch
        → (p : PrunedSessions) × (pruned.0 ≡ ok p))
prune_sessions_lem_example =
    prune_sessions_lem 9999999999 none 0 (some (pos 1)) old_sessions (archived ∷ []) (some 1)
      archived-wanted one_left

compact_session_continuity_lem_example :
    (after : Session) × (compact_session_continuity isoformat no_memories 20 "s" "c"
        (pos 1)
        (pos 4)
        (pos 900)
        chatty_sessions
      ≡ (
        ok (record {
          compacted = true;
          reason = "compacted";
          session = session_snapshot after;
          continuity = session_continuity_snapshot after;
          compaction = some made_of_chatty;
        }),
        write "s" after chatty_sessions,
      ))
    × (after.messages ≡ chatty.messages)
    × ((continuity_metadata after).compactions
        ≡ made_of_chatty ∷ take 4 (continuity_metadata chatty).compactions)
    × ((continuity_metadata after).active_compaction ≡ some made_of_chatty)
    × (is_missing (continuity_metadata after).active_summary ≡ false)
    × (made_of_chatty.compacted_message_ids ++ made_of_chatty.retained_message_ids ≡ "a" ∷ "b" ∷ [])
    × (length made_of_chatty.retained_message_ids ≡ 1)
unfolding continuity_metadata
compact_session_continuity_lem_example =
    compact_session_continuity_lem isoformat no_memories 20 limits "s" "c" (pos 1) (pos 4) (pos 900)
      chatty chatty_sessions chatty-loads limits-parsed (omega arith) refl

compacted-settles_example :
    (after : Session) × ((compact_session_continuity isoformat no_memories 20 "s" "c"
        (pos 1)
        (pos 4)
        (pos 900)
        chatty_sessions).1
      ≡ write "s" after chatty_sessions)
    × (((session_continuity_budget after).recommendation ≡ within_budget)
        ⊎ ((session_continuity_budget after).recommendation ≡ monitor_budget))
unfolding continuity_metadata
compacted-settles_example =
    compacted-settles isoformat no_memories 20 limits "s" "c" (pos 1) (pos 4) (pos 900) chatty
      chatty_sessions chatty-loads limits-parsed (omega arith) (omega arith) refl
