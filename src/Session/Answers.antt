-- ===== src/Session/Answers.antt =====
-- How a message to a session ends whose workflow returns (runtime/session.py,
-- `append_session_message`).
use clarityos.Prelude.{
  ℕ, String, ◌≡◌, ◌≢◌, refl, ◌∙◌, ap, sym, subst, true, false, Option, List, [], ◌∷◌, ◌++◌, arith,
  string_eq, elem, ◌⊎◌,
}
use clarityos.Python.Exec.{Result, ok, err, continue, pure, and_then-eq-ok}
use clarityos.Python.Directory.{write}
use clarityos.Session.Appends.{
  Prepares, after_write, after_write-keeps, outcome, outcome_eq, prepare-Prepares, write_session_eq,
}
use clarityos.Session.Checks.{normalize_optional_text, normalize_ownership}
use clarityos.Session.Continuity.{MemorySummary}
use clarityos.Session.Drafts.{
  AppendRequest, Draft, PromptEntry, StartRequest, WorkflowResult, appended, follow_memory_scope,
  prepare, session_target_status,
}
use clarityos.Session.Messages.{
  answer, append_answered, ask, completed_message, linked, reply_message, run_of, status_of,
}
use clarityos.Session.Normal.{load_session-owned, map_result-eq-ok}
use clarityos.Session.Record.{
  session_status_eq, ScopeKind, Session, SessionStatus, active, archived, errored, opened,
  recovered, session_transitions, waiting,
}
use clarityos.Session.Store.{
  Sessions, load_session, no_transition, session_snapshot, transition_session, write_session,
}
use clarityos.Session.Summary.{refresh_session_continuity_summary}

then_returns :
    {A : Type 0} (r : Result Session × Sessions) (f : Session → A) {final : Session} {d : Sessions}
    → r ≡ (ok final, d)
    → continue {B = A} r.0 (λ stored. pure (f stored)) r.1 ≡ (ok (f final), d)
then_returns r f wrote = ap (λ x. continue x.0 (λ stored. pure (f stored)) x.1) wrote

-- Where the workflow may take a session.
may_reach :
    (st : SessionStatus) (ws : String)
    → st ≢ archived
    → (st ≢ errored) ⊎ (session_target_status st ws ≢ errored)
    → elem (session_target_status st ws) (session_transitions st) ≡ true
unfolding session_target_status session_transitions
may_reach opened ws h k = ground arith
may_reach active ws h k = ground arith
may_reach waiting ws h k = ground arith
may_reach recovered ws h k = ground arith
may_reach errored ws h k = ground arith
may_reach archived ws h k = absurd (h refl)

module _ (list_memories : ScopeKind → Option String → ℕ → List MemorySummary)
    (ground_prompt : Option String → String → String → List PromptEntry) where
  linked-keeps :
      (result : WorkflowResult) (s : Session) {t : Session}
      → linked list_memories ground_prompt result s ≡ ok t
      → (t.session_id ≡ s.session_id)
        × (t.status ≡ s.status)
        × (t.ownership ≡ s.ownership)
        × (t.messages ≡ s.messages)
  unfolding linked
  linked-keeps result s h =
      let (workflow, _, h₁) =
        and_then-eq-ok (normalize_optional_text result.workflow_id "current_workflow_id") _ h in
      let (run, _, h₂) =
        and_then-eq-ok
          (normalize_optional_text (run_of list_memories ground_prompt result) "last_run_id") _
          h₁ in
      let (scope, _, same) =
        map_result-eq-ok _
          (follow_memory_scope s.memory_scope result.workflow_id
            (run_of list_memories ground_prompt result))
          h₂ in
      (
        ap (λ q. q.session_id) (sym same),
        ap (λ q. q.status) (sym same),
        ap (λ q. q.ownership) (sym same),
        ap (λ q. q.messages) (sym same),
      )

  module _ (start : StartRequest → Result WorkflowResult) (now : ℕ)
      (message_id reply_id id : String) (r : AppendRequest) (s : Session) (p : Draft) (d : Sessions)
      (loads : load_session id d ≡ ok s)
      (prepared : prepare list_memories ground_prompt now message_id r s ≡ ok p)
      (result : WorkflowResult) (joined : Session)
      (returns : ask list_memories ground_prompt start r p ≡ ok result)
      (links : linked list_memories ground_prompt result
          (appended p.base (completed_message list_memories ground_prompt result p.asked))
        ≡ ok joined) where
    owned : normalize_ownership s.ownership ≡ ok s.ownership
    owned = load_session-owned id d s loads

    abbrev pub target : SessionStatus
    target = session_target_status s.status (status_of list_memories ground_prompt result)

    kept : Prepares list_memories ground_prompt now message_id r s p
    kept = prepare-Prepares list_memories ground_prompt now message_id r s prepared

    joins :
        (joined.session_id ≡ s.session_id)
        × (joined.status ≡ s.status)
        × (joined.ownership ≡ s.ownership)
        × (joined.messages
            ≡ s.messages ++ completed_message list_memories ground_prompt result p.asked ∷ [])
    unfolding appended
    joins =
        let (same_id, same_status, same_owner, same_messages) = linked-keeps result _ links in
        (
          same_id ∙ kept.same_id,
          same_status ∙ kept.same_status,
          same_owner ∙ kept.same_owner,
          same_messages
              ∙ ap (λ ms. ms ++ completed_message list_memories ground_prompt result p.asked ∷ [])
                  kept.same_messages,
        )

    -- The session with the message, the links and the reply.
    replied : Session
    replied = refresh_session_continuity_summary list_memories now (
        appended (record joined { status = target })
          (reply_message list_memories ground_prompt now reply_id p.agent result))

    replied-keeps :
        (replied.session_id ≡ s.session_id)
        × (replied.status ≡ target)
        × (replied.ownership ≡ s.ownership)
        × (replied.messages
            ≡ (s.messages ++ completed_message list_memories ground_prompt result p.asked ∷ [])
              ++ reply_message list_memories ground_prompt now reply_id p.agent result ∷ [])
    unfolding replied appended refresh_session_continuity_summary
    replied-keeps =
        let (same_id, same_status, same_owner, same_messages) = joins in
        (
          same_id,
          refl,
          same_owner,
          ap
              (λ ms.
                ms ++ reply_message list_memories ground_prompt now reply_id p.agent result ∷ [])
              same_messages,
        )

    replied-owned : normalize_ownership replied.ownership ≡ ok replied.ownership
    replied-owned = subst (λ o. normalize_ownership o ≡ ok o) (sym replied-keeps.2) owned

    moves :
        (s.status ≢ errored) ⊎ (target ≢ errored)
        → transition_session joined
            (session_target_status joined.status (status_of list_memories ground_prompt result))
          ≡ ok (record joined { status = target })
    unfolding transition_session
    moves fine = rw joins.1 (rw (may_reach s.status _ kept.accepts fine) refl)

    stuck :
        s.status ≡ errored
        → target ≡ errored
        → transition_session joined
            (session_target_status joined.status (status_of list_memories ground_prompt result))
          ≡ err (no_transition joined errored)
    unfolding transition_session session_transitions
    stuck broken still =
        let ws = status_of list_memories ground_prompt result in
        let no_way : elem errored (session_transitions joined.status) ≡ false =
          ap (λ st. elem errored (session_transitions st)) (joins.1 ∙ broken) in
        ap (transition_session joined) (ap (λ st. session_target_status st ws) joins.1 ∙ still)
        ∙ rw no_way refl

    -- A message to a loaded session that passes the checks, whose workflow returns with ids that can be
    -- stored. Where the session was not errored, or the workflow's status does not ask for errored,
    -- the call returns what the workflow returned, and stores in the place of the session one in the
    -- status that the workflow's status asks for, with the message, now completed, and the reply
    -- behind its messages; no other file changes. Where both hold, the call raises that there is no
    -- transition from errored to errored, and stores nothing.
    pub append_session_message-answers :
        ((s.status ≢ errored) ⊎ (target ≢ errored)
          → (final : Session) × (outcome list_memories ground_prompt now message_id r start reply_id
                id s p d loads prepared
              ≡ (ok (session_snapshot final, result), write s.session_id final d))
            × (final.session_id ≡ s.session_id)
            × (final.status ≡ target)
            × (final.messages
                ≡ (s.messages ++ completed_message list_memories ground_prompt result p.asked ∷ [])
                  ++ reply_message list_memories ground_prompt now reply_id p.agent result ∷ []))
        × (s.status ≡ errored
            → target ≡ errored
            → outcome list_memories ground_prompt now message_id r start reply_id id s p d loads
                prepared
              ≡ (err (no_transition joined errored), d))
    unfolding answer append_answered replied
    append_session_message-answers = (
      λ fine.
          let final = after_write now replied d replied-owned in
          let wrote = write_session_eq now replied d replied-owned in
          let (same_id, same_status, same_messages, _, _, _) =
            after_write-keeps now replied d replied-owned in
          let (key, status, owner, messages) = replied-keeps in
          (
            final,
            outcome_eq list_memories ground_prompt now message_id r start reply_id id s p d loads
                  prepared
                ∙ rw returns (
                    rw links (
                      rw (moves fine) (
                        then_returns (write_session now replied d)
                          (λ stored. (session_snapshot stored, result)) wrote
                        ∙ ap (λ i. (ok (session_snapshot final, result), write i final d)) key))),
            same_id ∙ key,
            same_status ∙ status,
            same_messages ∙ messages,
          ),
      λ broken still.
          outcome_eq list_memories ground_prompt now message_id r start reply_id id s p d loads
            prepared
          ∙ rw returns (rw links (rw (stuck broken still) refl)),
    )
