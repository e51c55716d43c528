-- ===== src/Session/Appends.antt =====
-- How appending a message to a session ends (runtime/session.py, `append_session_message`).
use clarityos.Prelude.{
  ℕ, String, ◌≡◌, ◌≢◌, refl, ◌∙◌, ap, sym, subst, true, false, Bool-cases, Option, some, List, [],
  ◌∷◌, ◌++◌, ◌==◌, ==_refl, string_eq, elem, inl, inr,
}
use clarityos.Python.Errors.{Exception}
use clarityos.Python.Exec.{Result, ok, err, continue, raise, and_then-eq-ok}
use clarityos.Python.Directory.{read, write, read-write}
use clarityos.Session.Checks.{
  normalize_memory_scope, normalize_metadata, normalize_ownership, normalize_text, raw_scope,
}
use clarityos.Session.Continuity.{MemorySummary}
use clarityos.Session.Drafts.{
  AppendRequest, Draft, PromptEntry, StartRequest, WorkflowResult, agent_or, appended, draft_of,
  prepare,
}
use clarityos.Session.Messages.{answer, append_failed, append_session_message, ask, error_message}
use clarityos.Session.Normal.{load_session-owned, map_result-eq-ok}
use clarityos.Session.Record.{
  session_status_eq, ScopeKind, Session, SessionStatus, active, archived, errored, opened,
  recovered, session_transitions, waiting,
}
use clarityos.Session.Store.{
  Sessions, load_session, no_transition, transition_session, write_owned, write_session, written,
}

-- A loaded session is written without an exception, and nothing else of it changes in the directory.
pub record Stores (s : Session) (d d' : Sessions) : Type 0 where
  pub stored : read s.session_id d' ≡ some s
  pub others : (k : String) → (s.session_id == k) ≡ false → read k d' ≡ read k d

module _ (now : ℕ) (s : Session) (d : Sessions)
    (owned : normalize_ownership s.ownership ≡ ok s.ownership) where
  unfoldable pub after_write : Session
  after_write = written now (read s.session_id d) s.ownership s

  pub write_session_eq : write_session now s d ≡ (ok after_write, write s.session_id after_write d)
  unfolding write_session write_owned after_write
  write_session_eq = rw owned refl

  pub after_write-keeps :
      (after_write.session_id ≡ s.session_id)
      × (after_write.status ≡ s.status)
      × (after_write.messages ≡ s.messages)
      × (after_write.memory_scope ≡ s.memory_scope)
      × (after_write.current_workflow_id ≡ s.current_workflow_id)
      × (after_write.last_run_id ≡ s.last_run_id)
  unfolding after_write written
  after_write-keeps = (refl, refl, refl, refl, refl, refl)

  write_session-Stores : Stores after_write d (write s.session_id after_write d)
  write_session-Stores =
      let same = after_write-keeps.0 in
      record {
        stored = rw (same, read-write, ==_refl s.session_id) refl;
        others = λ k other. rw (read-write, ap (λ i. i == k) (sym same) ∙ other) refl;
      }

raise_after :
    {A : Type 0} (exc : Exception) (r : Result Session × Sessions) {stored : Session}
    → r.0 ≡ ok stored
    → continue {B = A} r.0 (λ _. raise exc) r.1 ≡ (err exc, r.1)
raise_after exc r wrote = rw wrote refl

may_fail :
    (st : SessionStatus)
    → st ≢ archived
    → st ≢ errored
    → elem errored (session_transitions st) ≡ true
unfolding session_transitions
may_fail opened h k = refl
may_fail active h k = refl
may_fail waiting h k = refl
may_fail recovered h k = refl
may_fail errored h k = absurd (k refl)
may_fail archived h k = absurd (h refl)

may_not_fail : (st : SessionStatus) → st ≡ errored → elem errored (session_transitions st) ≡ false
unfolding session_transitions
may_not_fail st e = rw e refl

module _ (list_memories : ScopeKind → Option String → ℕ → List MemorySummary)
    (ground_prompt : Option String → String → String → List PromptEntry) (now : ℕ)
    (message_id : String) (r : AppendRequest) where
  -- What the preparation keeps of the session.
  pub record Prepares (s : Session) (p : Draft) : Type 0 where
    pub accepts : s.status ≢ archived
    pub same_status : p.base.status ≡ s.status
    pub same_id : p.base.session_id ≡ s.session_id
    pub same_owner : p.base.ownership ≡ s.ownership
    pub same_messages : p.base.messages ≡ s.messages

  pub prepare-Prepares :
      (s : Session) {p : Draft}
      → prepare list_memories ground_prompt now message_id r s ≡ ok p
      → Prepares s p
  unfolding prepare
  prepare-Prepares s h = elim (Bool-cases (s.status == archived)) [
    | inl over ↦ cc (rw over at h)
    | inr more ↦
        let (content, _, h₁) =
          and_then-eq-ok (normalize_text r.content "content") _ (rw more at h) in
        let (agent, _, h₂) =
          and_then-eq-ok (normalize_text (agent_or r.agent s.agent) "agent") _ h₁ in
        let (metadata, _, h₃) = and_then-eq-ok (normalize_metadata r.metadata) _ h₂ in
        let (scope, _, same) =
          map_result-eq-ok _ (normalize_memory_scope (some (raw_scope s.memory_scope)) agent) h₃ in
        subst (Prepares s) same (record {
          accepts = λ e. cc (ap (λ t. t == archived) (sym e), more);
          same_status = unfold draft_of in refl;
          same_id = unfold draft_of in refl;
          same_owner = unfold draft_of in refl;
          same_messages = unfold draft_of in refl;
        })
  ]

  module _ (start : StartRequest → Result WorkflowResult) (reply_id id : String) (s : Session)
      (p : Draft) (d : Sessions) (loads : load_session id d ≡ ok s)
      (prepared : prepare list_memories ground_prompt now message_id r s ≡ ok p) where
    owned : normalize_ownership s.ownership ≡ ok s.ownership
    owned = load_session-owned id d s loads

    abbrev pub outcome : Result (Session × WorkflowResult) × Sessions
    outcome =
        append_session_message list_memories ground_prompt start now id message_id reply_id r d

    pub outcome_eq :
        outcome
        ≡ answer list_memories ground_prompt start now reply_id p
            (ask list_memories ground_prompt start r p)
            d
    unfolding append_session_message
    outcome_eq = rw loads (rw prepared refl)

    -- The session with the question and the error in the place of an answer.
    failed : Exception → Session
    failed exc =
        appended (record (appended p.base p.asked) { status = errored })
          (error_message list_memories ground_prompt now reply_id p.agent exc)

    kept : Prepares s p
    kept = prepare-Prepares s prepared

    failed-owned :
        (exc : Exception) → normalize_ownership (failed exc).ownership ≡ ok (failed exc).ownership
    unfolding failed appended
    failed-owned exc = subst (λ o. normalize_ownership o ≡ ok o) (sym kept.same_owner) owned

    failed_id : (exc : Exception) → (failed exc).session_id ≡ s.session_id
    unfolding failed appended
    failed_id exc = kept.same_id

    fails :
        (exc : Exception)
        → ask list_memories ground_prompt start r p ≡ err exc
        → s.status ≢ errored
        → outcome ≡ (err exc, (write_session now (failed exc) d).1)
    unfolding answer append_failed transition_session
    fails exc raised fine =
        let may =
          ap (λ t. elem errored (session_transitions t)) kept.same_status
          ∙ may_fail s.status kept.accepts fine in
        let wrote = ap (λ x. x.0) (write_session_eq now (failed exc) d (failed-owned exc)) in
        outcome_eq
        ∙ rw raised (
            unfold appended failed in
            rw may (raise_after exc (write_session now (failed exc) d) wrote))

    loses :
        (exc : Exception)
        → ask list_memories ground_prompt start r p ≡ err exc
        → s.status ≡ errored
        → outcome ≡ (err (no_transition (appended p.base p.asked) errored), d)
    unfolding answer append_failed transition_session appended
    loses exc raised broken =
        let may_not =
          ap (λ t. elem errored (session_transitions t)) kept.same_status
          ∙ may_not_fail s.status broken in
        outcome_eq ∙ rw raised (rw may_not refl)

    -- A message to a loaded session that passes the checks, whose workflow raises. A session that is
    -- not errored is stored as errored, with the message and the error behind its messages, no other
    -- file changes, and the exception of the workflow is raised. To an errored session the same call
    -- raises that there is no transition from errored to errored, and stores nothing.
    pub append_session_message-raises :
        (exc : Exception)
        → ask list_memories ground_prompt start r p ≡ err exc
        → (s.status ≢ errored
            → (final : Session) × (outcome ≡ (err exc, write s.session_id final d))
              × (final.session_id ≡ s.session_id)
              × (final.status ≡ errored)
              × (final.messages
                  ≡ (s.messages ++ p.asked ∷ [])
                    ++ error_message list_memories ground_prompt now reply_id p.agent exc ∷ []))
          × (s.status ≡ errored
              → outcome ≡ (err (no_transition (appended p.base p.asked) errored), d))
    append_session_message-raises exc raised = (
      λ fine.
          let same_key = failed_id exc in
          let final = after_write now (failed exc) d (failed-owned exc) in
          let (same_id, same_status, same_messages, _, _, _) =
            after_write-keeps now (failed exc) d (failed-owned exc) in
          (
            final,
            fails exc raised fine
                ∙ ap (λ x. (err exc, x.1)) (write_session_eq now (failed exc) d (failed-owned exc))
                ∙ ap (λ i. (err exc, write i final d)) same_key,
            same_id ∙ same_key,
            same_status ∙ unfold failed appended in refl,
            same_messages
                ∙ unfold failed appended in
                  ap
                    (λ ms.
                      (ms ++ p.asked ∷ [])
                      ++ error_message list_memories ground_prompt now reply_id p.agent exc ∷ [])
                    kept.same_messages,
          ),
      loses exc raised,
    )
