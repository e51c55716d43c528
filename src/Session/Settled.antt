-- ===== src/Session/Settled.antt =====
-- What is advised for a session that was just compacted (runtime/session.py,
-- `session_continuity_budget`).
use clarityos.Prelude.{
  ℕ, ◌≤◌, ◌<◌, String, ◌≡◌, refl, ap, sym, true, false, not, Option, some, List, [], ◌∷◌, ◌++◌,
  length, keep_if, arith, ==_refl, elem, string_eq, ◌⊎◌,
}
use clarityos.Python.Exec.{ok}
use clarityos.Python.Directory.{write}
use clarityos.Prelude.Int.{ℤ}
use clarityos.Session.Budget.{
  BudgetCounts, BudgetLimits, Recommendation, budget_counts, continuity_budget_limits,
  monitor_budget, recommend, session_continuity_budget, within_budget,
}
use clarityos.Session.Checks.{is_missing}
use clarityos.Session.Compacting.{
  CompactLimits, compact_limits, compact_session_continuity, same_compaction,
}
use clarityos.Session.Compactions.{compact_session_continuity_lem, made}
use clarityos.Session.Continuity.{ContinuityView, MemorySummary, continuity_metadata, message_ids}
use clarityos.Session.Record.{session_status_eq, Compaction, ScopeKind, Session, SessionMessage}
use clarityos.Session.Store.{Sessions, load_session}

abbrev left_out : List String → List SessionMessage → List SessionMessage
left_out ids xs = keep_if (λ m. not (elem m.message_id ids)) xs

length-left_out :
    (ids : List String) (xs : List SessionMessage)
    → length (left_out ids xs) ≤ length (message_ids xs)
length-left_out ids [] = omega arith
length-left_out ids (x ∷ xs) = ground (arith, length-left_out ids xs)

-- Of messages whose ids are `gone` and then `rest`, no more than there are in `rest` are not gone.
left_out-le :
    (ids gone rest : List String) (xs : List SessionMessage)
    → ((i : String) → elem i gone ≡ true → elem i ids ≡ true)
    → gone ++ rest ≡ message_ids xs
    → length (left_out ids xs) ≤ length rest
left_out-le ids [] rest xs all e = rw (ap (λ l. length l) e) (length-left_out ids xs)
left_out-le ids (g ∷ gone) rest [] all e = cc e
left_out-le ids (g ∷ gone) rest (x ∷ xs) all e =
    let same : g ≡ x.message_id = cc e in
    let later : gone ++ rest ≡ message_ids xs = cc e in
    let here : elem x.message_id ids ≡ true = all x.message_id (rw (sym same, ==_refl g) refl) in
    rw here (left_out-le ids gone rest xs (λ i m. all i (ground (arith, m))) later)

Advised : Recommendation → Type 0
Advised r = (r ≡ within_budget) ⊎ (r ≡ monitor_budget)

recommend-settles :
    (l : BudgetLimits) (n : BudgetCounts)
    → n.uncompacted_messages ≤ l.max_uncompacted_messages
    → Advised (recommend l n true true)
unfolding recommend Advised
recommend-settles l n within = ground (arith, within)

counted :
    (view : ContinuityView) (messages : List SessionMessage) {c : Compaction}
    → view.active_compaction ≡ some c
    → (budget_counts view messages).uncompacted_messages
      ≡ length (left_out c.compacted_message_ids messages)
unfolding budget_counts
counted view messages active = rw active refl

settles :
    (view : ContinuityView) (messages : List SessionMessage) {c : Compaction}
    → view.active_compaction ≡ some c
    → is_missing view.active_summary ≡ false
    → length (left_out c.compacted_message_ids messages) ≤ 8
    → Advised (
        recommend continuity_budget_limits
          (budget_counts view messages)
          (not (is_missing view.active_compaction))
          (not (is_missing view.active_summary)))
settles view messages active summary few =
    let there : is_missing view.active_compaction ≡ false = rw active refl in
    rw (there, summary)
      (recommend-settles continuity_budget_limits (budget_counts view messages)
        (omega (arith, few, counted view messages active)))

module _ (isoformat : ℕ → String)
    (list_memories : ScopeKind → Option String → ℕ → List MemorySummary) (now : ℕ)
    (l : CompactLimits) (id new_id : String) (keep memory chars : ℤ) (s : Session) (d : Sessions)
    (loads : load_session id d ≡ ok s) (limits : compact_limits keep memory chars ≡ ok l)
    (enough : l.keep_recent_messages < length s.messages) where
  -- A loaded session with more messages than are kept, at most eight, where the active compaction does
  -- not cover the same messages and memories: after its compaction the stored session is not advised
  -- to be compacted again, nor to have its summary refreshed.
  pub compacted-settles :
      l.keep_recent_messages ≤ 8
      → same_compaction
          (continuity_metadata s).active_compaction
          (made isoformat list_memories now l id new_id keep memory chars s d loads limits enough)
        ≡ false
      → (after : Session) × ((compact_session_continuity isoformat list_memories now id new_id keep
            memory chars d).1
          ≡ write s.session_id after d)
        × (((session_continuity_budget after).recommendation ≡ within_budget)
            ⊎ ((session_continuity_budget after).recommendation ≡ monitor_budget))
  unfolding session_continuity_budget Advised
  compacted-settles few differs =
      let c =
        made isoformat list_memories now l id new_id keep memory chars s d loads limits enough in
      let (after, call, messages, _, active, summary, ids, kept) =
        compact_session_continuity_lem isoformat list_memories now l id new_id keep memory chars s d
          loads limits enough differs in
      (
        after,
        ap (λ r. r.1) call,
        settles (continuity_metadata after) after.messages active summary (
            rw messages (
              omega (
                arith,
                few,
                kept,
                left_out-le c.compacted_message_ids c.compacted_message_ids c.retained_message_ids
                    s.messages (λ i m. m) ids,
              ))),
      )
