-- ===== src/Session/Compactions.antt =====
-- What a compaction of a session leaves (runtime/session.py, `compact_session_continuity`).
use clarityos.Prelude.{
  ℕ, suc, ◌-◌, ◌≤◌, ◌<◌, String, ◌≡◌, refl, ◌∙◌, ap, sym, subst, true, false, Bool-cases, Option,
  none, some, List, [], ◌∷◌, ◌++◌, length, take, leb, leb→le, arith, ==_refl, string_eq, inl, inr,
}
use clarityos.Python.Exec.{ok, continue, pure}
use clarityos.Python.Directory.{write}
use clarityos.Prelude.Int.{ℤ}
use clarityos.Session.Appends.{after_write, after_write-keeps, write_session_eq}
use clarityos.Session.Checks.{is_missing, normalize_ownership}
use clarityos.Session.Compacting.{
  CompactLimits, compact_limits, compact_loaded, compact_session_continuity, new_compaction,
  refreshed_with, same_compaction, store_compaction, with_compaction,
}
use clarityos.Session.Continuity.{
  ContinuityView, MemorySummary, all_but_last, continuity_metadata, find_compaction, last_of,
  message_ids, session_continuity_snapshot, view_of,
}
use clarityos.Session.Normal.{load_session-owned}
use clarityos.Session.Record.{
  session_status_eq, CarriedSummary, Compaction, ScopeKind, Session, SessionMessage,
}
use clarityos.Session.Store.{Sessions, load_session, session_snapshot, written}
use clarityos.Session.Summary.{
  build_session_continuity_summary, refresh_session_continuity_summary, refreshed,
}

module _ {A : Type 0} where
  -- What is cut off and what is kept are the whole list, in its order.
  all_but_last-last_of : (n : ℕ) (xs : List A) → all_but_last n xs ++ last_of n xs ≡ xs
  unfolding all_but_last last_of
  all_but_last-last_of n [] = let e : 0 - n ≡ 0 = omega arith in rw e refl
  all_but_last-last_of n (x ∷ xs) = elim (Bool-cases (leb (suc (length xs)) n)) [
    | inl short ↦
        let e : suc (length xs) - n ≡ 0 = omega (arith, leb→le _ _ short) in rw short (rw e refl)
    | inr long ↦
        let e : suc (length xs) - n ≡ suc (length xs - n) = ground arith in
        rw long (rw e (ap (λ ys. x ∷ ys) (all_but_last-last_of n xs)))
  ]

  length-last_of : (n : ℕ) (xs : List A) → n ≤ length xs → length (last_of n xs) ≡ n
  unfolding last_of
  length-last_of n [] h = omega arith
  length-last_of n (x ∷ xs) h = ground (arith, length-last_of n xs)

map-append-ids :
    (xs ys : List SessionMessage) → message_ids (xs ++ ys) ≡ message_ids xs ++ message_ids ys
map-append-ids [] ys = refl
map-append-ids (x ∷ xs) ys = ap (λ zs. x.message_id ∷ zs) (map-append-ids xs ys)

length-ids : (xs : List SessionMessage) → length (message_ids xs) ≡ length xs
length-ids [] = refl
length-ids (x ∷ xs) = ap suc (length-ids xs)

not_few : {m n : ℕ} → m < n → leb n m ≡ false
not_few h = ground (arith, h)

-- A new summary leaves the compactions and the active one.
refreshed-active :
    (list_memories : ScopeKind → Option String → ℕ → List MemorySummary) (v : ContinuityView)
    {c : Compaction} (o : Option CarriedSummary)
    → find_compaction v.active_compaction_id v.compactions ≡ some c
    → ((view_of (some (refreshed list_memories v o))).compactions ≡ v.compactions)
      × ((view_of (some (refreshed list_memories v o))).active_compaction ≡ some c)
      × ((view_of (some (refreshed list_memories v o))).active_summary ≡ o)
unfolding view_of refreshed
refreshed-active lm v none found = rw found (refl, refl, refl)
refreshed-active lm v (some summary) found = rw found (refl, refl, refl)

-- A session with an active compaction has a summary.
summary-there :
    (list_memories : ScopeKind → Option String → ℕ → List MemorySummary) (now : ℕ) (t : Session)
    {c : Compaction}
    → (continuity_metadata t).active_compaction ≡ some c
    → is_missing (build_session_continuity_summary list_memories now t [] 4 4 900) ≡ false
unfolding build_session_continuity_summary
summary-there list_memories now t there = rw (there, is_missing) refl

module _ (isoformat : ℕ → String)
    (list_memories : ScopeKind → Option String → ℕ → List MemorySummary) (now : ℕ)
    (l : CompactLimits) (id new_id : String) (keep memory chars : ℤ) (s : Session) (d : Sessions)
    (loads : load_session id d ≡ ok s) (limits : compact_limits keep memory chars ≡ ok l)
    (enough : l.keep_recent_messages < length s.messages) where
  abbrev pub made : Compaction
  made = new_compaction isoformat list_memories now new_id l s

  abbrev pub changed : Session
  changed = refreshed_with isoformat list_memories now made s

  changed-keeps :
      (changed.session_id ≡ s.session_id)
      × (changed.messages ≡ s.messages)
      × (changed.ownership ≡ s.ownership)
  unfolding with_compaction refresh_session_continuity_summary
  changed-keeps = (refl, refl, refl)

  has_made :
      find_compaction (some made.compaction_id) (made ∷ take 4 (continuity_metadata s).compactions)
      ≡ some made
  unfolding find_compaction
  has_made = rw (==_refl (some made.compaction_id)) refl

  changed-continuity :
      ((continuity_metadata changed).compactions
        ≡ made ∷ take 4 (continuity_metadata s).compactions)
      × ((continuity_metadata changed).active_compaction ≡ some made)
      × ((continuity_metadata changed).active_summary
          ≡ build_session_continuity_summary list_memories now
              (with_compaction isoformat list_memories now made s)
              []
              4
              4
              900)
  unfolding with_compaction continuity_metadata refresh_session_continuity_summary
  changed-continuity = rw has_made (
      refreshed-active list_memories
        (record {
          compactions = made ∷ take 4 (continuity_metadata s).compactions;
          active_compaction_id = some made.compaction_id;
          active_compaction = some made;
          active_summary = none;
          updated_at = some now;
        })
        (build_session_continuity_summary list_memories now
          (with_compaction isoformat list_memories now made s) [] 4 4 900)
        has_made)

  has_summary :
      is_missing (
        build_session_continuity_summary list_memories now
          (with_compaction isoformat list_memories now made s)
          []
          4
          4
          900)
      ≡ false
  has_summary =
      summary-there list_memories now (with_compaction isoformat list_memories now made s)
        {c = made} (unfold with_compaction continuity_metadata in rw has_made refl)

  pub changed-owned : normalize_ownership changed.ownership ≡ ok changed.ownership
  changed-owned =
      subst (λ o. normalize_ownership o ≡ ok o) (sym changed-keeps.2)
        (load_session-owned id d s loads)

  abbrev pub final : Session
  final = after_write now changed d changed-owned

  -- Compacting a loaded session with more messages than are kept, where the active compaction does
  -- not cover the same messages and memories: the session is stored with all its messages and in no
  -- other file a thing changes; the new compaction is returned, is the active one and stands before
  -- the four newest of the old ones, and it has a summary to carry forward. The ids of the messages that it compacts and of those that it
  -- retains are together those of the session, in their order, and as many are retained as asked for.
  pub compact_session_continuity_lem :
      same_compaction (continuity_metadata s).active_compaction made ≡ false
      → (after : Session) × (compact_session_continuity isoformat list_memories now id new_id keep
            memory chars d
          ≡ (
            ok (record {
              compacted = true;
              reason = "compacted";
              session = session_snapshot after;
              continuity = session_continuity_snapshot after;
              compaction = some made;
            }),
            write s.session_id after d,
          ))
        × (after.messages ≡ s.messages)
        × ((continuity_metadata after).compactions
            ≡ made ∷ take 4 (continuity_metadata s).compactions)
        × ((continuity_metadata after).active_compaction ≡ some made)
        × (is_missing (continuity_metadata after).active_summary ≡ false)
        × (made.compacted_message_ids ++ made.retained_message_ids ≡ message_ids s.messages)
        × (length made.retained_message_ids ≡ l.keep_recent_messages)
  unfolding compact_session_continuity compact_loaded store_compaction
  compact_session_continuity_lem differs =
      let wrote = write_session_eq now changed d changed-owned in
      let (same_id, same_messages, _) = changed-keeps in
      let (_, _, messages, _, _, _) = after_write-keeps now changed d changed-owned in
      (
        final,
        rw limits (
            rw loads (
              rw (not_few enough) (
                rw differs (
                  ap
                    (λ x.
                      continue x.0
                        (λ stored. pure (record {
                          compacted = true;
                          reason = "compacted";
                          session = session_snapshot stored;
                          continuity = session_continuity_snapshot stored;
                          compaction = some made;
                        }))
                        x.1)
                    wrote
                  ∙ ap
                      (λ i. (
                        ok (record {
                          compacted = true;
                          reason = "compacted";
                          session = session_snapshot final;
                          continuity = session_continuity_snapshot final;
                          compaction = some made;
                        }),
                        write i final d,
                      ))
                      same_id)))),
        messages ∙ same_messages,
        unfold after_write written continuity_metadata in changed-continuity.0,
        unfold after_write written continuity_metadata in changed-continuity.1,
        unfold after_write written continuity_metadata in
            ap is_missing changed-continuity.2 ∙ has_summary,
        unfold new_compaction in
            sym (
              map-append-ids (all_but_last l.keep_recent_messages s.messages)
                (last_of l.keep_recent_messages s.messages))
            ∙ ap message_ids (all_but_last-last_of l.keep_recent_messages s.messages),
        unfold new_compaction in
            length-ids (last_of l.keep_recent_messages s.messages)
            ∙ length-last_of l.keep_recent_messages s.messages (omega (arith, enough)),
      )
