-- ===== src/Session/Pruning.antt =====
-- That the pruning of sessions deletes all that it may, and within its limit (runtime/session.py,
-- `prune_sessions`).
use clarityos.Prelude.{
  ◌+◌, ◌*◌, ◌⊎◌, elem, ==_refl, ℕ, suc, ◌≤◌, String, ◌≡◌, refl, ◌∙◌, ap, sym, subst, true, false,
  Bool-cases, Option, none, some, List, [], ◌∷◌, length, arith, ◌==◌, ==_iff, string_eq, inl, inr,
  In,
}
use clarityos.Python.Errors.{Exception}
use clarityos.Python.Exec.{result_cases, Result, ok, err, traverse}
use clarityos.Python.Directory.{read, unlink, read-unlink}
use clarityos.Prelude.Int.{ℤ, pos}
use clarityos.Prelude.Sort.{sort_by-In}
use clarityos.Session.Cleanup.{
  is_used_up, one_less, PrunedSessions, prune_checked, prune_sessions, prune_sessions_loop,
  session_is_prunable, skipped, statuses_or_archived, with_pruned_session,
}
use clarityos.Session.Pruned.{
  ok_inj, loads_same, gone-not_loaded, loads_before, loop-stops, loop-skips, loop-ends,
  loop-deletes,
}
use clarityos.Session.Returning.{AreDistinctStems, AllLoad, loop-returns}
use clarityos.Queue.Job.{seconds, before_epoch, check_cutoff, check_cutoff-ok}
use clarityos.Session.Record.{session_status_eq, Session, SessionStatus}
use clarityos.Session.Store.{Sessions, load_session}
use clarityos.Session.Upkeep.{normalize_status, positive_limit, sorted_stems, stems}
use clarityos.Session.Reports.{
  skipped-eq-ok, pruned-eq-ok, In-stems, loaded-read, or_false, or_false_right, ==-flip, Reports,
  Reports-before, IsLimit, positive_limit-IsLimit, one_less-IsLimit, last_one, one_more, less_room,
}

module _ (now : ℕ) (statuses : List SessionStatus) (hours : ℕ) where
  -- Nothing is left that may be pruned.
  abbrev pub IsClean : String → Sessions → Type 0
  IsClean k d =
      (s : Session) → load_session k d ≡ ok s → session_is_prunable now statuses hours s ≡ false

  -- What a pruning of the files `stems` of `d` does. `left` is the limit, if there is one.
  pub record Prunes (left : Option ℕ) (stems : List String) (d : Sessions)
      (r : Result PrunedSessions × Sessions) : Type 0 where
    pub gone : List String
    pub kept : (k : String) → elem k gone ≡ false → read k r.1 ≡ read k d
    pub deleted :
        (k : String)
        → elem k gone ≡ true
        → (s : Session) × (load_session k d ≡ ok s)
          × (session_is_prunable now statuses hours s ≡ true)
          × (read k r.1 ≡ none)
    pub within : (n : ℕ) → left ≡ some (suc n) → length gone ≤ suc n
    pub reported : (p : PrunedSessions) → r.0 ≡ ok p → Reports d gone p.pruned_session_ids
    pub enough :
        (p : PrunedSessions)
        → r.0 ≡ ok p
        → ((n : ℕ) × (left ≡ some (suc n)) × (length gone ≡ suc n))
          ⊎ ((k : String) → In k stems → IsClean k r.1)

  Prunes-stops :
      (left : Option ℕ) (stems : List String) (d : Sessions) (e : Exception)
      → Prunes left stems d (err e, d)
  Prunes-stops left stems d e = record {
    gone = [];
    kept = λ k h. refl;
    deleted = λ k h. cc h;
    within = λ n h. omega arith;
    reported = λ p h. cc h;
    enough = λ p h. cc h;
  }

  module _ (stem : String) (more : List String) (left : Option ℕ) (d : Sessions) (s : Session)
      (good : load_session stem d ≡ ok s) where
    -- A file that is not pruned stays, and so it is clean.
    Prunes-skips :
        (r : Result PrunedSessions × Sessions)
        → session_is_prunable now statuses hours s ≡ false
        → Prunes left more d r
        → Prunes left (stem ∷ more) d (skipped r)
    Prunes-skips r no_need rest = record {
      gone = rest.gone;
      kept = rest.kept;
      deleted = rest.deleted;
      within = rest.within;
      reported = λ p h.
          let (q, inner, ids) = skipped-eq-ok r h in
          subst (Reports d rest.gone) ids (rest.reported q inner);
      enough = λ p h.
          let (q, inner, ids) = skipped-eq-ok r h in
          elim (rest.enough q inner) [
            | inl full ↦ inl full
            | inr clean ↦ inr (λ k m. elim m [ inl e ↦ first k e | inr n ↦ clean k n ])
          ];
    }
      where
        first : (k : String) → k ≡ stem → IsClean k r.1
        first k e t loads = elim (Bool-cases (elem k rest.gone)) [
          | inl out ↦
              let (u, was, may, none_left) = rest.deleted k out in
              absurd (gone-not_loaded now statuses hours k r.1 none_left loads)
          | inr stays ↦
              let same : s ≡ t = ok_inj (
                sym good
                ∙ ap (λ i. load_session i d) (sym e)
                ∙ sym (loads_same now statuses hours k d r.1 (rest.kept k stays))
                ∙ loads) in
              subst (λ x. session_is_prunable now statuses hours x ≡ false) same no_need
        ]

    -- The last file that the limit allows.
    Prunes-ends :
        left ≡ some 1
        → session_is_prunable now statuses hours s ≡ true
        → Prunes left
            (stem ∷ more)
            d
            (ok (record { pruned_session_ids = s.session_id ∷ []; scanned = 1 }), unlink stem d)
    Prunes-ends last may = record {
      gone = stem ∷ [];
      kept = λ k h. rw (read-unlink, ==-flip k stem (or_false _ _ h).0) refl;
      deleted = λ k h.
          let e : k ≡ stem = (==_iff k stem).0 (or_false_right _ h) in
          (s, ap (λ i. load_session i d) e ∙ good, may, rw (e, read-unlink, ==_refl stem) refl);
      within = λ n h. omega arith;
      reported = λ p h. (
        s,
        [],
        good,
        refl,
        sym (ap (λ (q : PrunedSessions). q.pruned_session_ids) (ok_inj h)),
        refl,
      );
      enough = λ p h. inl (0, last, refl);
    }

    -- A deleted file, and what the loop does behind it.
    Prunes-deletes :
        (r : Result PrunedSessions × Sessions)
        → is_used_up (one_less left) ≡ false
        → session_is_prunable now statuses hours s ≡ true
        → Prunes (one_less left) more (unlink stem d) r
        → Prunes left (stem ∷ more) d (with_pruned_session s.session_id r)
    Prunes-deletes r room may rest = record {
      gone = stem ∷ rest.gone;
      kept = λ k h.
          let (other, stays) = or_false _ _ h in
          rest.kept k stays ∙ rw (read-unlink, ==-flip k stem other) refl;
      deleted = λ k h. elim (Bool-cases (k == stem)) [
        | inl same ↦
            let e = (==_iff k stem).0 same in
            (s, ap (λ i. load_session i d) e ∙ good, may, ap (λ i. read i r.1) e ∙ out)
        | inr other ↦
            let (t, loads, prunable, none_left) = rest.deleted k (rw other at h) in
            (t, (loads_before now statuses hours stem k d loads).1, prunable, none_left)
      ];
      within =
          λ n h. let (m, e, less) = less_room left n room h in omega (arith, e, rest.within m less);
      reported = λ p h.
          let (q, inner, ids) = pruned-eq-ok s.session_id r h in
          (
            s,
            q.pruned_session_ids,
            good,
            new,
            sym ids,
            Reports-before stem d rest.gone q.pruned_session_ids (rest.reported q inner),
          );
      enough = λ p h.
          let (q, inner, ids) = pruned-eq-ok s.session_id r h in
          elim (rest.enough q inner) [
            | inl (m, limit, full) ↦ inl (suc m, one_more left m limit, ap suc full)
            | inr clean ↦ inr (λ k m. elim m [
              | inl e ↦ λ t loads.
                  absurd
                    (gone-not_loaded now statuses hours k r.1 (ap (λ i. read i r.1) e ∙ out) loads)
              | inr n ↦ clean k n
            ])
          ];
    }
      where
        new : elem stem rest.gone ≡ false
        new = elim (Bool-cases (elem stem rest.gone)) [
          | inl again ↦
              let (t, loads, _, _) = rest.deleted stem again in
              absurd (
                gone-not_loaded now statuses hours stem (unlink stem d)
                  (rw (read-unlink, ==_refl stem) refl) loads)
          | inr stays ↦ stays
        ]

        out : read stem r.1 ≡ none
        out = rest.kept stem new ∙ rw (read-unlink, ==_refl stem) refl

  loop-Prunes :
      (left : Option ℕ) (stems : List String) (d : Sessions)
      → IsLimit left
      → Prunes left stems d (prune_sessions_loop now statuses hours left stems d)
  unfolding prune_sessions_loop
  loop-Prunes left [] d limit = record {
    gone = [];
    kept = λ k h. refl;
    deleted = λ k h. cc h;
    within = λ n h. omega arith;
    reported = λ p h. sym (ap (λ (q : PrunedSessions). q.pruned_session_ids) (ok_inj h));
    enough = λ p h. inr (λ k m. absurd m);
  }
  loop-Prunes left (stem ∷ more) d limit = elim (result_cases (load_session stem d)) [
    | inr (e, bad) ↦
        rw (loop-stops now statuses hours stem more left d e bad)
          (Prunes-stops left (stem ∷ more) d e)
    | inl (s, good) ↦ elim (Bool-cases (session_is_prunable now statuses hours s)) [
      | inr no_need ↦
          rw (loop-skips now statuses hours stem more left d s good no_need)
            (Prunes-skips stem more left d s good _ no_need (loop-Prunes left more d limit))
      | inl may ↦ elim (Bool-cases (is_used_up (one_less left))) [
        | inl over ↦
            rw (loop-ends now statuses hours stem more left d s good may over)
              (Prunes-ends stem more left d s good (last_one left limit over) may)
        | inr room ↦ rw (loop-deletes now statuses hours stem more left d s good may room) (
            Prunes-deletes stem more left d s good _ room may
              (loop-Prunes (one_less left) more (unlink stem d) (one_less-IsLimit left room)))
      ]
    ]
  ]

-- What is still loaded was there before.
still_listed :
    (now : ℕ) (wanted : List SessionStatus) (hours : ℕ) (left : Option ℕ) (k : String) (s : Session)
    (d : Sessions) (r : Result PrunedSessions × Sessions)
    → Prunes now wanted hours left (sorted_stems d) d r
    → load_session k r.1 ≡ ok s
    → In k (sorted_stems d)
unfolding sorted_stems
still_listed now wanted hours left k s d r done loads = elim (Bool-cases (elem k done.gone)) [
  | inl out ↦
      let (t, was, may, none_left) = done.deleted k out in
      absurd (gone-not_loaded now wanted hours k r.1 none_left loads)
  | inr stays ↦
      let (raw, there) = loaded-read k r.1 loads in
      sort_by-In _ k (stems d) (In-stems k raw d (sym (done.kept k stays) ∙ there))
]

-- `prune_sessions` with arguments that pass the checks. A file is deleted only if its session may be
-- pruned: its status is wanted and is archived, errored or recovered, and it was not changed for the
-- given hours. Every other file is as it was, and no more files are deleted than the limit allows, also
-- where an exception ends the call. If the call returns, it reports
-- the id of the session of each deleted file and no others, and as many files are deleted as the limit
-- allows, or no session that may be pruned is left; without a limit it is always the latter. It does
-- return where no two files have one name, every file can be loaded and the time limit does not lie
-- before the year 1.
pub prune_sessions_lem :
    (now : ℕ) (names : Option (List String)) (hours : ℕ) (limit : Option ℤ) (d : Sessions)
    (wanted : List SessionStatus) (left : Option ℕ)
    → traverse normalize_status (statuses_or_archived names) ≡ ok wanted
    → positive_limit limit ≡ ok left
    → Prunes now wanted
        (suc hours)
        left
        (sorted_stems d)
        d
        (prune_sessions now names (pos (suc hours)) limit d)
      × ((k : String) (s : Session)
          → load_session k (prune_sessions now names (pos (suc hours)) limit d).1 ≡ ok s
          → In k (sorted_stems d))
      × (AreDistinctStems (sorted_stems d)
          → AllLoad (sorted_stems d) d
          → seconds (suc hours * 3600) ≤ now + before_epoch
          → (p : PrunedSessions) × ((prune_sessions now names (pos (suc hours)) limit d).0 ≡ ok p))
unfolding prune_sessions prune_checked
prune_sessions_lem now names hours limit d wanted left parsed bounded =
    elim (result_cases (check_cutoff now (suc hours * 3600))) [
      | inl (tt, in_range) ↦
          let done =
            loop-Prunes now wanted (suc hours) left (sorted_stems d) d
              (positive_limit-IsLimit limit left bounded) in
          rw (parsed, bounded, in_range)
            (
              done,
              λ k s loads. still_listed now wanted (suc hours) left k s d _ done loads,
              λ apart all_load recent.
                  loop-returns now wanted (suc hours) left (sorted_stems d) d apart all_load,
            )
      | inr (e, too_old) ↦
          let done = Prunes-stops now wanted (suc hours) left (sorted_stems d) d e in
          rw (parsed, bounded, too_old)
            (
              done,
              λ k s loads. still_listed now wanted (suc hours) left k s d _ done loads,
              λ apart all_load recent. cc (too_old, check_cutoff-ok now (suc hours * 3600) recent),
            )
    ]
