-- ===== src/Session/Pruned.antt =====
-- What the pruning of sessions deletes (runtime/session.py, `prune_sessions`).
use clarityos.Prelude.{
  ℕ, String, ◌≡◌, ◌≢◌, refl, ◌∙◌, ap, sym, true, false, Bool-cases, Option, none, List, [], ◌∷◌,
  ◌==◌, string_eq, inl, inr,
}
use clarityos.Python.Errors.{Exception}
use clarityos.Python.Exec.{Result, ok, err}
use clarityos.Python.Directory.{read, unlink, read-unlink}
use clarityos.Session.Cleanup.{
  PrunedSessions, is_used_up, one_less, prune_sessions_loop, session_is_prunable, skipped,
  with_pruned_session,
}
use clarityos.Session.Record.{session_status_eq, Session, SessionStatus}
use clarityos.Session.Store.{Sessions, load_found, load_session}

pub ok_inj {ℓ} : {A : Type ℓ} {a b : A} → ok a ≡ ok b → a ≡ b
ok_inj h = cc h

module _ (now : ℕ) (statuses : List SessionStatus) (hours : ℕ) where
  pub loads_same :
      (k : String) (d d' : Sessions) → read k d' ≡ read k d → load_session k d' ≡ load_session k d
  unfolding load_session
  loads_same k d d' e = ap (load_found k) e

  pub gone-not_loaded :
      (k : String) (d : Sessions) {s : Session} → read k d ≡ none → load_session k d ≢ ok s
  unfolding load_session load_found
  gone-not_loaded k d gone loads = cc (rw gone at loads)

  -- What is loaded behind a deletion was there before it, under another name.
  pub loads_before :
      (stem k : String) (d : Sessions) {s : Session}
      → load_session k (unlink stem d) ≡ ok s
      → ((stem == k) ≡ false) × (load_session k d ≡ ok s)
  loads_before stem k d loads = elim (Bool-cases (stem == k)) [
    | inl same ↦ absurd (gone-not_loaded k (unlink stem d) (rw (read-unlink, same) refl) loads)
    | inr other ↦
        (other, sym (loads_same k d (unlink stem d) (rw (read-unlink, other) refl)) ∙ loads)
  ]

  module _ (stem : String) (more : List String) (left : Option ℕ) (d : Sessions) where
    abbrev pub loop : Result PrunedSessions × Sessions
    loop = prune_sessions_loop now statuses hours left (stem ∷ more) d

    pub loop-stops : (e : Exception) → load_session stem d ≡ err e → loop ≡ (err e, d)
    unfolding prune_sessions_loop
    loop-stops e bad = rw (bad, prune_sessions_loop) refl

    pub loop-skips :
        (s : Session)
        → load_session stem d ≡ ok s
        → session_is_prunable now statuses hours s ≡ false
        → loop ≡ skipped (prune_sessions_loop now statuses hours left more d)
    unfolding prune_sessions_loop
    loop-skips s good no_need = rw (good, prune_sessions_loop) (rw no_need refl)

    pub loop-ends :
        (s : Session)
        → load_session stem d ≡ ok s
        → session_is_prunable now statuses hours s ≡ true
        → is_used_up (one_less left) ≡ true
        → loop
          ≡ (ok (record { pruned_session_ids = s.session_id ∷ []; scanned = 1 }), unlink stem d)
    unfolding prune_sessions_loop
    loop-ends s good may enough = rw (good, prune_sessions_loop) (rw may (rw enough refl))

    pub loop-deletes :
        (s : Session)
        → load_session stem d ≡ ok s
        → session_is_prunable now statuses hours s ≡ true
        → is_used_up (one_less left) ≡ false
        → loop
          ≡ with_pruned_session s.session_id
              (prune_sessions_loop now statuses hours (one_less left) more (unlink stem d))
    unfolding prune_sessions_loop
    loop-deletes s good may room = rw (good, prune_sessions_loop) (rw may (rw room refl))
