-- ===== src/Session/Returning.antt =====
-- That the pruning of sessions returns where every file can be loaded (runtime/session.py,
-- `prune_sessions`).
use clarityos.Prelude.{
  ℕ, ◌||◌, String, ◌≡◌, refl, ◌∙◌, sym, subst, Bool, false, Bool-cases, Option, List, [], ◌∷◌,
  arith, ◌==◌, ==_iff, elem, string_eq, inl, inr, In,
}
use clarityos.Python.Exec.{Result, ok, err}
use clarityos.Python.Directory.{unlink, read-unlink}
use clarityos.Session.Cleanup.{
  PrunedSessions, is_used_up, one_less, prune_sessions_loop, session_is_prunable, skipped,
  with_pruned_session,
}
use clarityos.Session.Pruned.{loads_same, loop-skips, loop-ends, loop-deletes}
use clarityos.Session.Record.{Session, SessionStatus}
use clarityos.Session.Store.{Sessions, load_session}

-- No two files have one name.
abbrev pub AreDistinctStems : List String → Type 0
AreDistinctStems [] = Unit
AreDistinctStems (x ∷ xs) = (elem x xs ≡ false) × AreDistinctStems xs

differs : (x y : String) (b : Bool) → ((x == y) || b) ≡ false → ((y == x) ≡ false) × (b ≡ false)
differs x y b h = ground (arith, ==_iff x y, ==_iff y x)

In-differs : (x k : String) (xs : List String) → elem x xs ≡ false → In k xs → (k == x) ≡ false
In-differs x k [] h m = absurd m
In-differs x k (y ∷ ys) h (inl e) =
    subst (λ i. (i == x) ≡ false) (sym e) (differs x y (elem x ys) h).0
In-differs x k (y ∷ ys) h (inr m) = In-differs x k ys (differs x y (elem x ys) h).1 m

-- Every listed file holds a session.
abbrev pub AllLoad : List String → Sessions → Type 0
AllLoad stems d = (k : String) → In k stems → (s : Session) × (load_session k d ≡ ok s)

skipped-ok :
    (r : Result PrunedSessions × Sessions) {p : PrunedSessions}
    → r.0 ≡ ok p
    → (q : PrunedSessions) × ((skipped r).0 ≡ ok q)
skipped-ok (ok q, d) h = (_, refl)
skipped-ok (err e, d) h = cc h

pruned-ok :
    (id : String) (r : Result PrunedSessions × Sessions) {p : PrunedSessions}
    → r.0 ≡ ok p
    → (q : PrunedSessions) × ((with_pruned_session id r).0 ≡ ok q)
pruned-ok id (ok q, d) h = (_, refl)
pruned-ok id (err e, d) h = cc h

module _ (now : ℕ) (statuses : List SessionStatus) (hours : ℕ) where
  still_load :
      (stem : String) (more : List String) (d : Sessions)
      → elem stem more ≡ false
      → AllLoad more d
      → AllLoad more (unlink stem d)
  still_load stem more d apart loads k m =
      let (s, good) = loads k m in
      (
        s,
        loads_same now statuses hours k d (unlink stem d)
              (read-unlink k stem d ∙ rw (turned k m) refl)
            ∙ good,
      )
    where
      turned : (k : String) → In k more → (stem == k) ≡ false
      turned k m = ground (arith, In-differs stem k more apart m, ==_iff stem k, ==_iff k stem)

  pub loop-returns :
      (left : Option ℕ) (stems : List String) (d : Sessions)
      → AreDistinctStems stems
      → AllLoad stems d
      → (p : PrunedSessions) × ((prune_sessions_loop now statuses hours left stems d).0 ≡ ok p)
  unfolding prune_sessions_loop
  loop-returns left [] d apart loads = (_, refl)
  loop-returns left (stem ∷ more) d apart loads =
      let (s, good) = loads stem (inl refl) in
      let rest : AllLoad more d = λ k m. loads k (inr m) in
      elim (Bool-cases (session_is_prunable now statuses hours s)) [
        | inr no_need ↦
            let (p, e) = loop-returns left more d apart.1 rest in
            rw (loop-skips now statuses hours stem more left d s good no_need)
              (skipped-ok (prune_sessions_loop now statuses hours left more d) e)
        | inl may ↦ elim (Bool-cases (is_used_up (one_less left))) [
          | inl over ↦ rw (loop-ends now statuses hours stem more left d s good may over) (_, refl)
          | inr room ↦
              let (p, e) =
                loop-returns (one_less left) more (unlink stem d) apart.1
                  (still_load stem more d apart.0 rest) in
              rw (loop-deletes now statuses hours stem more left d s good may room) (
                pruned-ok s.session_id
                  (prune_sessions_loop now statuses hours (one_less left) more (unlink stem d)) e)
        ]
      ]
