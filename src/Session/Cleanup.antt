-- ===== src/Session/Cleanup.antt =====
-- Pruning sessions (runtime/session.py).
use clarityos.Prelude.{
  ℕ, zero, suc, ◌+◌, ◌*◌, String, Bool, true, false, ◌&&◌, Option, none, some, List, [], ◌∷◌, leb,
  string_eq, elem,
}
use clarityos.Prelude.Int.{ℤ, pos}
use clarityos.Python.Errors.{value_error}
use clarityos.Python.Exec.{Result, ok, err, map_result, traverse, Exec, lift, raise, ◌>>=◌}
use clarityos.Python.Directory.{unlink}
use clarityos.Queue.Job.{seconds, check_cutoff}
use clarityos.Session.Record.{
  session_status_eq, Session, SessionStatus, archived, errored, recovered,
}
use clarityos.Session.Store.{Sessions, load_session}
use clarityos.Session.Upkeep.{normalize_status, positive_limit, sorted_stems}

abbrev pub session_terminal_for_cleanup : Session → Bool
session_terminal_for_cleanup s = elem s.status (archived ∷ errored ∷ recovered ∷ [])

-- Whether a loaded session is pruned: `updated_at` is no later than the threshold.
abbrev pub session_is_prunable : ℕ → List SessionStatus → ℕ → Session → Bool
session_is_prunable now statuses hours s =
    elem s.status statuses
    && session_terminal_for_cleanup s
    && leb (s.updated_at + hours * seconds 3600) now

pub record PrunedSessions : Type 0 where
  pub pruned_session_ids : List String
  pub scanned : ℕ

abbrev pub skipped : Result PrunedSessions × Sessions → Result PrunedSessions × Sessions
skipped (r, d) = (map_result {A = PrunedSessions} (λ p. record p { scanned = suc p.scanned }) r, d)

abbrev pub with_pruned_session :
    String → Result PrunedSessions × Sessions → Result PrunedSessions × Sessions
with_pruned_session id (r, d) = (
  map_result {A = PrunedSessions}
      (λ p. record { pruned_session_ids = id ∷ p.pruned_session_ids; scanned = suc p.scanned }) r,
  d,
)

-- How many may still be pruned after one; `none` is no limit.
abbrev pub one_less : Option ℕ → Option ℕ
one_less none = none
one_less (some zero) = some zero
one_less (some (suc n)) = some n

abbrev pub is_used_up : Option ℕ → Bool
is_used_up (some zero) = true
is_used_up _ = false

-- The loop; `left` is the limit less what is pruned, and at least 1.
unfoldable pub prune_sessions_loop :
    ℕ → List SessionStatus → ℕ → (left : Option ℕ) → List String → Exec Sessions PrunedSessions
prune_sessions_loop now statuses hours left [] d =
    (ok (record { pruned_session_ids = []; scanned = 0 }), d)
prune_sessions_loop now statuses hours left (stem ∷ more) d = elim (load_session stem d) [
  | err e ↦ (err e, d)
  | ok s ↦ elim (session_is_prunable now statuses hours s) [
    | false ↦ skipped (prune_sessions_loop now statuses hours left more d)
    | true ↦ elim (is_used_up (one_less left)) [
      | true ↦ (ok (record { pruned_session_ids = s.session_id ∷ []; scanned = 1 }), unlink stem d)
      | false ↦
          with_pruned_session s.session_id
            (prune_sessions_loop now statuses hours (one_less left) more (unlink stem d))
    ]
  ]
]

abbrev pub statuses_or_archived : Option (List String) → List String
statuses_or_archived none = "archived" ∷ []
statuses_or_archived (some names) = names

unfoldable pub prune_checked : ℕ → List SessionStatus → ℤ → Option ℤ → Exec Sessions PrunedSessions
unfolding prune_sessions_loop
prune_checked now statuses (pos (suc hours)) limit = do
  left ← lift (positive_limit limit)
  _ ← lift (check_cutoff now (suc hours * 3600))
  λ d. prune_sessions_loop now statuses (suc hours) left (sorted_stems d) d
prune_checked now statuses _ limit =
    raise (value_error "Session prune `older_than_hours` must be a positive integer")

unfoldable pub prune_sessions :
    ℕ → Option (List String) → (older_than_hours : ℤ) → Option ℤ → Exec Sessions PrunedSessions
unfolding prune_checked
prune_sessions now statuses older_than_hours limit = do
  wanted ← lift (traverse normalize_status (statuses_or_archived statuses))
  prune_checked now wanted older_than_hours limit
