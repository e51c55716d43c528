-- ===== src/Session/Upkeep.antt =====
-- Creating, listing and archiving sessions (runtime/session.py).
use clarityos.Prelude.{
  ℕ, suc, String, Bool, true, ◌&&◌, Option, none, some, List, [], ◌∷◌, map, ltb, take, keep_if,
  str_ltb, ◌<>◌, ◌==◌, string_eq, if◌then◌else◌,
}
use clarityos.Prelude.Int.{ℤ, pos}
use clarityos.Prelude.Sort.{sort_by}
use clarityos.Python.Errors.{value_error}
use clarityos.Python.Exec.{Result, ok, err, and_then, map_result, traverse, Exec, lift, pure, ◌>>=◌}
use clarityos.Python.Json.{Json, Fields}
use clarityos.Session.Checks.{
  RawScope, normalize_memory_scope, normalize_metadata, normalize_optional_text, normalize_text,
}
use clarityos.Session.Record.{
  session_status_eq, Maintenance, MemoryScope, Session, SessionStatus, active, archived, errored,
  opened, recovered, waiting,
}
use clarityos.Session.Store.{
  SessionSummary, Sessions, load_session, session_snapshot, session_summary, transition_session,
  write_session,
}

unfoldable pub normalize_status : String → Result SessionStatus
normalize_status name =
    if name == "open"
    then ok opened
    else if name == "active"
    then ok active
    else if name == "waiting"
    then ok waiting
    else if name == "errored"
    then ok errored
    else if name == "archived"
    then ok archived
    else if name == "recovered"
    then ok recovered
    else err (value_error ("Unknown session status: " <> name))

-- `normalize_positive_int`, of an integer
unfoldable pub positive_limit : Option ℤ → Result (Option ℕ)
positive_limit none = ok none
positive_limit (some (pos (suc n))) = ok (some (suc n))
positive_limit (some _) = err (value_error "Session `limit` must be a positive integer")

-- The request for a session.
pub record SessionRequest : Type 0 where
  pub title : Option String
  pub agent : String
  pub metadata : Json
  pub memory_scope : Option RawScope
  pub surface : Option String

-- The record of a new session, of the parts that passed the checks.
unfoldable pub new_session :
    ℕ
    → (session_id digest agent : String) → (title surface : Option String) → MemoryScope
    → Fields
    → Session
new_session now session_id digest agent title surface scope metadata = record {
  session_id = session_id;
  title = title;
  agent = agent;
  status = opened;
  ownership = record {
    auth_required = true;
    surface = surface;
    token_hash = some digest;
    issued_at = some now;
  };
  memory_scope = scope;
  current_workflow_id = none;
  workflow_ids = [];
  last_run_id = none;
  last_job_id = none;
  messages = [];
  metadata = metadata;
  continuity = none;
  maintenance = none;
  transition_history = [];
  created_at = now;
  updated_at = now;
}

-- The checks in their order.
unfoldable pub check_session : ℕ → (session_id digest : String) → SessionRequest → Result Session
unfolding new_session
check_session now session_id digest r = and_then (normalize_text r.agent "agent") (λ agent.
    and_then (normalize_optional_text r.title "title") (λ title.
      and_then (normalize_optional_text r.surface "surface") (λ surface.
        and_then (normalize_memory_scope r.memory_scope agent) (λ scope.
          map_result (new_session now session_id digest agent title surface scope)
            (normalize_metadata r.metadata)))))

-- `session_id` and `token` are what `uuid4` and `generate_session_token` draw. The token is returned
-- beside the snapshot, and only its digest is stored.
unfoldable pub create_session :
    (session_token_hash : String → String)
    → ℕ
    → (session_id token : String) → SessionRequest
    → Exec Sessions (Session × String)
unfolding check_session
create_session session_token_hash now session_id token r = do
  session ← lift (check_session now session_id (session_token_hash token) r)
  stored ← write_session now session
  pure (session_snapshot stored, token)

-- The names of the files, in the order of their paths.
abbrev pub stems : Sessions → List String
stems [] = []
stems ((k, s) ∷ d) = k ∷ stems d

unfoldable pub sorted_stems : Sessions → List String
sorted_stems d = sort_by (λ a b. str_ltb (a <> ".json") (b <> ".json")) (stems d)

abbrev pub is_wanted : Option SessionStatus → Option String → Session → Bool
is_wanted status agent s =
    elim status [ none ↦ true | some wanted ↦ s.status == wanted ]
    && elim agent [ none ↦ true | some wanted ↦ s.agent == wanted ]

abbrev pub cut_to : {A : Type 0} → Option ℕ → List A → List A
cut_to none xs = xs
cut_to (some n) xs = take n xs

optional_status : Option String → Result (Option SessionStatus)
unfolding normalize_status
optional_status none = ok none
optional_status (some name) = map_result some (normalize_status name)

-- Every file is loaded, also one that is not wanted; the newest come first.
unfoldable pub list_sessions :
    (status agent : Option String) → Option ℤ → Sessions → Result (List SessionSummary)
unfolding optional_status sorted_stems positive_limit
list_sessions status agent limit d = and_then (optional_status status) (λ wanted.
    and_then (normalize_optional_text agent "agent") (λ wanted_agent.
      and_then (positive_limit limit) (λ bound.
        map_result
          (λ sessions. cut_to bound (
            map session_summary (
              sort_by (λ a b. ltb b.updated_at a.updated_at)
                (keep_if (is_wanted wanted wanted_agent) sessions))))
          (traverse (λ stem. load_session stem d) (sorted_stems d)))))

abbrev pub notes_of : Session → Maintenance
notes_of s = elim s.maintenance [
  | none ↦ record { archived_at = none; archive_reason = none }
  | some notes ↦ notes
]

-- The notes of the archiving; an earlier reason stays where none is given.
noted : ℕ → Option String → Session → Result Session
noted now none s =
    ok (record s { maintenance = some (record (notes_of s) { archived_at = some now }) })
noted now (some reason) s =
    map_result
      (λ r. record s {
        maintenance = some (record { archived_at = some now; archive_reason = some r });
      })
      (normalize_text reason "reason")

unfoldable pub archive_loaded : ℕ → Option String → Session → Exec Sessions Session
unfolding noted
archive_loaded now reason s = if s.status == archived then pure (session_snapshot s) else do
  moved ← lift (transition_session s archived)
  annotated ← lift (noted now reason moved)
  stored ← write_session now annotated
  pure (session_snapshot stored)

unfoldable pub archive_session : ℕ → String → Option String → Exec Sessions Session
unfolding archive_loaded
archive_session now session_id reason = do
  s ← (λ d. (load_session session_id d, d))
  archive_loaded now reason s
