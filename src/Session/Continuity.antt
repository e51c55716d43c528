-- ===== src/Session/Continuity.antt =====
-- The continuity of a session (runtime/session.py): the compactions of its past messages, and the
-- memories that belong to it. Stored memories (runtime/memory.py) are a parameter:
-- `list_memories kind value limit` are the summaries of those of one scope.
use clarityos.Prelude.{
  ℕ, ◌-◌, String, Bool, true, false, not, ◌||◌, Option, none, some, List, [], ◌∷◌, ◌++◌, map, leb,
  length, take, ◌<>◌, ◌==◌, string_eq, option_eq, elem, if◌then◌else◌,
}
use clarityos.Python.Text.{is_blank, is_empty}
use clarityos.Session.Record.{
  session_status_eq, CarriedSummary, Compaction, Continuity, MemoryScope, ScopeKind, Session,
  SessionMessage, agent_scope, global_scope, run_scope, scope_name, workflow_scope,
}

-- What is read of a memory's summary.
pub record MemorySummary : Type 0 where
  pub memory_id : String
  pub workflow_id : Option String
  pub payload_summary : Option String

-- `continuity_metadata`
pub record ContinuityView : Type 0 where
  pub compactions : List Compaction
  pub active_compaction_id : Option String
  pub active_compaction : Option Compaction
  pub active_summary : Option CarriedSummary
  pub updated_at : Option ℕ

unfoldable pub find_compaction : Option String → List Compaction → Option Compaction
find_compaction id [] = none
find_compaction id (c ∷ cs) = if some c.compaction_id == id then some c else find_compaction id cs

-- The active compaction, or the newest where no stored one has the active id.
active_of : Option Compaction → Continuity → ContinuityView
active_of (some c) k = record {
  compactions = k.compactions;
  active_compaction_id = k.active_compaction_id;
  active_compaction = some c;
  active_summary = k.active_summary;
  updated_at = k.updated_at;
}
active_of none k = elim k.compactions [
  | [] ↦ record {
    compactions = [];
    active_compaction_id = k.active_compaction_id;
    active_compaction = none;
    active_summary = k.active_summary;
    updated_at = k.updated_at;
  }
  | c ∷ cs ↦ record {
    compactions = c ∷ cs;
    active_compaction_id = some c.compaction_id;
    active_compaction = some c;
    active_summary = k.active_summary;
    updated_at = k.updated_at;
  }
]

unfoldable pub view_of : Option Continuity → ContinuityView
unfolding find_compaction active_of
view_of none = record {
  compactions = [];
  active_compaction_id = none;
  active_compaction = none;
  active_summary = none;
  updated_at = none;
}
view_of (some k) = active_of (find_compaction k.active_compaction_id k.compactions) k

unfoldable pub continuity_metadata : Session → ContinuityView
unfolding view_of
continuity_metadata session = view_of session.continuity

pub record ContinuitySnapshot : Type 0 where
  pub compaction_count : ℕ
  pub active_compaction_id : Option String
  pub active_compaction : Option Compaction
  pub active_summary : Option CarriedSummary
  pub updated_at : Option ℕ

abbrev pub session_continuity_snapshot : Session → ContinuitySnapshot
session_continuity_snapshot session =
    let continuity = continuity_metadata session in
    record {
      compaction_count = length continuity.compactions;
      active_compaction_id = continuity.active_compaction_id;
      active_compaction = continuity.active_compaction;
      active_summary = continuity.active_summary;
      updated_at = continuity.updated_at;
    }

abbrev pub memory_ids : List MemorySummary → List String
memory_ids ms = map (λ m. m.memory_id) ms

-- The loops over memories: each new one that is usable is kept, up to the limit.
unfoldable pub take_new :
    (usable : MemorySummary → Bool)
    → ℕ
    → (kept : List MemorySummary) → List MemorySummary
    → List MemorySummary
take_new usable limit kept [] = kept
take_new usable limit kept (m ∷ ms) = elim (not (usable m) || elem m.memory_id (memory_ids kept)) [
  | true ↦ take_new usable limit kept ms
  | false ↦ elim (leb limit (length (kept ++ m ∷ []))) [
    | true ↦ kept ++ m ∷ []
    | false ↦ take_new usable limit (kept ++ m ∷ []) ms
  ]
]

abbrev pub truthy : Option String → Bool
truthy none = false
truthy (some t) = not (is_empty t)

unfoldable pub format_memory_scope : MemoryScope → String
format_memory_scope scope = elim scope.value [
  | none ↦ scope_name scope.kind
  | some value ↦
      if is_empty value then scope_name scope.kind else scope_name scope.kind <> ":" <> value
]

abbrev pub message_ids : List SessionMessage → List String
message_ids messages = map (λ m. m.message_id) messages

-- `xs[-n:]`, for a positive n
unfoldable pub last_of : {A : Type 0} → ℕ → List A → List A
last_of n [] = []
last_of n (x ∷ xs) = if leb (length (x ∷ xs)) n then x ∷ xs else last_of n xs

-- `xs[:-n]`, for a positive n
unfoldable pub all_but_last : {A : Type 0} → ℕ → List A → List A
all_but_last n xs = take (length xs - n) xs

module _ (list_memories : ScopeKind → Option String → ℕ → List MemorySummary) where
  scoped : MemoryScope → ℕ → List MemorySummary
  scoped scope limit = elim scope.kind [
    | global_scope ↦ list_memories global_scope none limit
    | agent_scope ↦ list_memories agent_scope scope.value limit
    | workflow_scope ↦
        if truthy scope.value then list_memories workflow_scope scope.value limit else []
    | run_scope ↦ if truthy scope.value then list_memories run_scope scope.value limit else []
  ]

  of_workflows : ℕ → (kept : List MemorySummary) → List String → List MemorySummary
  of_workflows limit kept [] = kept
  of_workflows limit kept (w ∷ ws) =
      let more = take_new (λ m. true) limit kept (list_memories workflow_scope (some w) limit) in
      elim (leb limit (length more)) [ true ↦ more | false ↦ of_workflows limit more ws ]

  unfoldable pub continuity_scope_memories : Session → ℕ → List MemorySummary × List MemorySummary
  unfolding scoped of_workflows take_new
  continuity_scope_memories session limit =
      (scoped session.memory_scope limit, of_workflows limit [] session.workflow_ids)

  unfoldable pub select_continuity_memories : Session → ℕ → List MemorySummary
  unfolding continuity_scope_memories take_new
  select_continuity_memories session limit =
      let (recent, workflow) = continuity_scope_memories session limit in
      take_new (λ m. not (is_blank m.memory_id)) limit [] (recent ++ workflow)
