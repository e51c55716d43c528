-- ===== src/Session/Checks.antt =====
-- The checks of what a session is given, and of what its file holds (runtime/session.py).
use clarityos.Prelude.{
  String, Bool, true, false, ◌&&◌, ◌||◌, ◌++◌, Option, none, some, List, [], ◌∷◌, ◌<>◌, ◌==◌, elem,
  if◌then◌else◌, string_eq,
}
use clarityos.Python.Errors.{value_error}
use clarityos.Python.Exec.{Result, ok, err, and_then, map_result}
use clarityos.Python.Json.{Json, null, obj, Fields, end}
use clarityos.Python.Text.{strip, is_blank}
use clarityos.Session.Record.{
  session_status_eq, MemoryScope, Ownership, ScopeKind, agent_scope, global_scope, run_scope,
  scope_name, workflow_scope,
}

unfoldable pub normalize_text : String → (field_name : String) → Result String
normalize_text value field_name =
    if is_blank value
    then err (value_error ("Session `" <> field_name <> "` must be a non-empty string"))
    else ok (strip value)

unfoldable pub normalize_optional_text :
    Option String → (field_name : String) → Result (Option String)
normalize_optional_text none field_name = ok none
normalize_optional_text (some value) field_name = map_result some (normalize_text value field_name)

-- `normalize_optional_message_content` of a text or nothing
unfoldable pub normalize_content : Option String → Option String
normalize_content none = none
normalize_content (some value) = if is_blank value then none else some (strip value)

unfoldable pub normalize_metadata : Json → Result Fields
normalize_metadata null = ok end
normalize_metadata (obj fields) = ok fields
normalize_metadata _ = err (value_error "Session `metadata` must be an object")

-- The scope that a request asks for; a key of the dictionary may be missing, and the value may be None.
pub record RawScope : Type 0 where
  pub kind : Option String
  pub value : Option (Option String)

scope_kind_named : String → Result ScopeKind
scope_kind_named name =
    if name == "global"
    then ok global_scope
    else if name == "agent"
    then ok agent_scope
    else if name == "workflow"
    then ok workflow_scope
    else if name == "run"
    then ok run_scope
    else err (value_error ("Unknown session memory scope kind: " <> name))

needed_text : Option String → (field_name : String) → Result String
needed_text none field_name =
    err (value_error ("Session `" <> field_name <> "` must be a non-empty string"))
needed_text (some value) field_name = normalize_text value field_name

unfoldable pub normalize_scope_value : ScopeKind → Option String → Result (Option String)
unfolding needed_text normalize_text
normalize_scope_value global_scope value = ok none
normalize_scope_value _ value = map_result some (needed_text value "memory_scope.value")

value_or_default : ScopeKind → String → Option (Option String) → Option String
value_or_default kind agent (some value) = value
value_or_default agent_scope agent none = some agent
value_or_default _ agent none = none

unfoldable pub normalize_memory_scope : Option RawScope → (agent : String) → Result MemoryScope
unfolding scope_kind_named value_or_default normalize_scope_value
normalize_memory_scope none agent = ok (record { kind = agent_scope; value = some agent })
normalize_memory_scope (some raw) agent =
    and_then (elim raw.kind [ none ↦ ok agent_scope | some name ↦ scope_kind_named name ])
      (λ kind.
        map_result (λ value. record { kind = kind; value = value })
          (normalize_scope_value kind (value_or_default kind agent raw.value)))

abbrev pub raw_scope : MemoryScope → RawScope
raw_scope scope = record { kind = some (scope_name scope.kind); value = some scope.value }

abbrev pub is_missing : {A : Type 0} → Option A → Bool
is_missing none = true
is_missing (some a) = false

unfoldable pub normalize_ownership : Ownership → Result Ownership
unfolding normalize_optional_text
normalize_ownership o =
    and_then (normalize_optional_text o.token_hash "ownership.token_hash") (λ token_hash.
      if o.auth_required && is_missing token_hash
      then err (value_error "Owned sessions must persist `ownership.token_hash`")
      else map_result (λ surface. record o { surface = surface; token_hash = token_hash })
          (normalize_optional_text o.surface "ownership.surface"))

-- The loop; `kept` holds what was seen, in its order.
add_unique : (kept : List String) → List (Option String) → List String
add_unique kept [] = kept
add_unique kept (none ∷ values) = add_unique kept values
add_unique kept (some value ∷ values) =
    add_unique
      (if is_blank value || elem (strip value) kept then kept else kept ++ strip value ∷ []) values

unfoldable pub unique_strings : List (Option String) → List String
unfolding add_unique
unique_strings values = add_unique [] values
