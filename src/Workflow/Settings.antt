-- ===== src/Workflow/Settings.antt =====
-- The settings of a workflow and the checks on them (runtime/workflow.py): retries, children and
-- delegation, and the state that a new workflow starts in.
use clarityos.Prelude.{
  ℕ, String, ◌<>◌, Option, none, some, List, [], ◌∷◌, ◌++◌, if◌then◌else◌, string_eq, elem,
}
use clarityos.Prelude.Int.{ℤ, pos}
use clarityos.Python.Errors.{value_error}
use clarityos.Python.Exec.{Result, ok, err, and_then, map_result, traverse}
use clarityos.Python.Json.{
  Json, null, str, int, arr, Items, nil, cons, Fields, end, get, get_or_null, as_int,
}
use clarityos.Python.Text.{strip, is_blank}
use clarityos.Workflow.State.{RetryPolicy, RetryState, SubrunPolicy, Delegation, Entry}

abbrev get_or : Json → String → Fields → Json
get_or default key fields = elim (get key fields) [ none ↦ default | some v ↦ v ]

non_negative : String → Option ℤ → Result ℕ
non_negative complaint (some (pos n)) = ok n
non_negative complaint _ = err (value_error complaint)

-- `config.get(key, 0)`, which must be a non-negative integer
count_at : String → String → Fields → Result ℕ
unfolding non_negative
count_at complaint key fields =
    non_negative (complaint <> " `" <> key <> "` must be a non-negative integer")
      (as_int (get_or (int (pos 0)) key fields))

-- `config or {}`
abbrev or_empty : Option Fields → Fields
or_empty none = end
or_empty (some fields) = fields

unfoldable pub normalize_retry_policy : Option Fields → Result RetryPolicy
unfolding count_at
normalize_retry_policy config =
    and_then (count_at "Workflow retry policy" "max_attempts" (or_empty config)) λ max_attempts.
      map_result (λ backoff. record { max_attempts = max_attempts; backoff_seconds = backoff })
        (count_at "Workflow retry policy" "backoff_seconds" (or_empty config))

unfoldable pub normalize_optional_string : Json → String → Result (Option String)
normalize_optional_string null field_name = ok none
normalize_optional_string (str s) field_name =
    if is_blank s
    then err (value_error ("Workflow `" <> field_name <> "` must be a non-empty string"))
    else ok (some (strip s))
normalize_optional_string _ field_name =
    err (value_error ("Workflow `" <> field_name <> "` must be a non-empty string"))

-- The loop over the raw items; `normalized` holds the items that were seen.
unfoldable pub collect_strings : String → List String → Items → Result (List String)
collect_strings field_name normalized nil = ok normalized
collect_strings field_name normalized (cons (str raw) rest) =
    let more =
      collect_strings field_name
        (if elem (strip raw) normalized then normalized else normalized ++ strip raw ∷ []) rest in
    if is_blank raw
    then err (value_error ("Workflow `" <> field_name <> "` must contain non-empty strings"))
    else more
collect_strings field_name normalized (cons _ rest) =
    err (value_error ("Workflow `" <> field_name <> "` must contain non-empty strings"))

unfoldable pub normalize_string_list : Json → String → Result (List String)
unfolding collect_strings
normalize_string_list null field_name = ok []
normalize_string_list (arr items) field_name = collect_strings field_name [] items
normalize_string_list _ field_name =
    err (value_error ("Workflow `" <> field_name <> "` must be a list of strings"))

unfoldable pub normalize_optional_string_list : Json → String → Result (Option (List String))
unfolding normalize_string_list
normalize_optional_string_list null field_name = ok none
normalize_optional_string_list value field_name =
    map_result some (normalize_string_list value field_name)

unfoldable pub default_retry_state : RetryPolicy → RetryState
default_retry_state policy = record {
  attempts_used = 0;
  retries_remaining = policy.max_attempts;
  next_retry_at = none;
  last_error = none;
}

-- `CAPABILITY_CLASSES` of runtime/policy.py
abbrev pub capability_classes : List String
capability_classes =
    "model_call" ∷ "file_read" ∷ "file_write" ∷ "http" ∷ "exec" ∷ "runtime_read" ∷ "runtime_write"
    ∷ "memory_read" ∷ "memory_write" ∷ []

unfoldable pub assert_valid_capability : String → Result String
assert_valid_capability capability =
    if elem capability capability_classes
    then ok capability
    else err (value_error ("Unknown capability class: " <> capability))

abbrev or_no_list : Option (List String) → List String
or_no_list none = []
or_no_list (some xs) = xs

unfoldable pub normalize_subrun_policy : Option Fields → Result SubrunPolicy
unfolding count_at
normalize_subrun_policy config =
    let fields = or_empty config in
    and_then (normalize_optional_string_list (get_or_null "allowed_agents" fields) "allowed_agents")
      λ agents.
        and_then
          (normalize_optional_string_list (get_or_null "allowed_capabilities" fields)
            "allowed_capabilities")
          λ capabilities.
            and_then
              (normalize_optional_string_list (get_or_null "allowed_tools" fields) "allowed_tools")
              λ tools.
                and_then (count_at "Workflow subrun policy" "max_children" fields) λ children.
                  and_then (count_at "Workflow subrun policy" "max_depth" fields) λ depth.
                    map_result
                      (λ checked. record {
                        max_children = children;
                        max_depth = depth;
                        allowed_agents = agents;
                        allowed_capabilities = capabilities;
                        allowed_tools = tools;
                      })
                      (traverse assert_valid_capability (or_no_list capabilities))

need_capabilities : List String → Result (List String)
need_capabilities [] =
    err (
      value_error "Workflow `delegation.allowed_capabilities` must contain at least one capability")
need_capabilities (c ∷ cs) = traverse assert_valid_capability (c ∷ cs)

delegation_of : Fields → Result Delegation
unfolding need_capabilities
delegation_of fields =
    and_then
      (normalize_string_list (get_or_null "allowed_capabilities" fields)
        "delegation.allowed_capabilities")
      λ raw. and_then (need_capabilities raw) λ capabilities.
        and_then (normalize_optional_string (get_or_null "role" fields) "delegation.role") λ role.
          and_then
            (normalize_optional_string (get_or_null "assigned_by_workflow_id" fields)
              "delegation.assigned_by_workflow_id")
            λ by_workflow.
              and_then
                (normalize_optional_string (get_or_null "assigned_by_run_id" fields)
                  "delegation.assigned_by_run_id")
                λ by_run.
                  and_then
                    (normalize_string_list (get_or_null "allowed_tools" fields)
                      "delegation.allowed_tools")
                    λ tools.
                      and_then
                        (normalize_optional_string (get_or_null "task_intent" fields)
                          "delegation.task_intent")
                        λ intent.
                          and_then
                            (normalize_optional_string (get_or_null "expected_output" fields)
                              "delegation.expected_output")
                            λ expected.
                              map_result
                                (λ criteria. record {
                                  role = role;
                                  assigned_by_workflow_id = by_workflow;
                                  assigned_by_run_id = by_run;
                                  allowed_capabilities = capabilities;
                                  allowed_tools = tools;
                                  task_intent = intent;
                                  expected_output = expected;
                                  completion_criteria = criteria;
                                })
                                (normalize_string_list (get_or_null "completion_criteria" fields)
                                  "delegation.completion_criteria")

-- An empty dictionary is no delegation.
unfoldable pub normalize_delegation : Option Fields → Result (Option Delegation)
unfolding delegation_of
normalize_delegation none = ok none
normalize_delegation (some end) = ok none
normalize_delegation (some fields) = map_result some (delegation_of fields)

check_shared : Entry → Result Entry
check_shared memory =
    if is_blank memory.entry_id
    then err (value_error "Workflow shared memory entries must include `memory_id`")
    else ok memory

-- On entries that are dictionaries with a text for `memory_id`.
unfoldable pub normalize_shared_memories : List Entry → Result (List Entry)
unfolding check_shared
normalize_shared_memories memories = traverse check_shared memories

denied_tool : String → Option String → List String → Option String
denied_tool workflow_id none allowed = none
denied_tool workflow_id (some name) allowed =
    if elem name allowed
    then none
    else some ("Workflow `" <> workflow_id <> "` delegation does not allow tool `" <> name <> "`")

-- Why the delegation of a workflow forbids a use of a capability, or `none`.
unfoldable pub delegation_denial_reason :
    String → Option Delegation → (capability : String) → (tool_name : Option String) → Option String
unfolding denied_tool
delegation_denial_reason workflow_id none capability tool_name = none
delegation_denial_reason workflow_id (some d) capability tool_name =
    if elem capability d.allowed_capabilities
    then denied_tool workflow_id tool_name d.allowed_tools
    else some (
        "Workflow `" <> workflow_id <> "` delegation does not allow capability `" <> capability
        <> "`")
