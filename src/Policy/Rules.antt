-- ===== src/Policy/Rules.antt =====
-- Rules, and the decision on an action (runtime/policy.py). The parameters are `fnmatch` of Python's
-- library, and the resolving of a path against the repository, which reads the file system.
use clarityos.Prelude.{
  String, ◌<>◌, Bool, true, false, not, Option, none, some, List, [], ◌∷◌, any_of, if◌then◌else◌,
  ◌==◌, string_eq,
}
use clarityos.Python.Errors.{policy_denied}
use clarityos.Python.Exec.{Result, ok, err, and_then}
use clarityos.Workflow.Settings.{assert_valid_capability}

-- A rule: an absent key is `none`.
pub record Rule : Type 0 where
  pub capability : String
  pub paths : Option (List String)
  pub domains : Option (List String)
  pub commands : Option (List String)
  pub memory_types : Option (List String)
  pub scope_kinds : Option (List String)

pub record PolicyAction : Type 0 where
  pub capability : String
  pub path : Option String
  pub domain : Option String
  pub command : Option String
  pub memory_type : Option String
  pub scope_kind : Option String

pub record Policy : Type 0 where
  pub name : String
  pub allow : List Rule
  pub approval : List Rule
  pub deny : List Rule

pub record PolicyDecision : Type 0 where
  pub allowed : Bool
  pub requires_approval : Bool
  pub reason : String
  pub matched_scope : Option String

abbrev pub Match : Type 0
Match = Bool × Option String

abbrev pub no_match : Match
no_match = (false, none)

-- `",".join(details) if details else None`
abbrev pub memory_scope : Option String → Option String → Option String
memory_scope none none = none
memory_scope (some t) none = some ("memory_type:" <> t)
memory_scope none (some k) = some ("scope_kind:" <> k)
memory_scope (some t) (some k) = some ("memory_type:" <> t <> "," <> "scope_kind:" <> k)

abbrev pub decision : Bool → Bool → String → Option String → PolicyDecision
decision allowed requires_approval reason scope = record {
  allowed = allowed;
  requires_approval = requires_approval;
  reason = reason;
  matched_scope = scope;
}

abbrev pub on_capability : String → Policy → PolicyAction → String
on_capability start policy action =
    start <> " policy `" <> policy.name <> "` for capability `" <> action.capability <> "`"

module _ (fnmatch : (name pattern : String) → Bool) where
  abbrev pub fits_one : String → List String → Bool
  fits_one name patterns = any_of (fnmatch name) patterns

  -- The match of a value with the patterns of a key; `label` begins the scope.
  abbrev pub match_value : String → Option String → List String → Match
  match_value label none patterns = no_match
  match_value label (some v) patterns =
      if fits_one v patterns then (true, some (label <> v)) else no_match

  -- A key that is absent, or whose patterns fit the value.
  abbrev pub fits_key : Option (List String) → Option String → Bool
  fits_key none v = true
  fits_key (some patterns) none = false
  fits_key (some patterns) (some v) = fits_one v patterns

  match_memory : Rule → PolicyAction → Match
  match_memory rule action =
      if not (fits_key rule.memory_types action.memory_type)
      then no_match
      else if not (fits_key rule.scope_kinds action.scope_kind)
      then no_match
      else (true, memory_scope action.memory_type action.scope_kind)

  match_rest : Rule → PolicyAction → Option (List String) → Option (List String) → Match
  unfolding match_memory
  match_rest rule action none none = (true, none)
  match_rest rule action (some ts) ks = match_memory rule action
  match_rest rule action none (some ks) = match_memory rule action

  match_commands : Rule → PolicyAction → Option (List String) → Match
  unfolding match_rest
  match_commands rule action (some patterns) = match_value "command:" action.command patterns
  match_commands rule action none = match_rest rule action rule.memory_types rule.scope_kinds

  match_domains : Rule → PolicyAction → Option (List String) → Match
  unfolding match_commands
  match_domains rule action (some patterns) = match_value "domain:" action.domain patterns
  match_domains rule action none = match_commands rule action rule.commands

  module _ (normalize_repo_relative_path : String → Option String) where
    abbrev pub match_path : Option String → List String → Match
    match_path none patterns = no_match
    match_path (some raw) patterns = match_value "path:" (normalize_repo_relative_path raw) patterns

    -- The scope of a rule for the action's capability.
    unfoldable pub match_scope : Rule → PolicyAction → Option (List String) → Match
    unfolding match_domains
    match_scope rule action (some patterns) = match_path action.path patterns
    match_scope rule action none = match_domains rule action rule.domains

    unfoldable pub rule_matches : Rule → PolicyAction → Result Match
    unfolding match_scope
    rule_matches rule action =
        if not (rule.capability == action.capability)
        then ok no_match
        else and_then (assert_valid_capability rule.capability)
            (λ _. ok (match_scope rule action rule.paths))

    -- `for rule in rules`: the scope of the first rule that matches.
    unfoldable pub first_match : List Rule → PolicyAction → Result (Option (Option String))
    unfolding rule_matches
    first_match [] action = ok none
    first_match (rule ∷ rules) action =
        let rest = first_match rules action in
        and_then (rule_matches rule action) (λ found. if found.0 then ok (some found.1) else rest)

    decide_allow : Policy → PolicyAction → Option (Option String) → PolicyDecision
    decide_allow policy action (some scope) =
        decision true false (on_capability "Allowed by" policy action) scope
    decide_allow policy action none =
        decision false false (on_capability "No allow rule matched in" policy action) none

    decide_approval : Policy → PolicyAction → Option (Option String) → Result PolicyDecision
    unfolding decide_allow first_match
    decide_approval policy action (some scope) =
        ok (decision false true (on_capability "Approval required by" policy action) scope)
    decide_approval policy action none =
        and_then (first_match policy.allow action) (λ m. ok (decide_allow policy action m))

    decide_deny : Policy → PolicyAction → Option (Option String) → Result PolicyDecision
    unfolding decide_approval
    decide_deny policy action (some scope) =
        ok (decision false false (on_capability "Denied by" policy action) scope)
    decide_deny policy action none =
        and_then (first_match policy.approval action) (decide_approval policy action)

    unfoldable pub evaluate_policy : Policy → PolicyAction → Result PolicyDecision
    unfolding decide_deny
    evaluate_policy policy action =
        and_then (assert_valid_capability action.capability)
          λ _. and_then (first_match policy.deny action) (decide_deny policy action)

    abbrev pub enforced : Policy → PolicyAction → PolicyDecision → Result PolicyDecision
    enforced policy action d =
        if d.allowed then ok d else err (policy_denied d.reason action.capability policy.name)

    unfoldable pub enforce_policy : Policy → PolicyAction → Result PolicyDecision
    unfolding evaluate_policy
    enforce_policy policy action = and_then (evaluate_policy policy action) (enforced policy action)
