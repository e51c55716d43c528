-- ===== src/Policy/Validation.antt =====
-- The checks on a policy before it is used, and the policy of an agent (runtime/policy.py).
-- `production` is what `production_mode_enabled` reads from the environment.
use clarityos.Prelude.{
  String, ◌<>◌, Bool, true, false, not, ◌&&◌, ◌||◌, Option, none, some, List, [], ◌∷◌, any_of, elem,
  if◌then◌else◌, ◌==◌, string_eq,
}
use clarityos.Python.Errors.{value_error}
use clarityos.Python.Exec.{Result, ok, err, and_then, traverse}
use clarityos.Python.Text.{strip, is_blank}
use clarityos.Workflow.Settings.{assert_valid_capability}
use clarityos.Policy.Rules.{Rule, Policy}

abbrev pub is_broad : String → Bool
is_broad item = is_blank item || elem (strip item) ("*" ∷ "**" ∷ [])

unfoldable pub rule_contains_broad_pattern : Option (List String) → Bool
rule_contains_broad_pattern none = true
rule_contains_broad_pattern (some items) = any_of is_broad items

-- The name of a list of rules.
pub data ListName : Type 0 where
  allow approval deny agent_allow agent_approval agent_deny : ListName

abbrev pub list_name_text : ListName → String
list_name_text allow = "allow"
list_name_text approval = "approval"
list_name_text deny = "deny"
list_name_text agent_allow = "agent.allow"
list_name_text agent_approval = "agent.approval"
list_name_text agent_deny = "agent.deny"

abbrev pub is_deny : ListName → Bool
is_deny deny = true
is_deny _ = false

must_declare : String → ListName → (capability what : String) → Result Rule
must_declare policy_name list_name capability what = err (
    value_error (
      "Policy `"
      <> policy_name
      <> "` "
      <> list_name_text list_name
      <> " rule for `"
      <> capability
      <> "` must declare explicit "
      <> what
      <> " in production"))

unfoldable pub check_explicit : String → ListName → Rule → Result Rule
unfolding must_declare
check_explicit policy_name list_name rule =
    if rule.capability == "exec" && rule_contains_broad_pattern rule.commands
    then must_declare policy_name list_name "exec" "commands"
    else if rule.capability == "http" && rule_contains_broad_pattern rule.domains
    then must_declare policy_name list_name "http" "domains"
    else if rule.capability == "file_write" && rule_contains_broad_pattern rule.paths
    then must_declare policy_name list_name "file_write" "paths"
    else ok rule

unfoldable pub validate_rule : (production : Bool) → String → ListName → Rule → Result Rule
unfolding check_explicit
validate_rule production policy_name list_name rule =
    let normalized = record rule { capability = strip rule.capability } in
    if is_blank rule.capability
    then err (
        value_error (
          "Policy `"
          <> policy_name
          <> "` "
          <> list_name_text list_name
          <> " rules require a non-empty `capability`"))
    else and_then (assert_valid_capability (strip rule.capability)) λ _.
      if production && not (is_deny list_name)
      then check_explicit policy_name list_name normalized
      else ok normalized

abbrev pub denies : String → List Rule → Bool
denies capability rules = any_of (λ rule. rule.capability == capability) rules

missing_text : (file_write http : Bool) → String
missing_text true true = "file_write, http"
missing_text true false = "file_write"
missing_text false _ = "http"

-- The denies that production requires.
unfoldable pub check_denies : (production : Bool) → Policy → Result Policy
unfolding missing_text
check_denies production policy =
    let no_write = not (denies "file_write" policy.deny) in
    let no_http = not (denies "http" policy.deny) in
    if production && (no_write || no_http)
    then err (
        value_error (
          "Policy `"
          <> policy.name
          <> "` must explicitly deny "
          <> missing_text no_write no_http
          <> " in production"))
    else ok policy

-- A policy as it is loaded: an absent list is `none`.
pub record RawPolicy : Type 0 where
  pub allow : Option (List Rule)
  pub approval : Option (List Rule)
  pub deny : Option (List Rule)

abbrev pub rules_of : Option (List Rule) → List Rule
rules_of none = []
rules_of (some rules) = rules

unfoldable pub validate_policy_rules : (production : Bool) → String → RawPolicy → Result Policy
unfolding check_denies validate_rule
validate_policy_rules production policy_name raw =
    and_then (traverse (validate_rule production policy_name ListName.allow) (rules_of raw.allow))
      λ allowed.
        and_then
          (traverse (validate_rule production policy_name ListName.approval)
            (rules_of raw.approval))
          λ approvals.
            and_then
              (traverse (validate_rule production policy_name ListName.deny) (rules_of raw.deny))
              λ denied. check_denies production (record {
                name = policy_name;
                allow = allowed;
                approval = approvals;
                deny = denied;
              })
