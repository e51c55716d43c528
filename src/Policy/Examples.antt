-- ===== src/Policy/Examples.antt =====
-- The theorems of the policies at a small policy.
use clarityos.Prelude.{
  String, Bool, true, not, ◌&&◌, ◌≡◌, refl, Option, none, some, [], ◌∷◌, All, ◌==◌, string_eq,
}
use clarityos.Python.Exec.{ok}
use clarityos.Python.Text.{strip}
use clarityos.Workflow.Settings.{assert_valid_capability}
use clarityos.Policy.Rules.{Rule, PolicyAction, Policy, PolicyDecision, evaluate_policy}
use clarityos.Policy.Validation.{validate_policy_rules, denies}
use clarityos.Policy.Decisions.{any_covers, evaluate_policy-any_covers}
use clarityos.Policy.Production.{IsExplicit, validate_policy_rules-IsExplicit}

-- Patterns that are plain names, and paths that are resolved already.
abbrev same_name : String → String → Bool
same_name name pattern = name == pattern

abbrev as_given : String → Option String
as_given path = some path

abbrev rule_for : String → Rule
rule_for capability = record {
  capability = capability;
  paths = none;
  domains = none;
  commands = none;
  memory_types = none;
  scope_kinds = none;
}

abbrev readers : Policy
readers = record {
  name = "readers";
  allow = rule_for "file_read" ∷ [];
  approval = [];
  deny = rule_for "file_write" ∷ rule_for "http" ∷ [];
}

abbrev read_file : PolicyAction
read_file = record {
  capability = "file_read";
  path = some "README.md";
  domain = none;
  command = none;
  memory_type = none;
  scope_kind = none;
}

evaluate_policy-any_covers_example :
    (d : PolicyDecision) × (evaluate_policy same_name as_given readers read_file ≡ ok d)
    × (d.allowed ≡ (
        not (any_covers same_name as_given readers.deny read_file)
        && (not (any_covers same_name as_given readers.approval read_file)
            && any_covers same_name as_given readers.allow read_file)))
    × (d.requires_approval ≡ (
        not (any_covers same_name as_given readers.deny read_file)
        && any_covers same_name as_given readers.approval read_file))
evaluate_policy-any_covers_example =
    evaluate_policy-any_covers same_name as_given readers read_file refl

validate_policy_rules-IsExplicit_example :
    All IsExplicit readers.allow
    × All IsExplicit readers.approval
    × (denies "file_write" readers.deny ≡ true)
    × (denies "http" readers.deny ≡ true)
unfolding validate_policy_rules strip assert_valid_capability
validate_policy_rules-IsExplicit_example =
    validate_policy_rules-IsExplicit "readers"
      (record {
        allow = some (rule_for "file_read" ∷ []);
        approval = none;
        deny = some (rule_for " file_write " ∷ rule_for "http" ∷ []);
      })
      readers refl
