-- ===== src/Policy/Decisions.antt =====
-- `evaluate_policy` and `enforce_policy` (runtime/policy.py) against a description of the decision:
-- a deny rule wins over everything, an approval rule over an allow rule, and without a rule nothing is
-- allowed.
use clarityos.Prelude.{
  String, Bool, ◌≡◌, refl, true, false, not, ◌&&◌, Option, none, some, List, [], ◌∷◌, any_of, elem,
  arith, if◌then◌else◌, ◌==◌, ==_iff, sym, string_eq, inl, inr, Bool-cases, subst,
}
use clarityos.Python.Errors.{policy_denied}
use clarityos.Python.Exec.{Result, ok, err}
use clarityos.Workflow.Settings.{assert_valid_capability, capability_classes}
use clarityos.Policy.Rules.{
  Rule, PolicyAction, Policy, PolicyDecision, Match, decision, on_capability, fits_key, match_scope,
  no_match, rule_matches, first_match, evaluate_policy, enforce_policy,
}

abbrev pub IsCapability : String → Type 0
IsCapability c = elem c capability_classes ≡ true

valid_ok : (c : String) → IsCapability c → assert_valid_capability c ≡ ok c
unfolding assert_valid_capability
valid_ok c h = rw h refl

module _ (fnmatch : (name pattern : String) → Bool)
    (normalize_repo_relative_path : String → Option String) where
  abbrev pub resolved : Option String → Option String
  resolved none = none
  resolved (some raw) = normalize_repo_relative_path raw

  -- Whether a rule covers an action: the capability is the same, and the value of the first of its keys
  -- `paths`, `domains`, `commands` fits, or without these the memory type and the scope kind fit.
  covers_scope : Rule → PolicyAction → (paths domains commands : Option (List String)) → Bool
  covers_scope rule action (some ps) ds cs = fits_key fnmatch (some ps) (resolved action.path)
  covers_scope rule action none (some ds) cs = fits_key fnmatch (some ds) action.domain
  covers_scope rule action none none (some cs) = fits_key fnmatch (some cs) action.command
  covers_scope rule action none none none =
      fits_key fnmatch rule.memory_types action.memory_type
      && fits_key fnmatch rule.scope_kinds action.scope_kind

  unfoldable pub covers : Rule → PolicyAction → Bool
  unfolding covers_scope
  covers rule action =
      rule.capability == action.capability
      && covers_scope rule action rule.paths rule.domains rule.commands

  scope_covers :
      (rule : Rule) (action : PolicyAction)
      → (match_scope fnmatch normalize_repo_relative_path rule action rule.paths).0
        ≡ covers_scope rule action rule.paths rule.domains rule.commands
  unfolding match_scope covers_scope
  scope_covers rule action = ground arith

  rule_matches-covers :
      (rule : Rule) (action : PolicyAction)
      → IsCapability action.capability
      → (m : Match) × (rule_matches fnmatch normalize_repo_relative_path rule action ≡ ok m)
        × (m.0 ≡ covers rule action)
  unfolding rule_matches covers
  rule_matches-covers rule action valid = elim (Bool-cases (rule.capability == action.capability)) [
    | inr other ↦ (no_match, rw other refl, rw other refl)
    | inl same ↦
        let known =
          valid_ok rule.capability
            (subst IsCapability (sym ((==_iff rule.capability action.capability).0 same)) valid) in
        (
          match_scope fnmatch normalize_repo_relative_path rule action rule.paths,
          rw same (rw known refl),
          rw same (scope_covers rule action),
        )
  ]

  abbrev pub is_found : Option (Option String) → Bool
  is_found none = false
  is_found (some scope) = true

  first_match-covers :
      (rules : List Rule) (action : PolicyAction)
      → IsCapability action.capability
      → (o : Option (Option String)) × (first_match fnmatch normalize_repo_relative_path rules
            action
          ≡ ok o)
        × (is_found o ≡ any_of (λ rule. covers rule action) rules)
  unfolding first_match
  first_match-covers [] action valid = (none, refl, refl)
  first_match-covers (rule ∷ rules) action valid =
      let (m, matched, e) = rule_matches-covers rule action valid in
      let (o, rest, same) = first_match-covers rules action valid in
      elim (Bool-cases m.0) [
        | inl hit ↦ (some m.1, rw matched (rw hit refl), ground (arith, e, hit))
        | inr miss ↦ (o, rw matched (rw miss rest), ground (arith, e, miss, same))
      ]

  abbrev pub any_covers : List Rule → PolicyAction → Bool
  any_covers rules action = any_of (λ rule. covers rule action) rules

  -- The decision by the first matches among the deny, approval and allow rules.
  decided : Policy → PolicyAction → (deny approval allow : Option (Option String)) → PolicyDecision
  decided policy action (some scope) approval allow =
      decision false false (on_capability "Denied by" policy action) scope
  decided policy action none (some scope) allow =
      decision false true (on_capability "Approval required by" policy action) scope
  decided policy action none none (some scope) =
      decision true false (on_capability "Allowed by" policy action) scope
  decided policy action none none none =
      decision false false (on_capability "No allow rule matched in" policy action) none

  module _ (policy : Policy) (action : PolicyAction) (valid : IsCapability action.capability) where
    abbrev match_in : List Rule → Result (Option (Option String))
    match_in rules = first_match fnmatch normalize_repo_relative_path rules action

    decided_eq :
        (deny approval allow : Option (Option String))
        → match_in policy.deny ≡ ok deny
        → match_in policy.approval ≡ ok approval
        → match_in policy.allow ≡ ok allow
        → evaluate_policy fnmatch normalize_repo_relative_path policy action
          ≡ ok (decided policy action deny approval allow)
    unfolding evaluate_policy decided
    decided_eq (some scope) o₂ o₃ e₁ e₂ e₃ = rw (valid_ok action.capability valid) (rw e₁ refl)
    decided_eq none (some scope) o₃ e₁ e₂ e₃ =
        rw (valid_ok action.capability valid) (rw e₁ (rw e₂ refl))
    decided_eq none none (some scope) e₁ e₂ e₃ =
        rw (valid_ok action.capability valid) (rw e₁ (rw e₂ (rw e₃ refl)))
    decided_eq none none none e₁ e₂ e₃ =
        rw (valid_ok action.capability valid) (rw e₁ (rw e₂ (rw e₃ refl)))

    decided-allowed :
        (deny approval allow : Option (Option String))
        → ((decided policy action deny approval allow).allowed
            ≡ (not (is_found deny) && (not (is_found approval) && is_found allow)))
          × ((decided policy action deny approval allow).requires_approval
              ≡ (not (is_found deny) && is_found approval))
    unfolding decided
    decided-allowed (some s) o₂ o₃ = (refl, refl)
    decided-allowed none (some s) o₃ = (refl, refl)
    decided-allowed none none (some s) = (refl, refl)
    decided-allowed none none none = (refl, refl)

    -- For an action with a known capability, the decision is made without an exception. It allows
    -- the action exactly where no deny rule and no approval rule covers it and some allow rule does,
    -- and it asks for an approval exactly where no deny rule covers it and some approval rule does.
    pub evaluate_policy-any_covers :
        (d : PolicyDecision) × (evaluate_policy fnmatch normalize_repo_relative_path policy action
          ≡ ok d)
        × (d.allowed ≡ (
            not (any_covers policy.deny action)
            && (not (any_covers policy.approval action) && any_covers policy.allow action)))
        × (d.requires_approval
            ≡ (not (any_covers policy.deny action) && any_covers policy.approval action))
    evaluate_policy-any_covers =
        let (deny, e₁, s₁) = first_match-covers policy.deny action valid in
        let (approval, e₂, s₂) = first_match-covers policy.approval action valid in
        let (allow, e₃, s₃) = first_match-covers policy.allow action valid in
        let (a, r) = decided-allowed deny approval allow in
        (
          decided policy action deny approval allow,
          decided_eq deny approval allow e₁ e₂ e₃,
          ground (arith, a, s₁, s₂, s₃),
          ground (arith, r, s₁, s₂),
        )

    -- What `enforce_policy` does with an action of a known capability: it returns the decision of
    -- `evaluate_policy` where no deny rule and no approval rule covers it and some allow rule does,
    -- and everywhere else it raises that the policy denies the capability.
    enforce_policy-any_covers :
        (d : PolicyDecision) × (evaluate_policy fnmatch normalize_repo_relative_path policy action
          ≡ ok d)
        × (enforce_policy fnmatch normalize_repo_relative_path policy action ≡ (
            if not (any_covers policy.deny action)
              && (not (any_covers policy.approval action) && any_covers policy.allow action)
            then ok d
            else err (policy_denied d.reason action.capability policy.name)))
    unfolding enforce_policy
    enforce_policy-any_covers =
        let (d, evaluated, a, r) = evaluate_policy-any_covers in
        (d, evaluated, rw evaluated (rw a refl))
