-- ===== src/Policy/Production.antt =====
-- What `validate_policy_rules` (runtime/policy.py) lets through in production.
use clarityos.Prelude.{
  String, ◌≡◌, refl, subst, true, false, ◌&&◌, List, [], ◌∷◌, arith, ◌==◌, string_eq, All, inl, inr,
  Bool-cases,
}
use clarityos.Python.Exec.{Result, ok, err, traverse, and_then-eq-ok, map_result}
use clarityos.Python.Text.{strip, is_blank}
use clarityos.Workflow.Settings.{assert_valid_capability}
use clarityos.Policy.Rules.{Rule, Policy}
use clarityos.Policy.Validation.{
  ListName, is_deny, rule_contains_broad_pattern, check_explicit, validate_rule, denies,
  check_denies, RawPolicy, rules_of, validate_policy_rules,
}
use clarityos.Policy.Decisions.{IsCapability}

-- A rule whose dangerous capability is bound to explicit patterns.
pub record IsExplicit (rule : Rule) : Type 0 where
  pub known : IsCapability rule.capability
  pub exec : (rule.capability == "exec" && rule_contains_broad_pattern rule.commands) ≡ false
  pub http : (rule.capability == "http" && rule_contains_broad_pattern rule.domains) ≡ false
  pub file_write :
      (rule.capability == "file_write" && rule_contains_broad_pattern rule.paths) ≡ false

known-IsCapability : (c c' : String) → assert_valid_capability c ≡ ok c' → IsCapability c
unfolding assert_valid_capability
known-IsCapability c c' e = ground arith

check_explicit-same :
    (policy_name : String) (l : ListName) (rule rule' : Rule)
    → check_explicit policy_name l rule ≡ ok rule'
    → (rule ≡ rule')
      × ((rule.capability == "exec" && rule_contains_broad_pattern rule.commands) ≡ false)
      × ((rule.capability == "http" && rule_contains_broad_pattern rule.domains) ≡ false)
      × ((rule.capability == "file_write" && rule_contains_broad_pattern rule.paths) ≡ false)
unfolding check_explicit
check_explicit-same policy_name l rule rule' e = ground arith

validate_rule-IsExplicit :
    (policy_name : String) (l : ListName) (rule rule' : Rule)
    → is_deny l ≡ false
    → validate_rule true policy_name l rule ≡ ok rule'
    → IsExplicit rule'
unfolding validate_rule
validate_rule-IsExplicit policy_name l rule rule' open_list e =
    elim (Bool-cases (is_blank rule.capability)) [
      | inl blank ↦ cc (rw blank at e)
      | inr named ↦
          let normalized = record rule { capability = strip rule.capability } in
          let (c, known, checked) =
            and_then-eq-ok (assert_valid_capability (strip rule.capability)) _ (rw named at e) in
          let (same, exec, http, file_write) =
            check_explicit-same policy_name l normalized rule' (rw open_list at checked) in
          subst IsExplicit same (record {
            known = known-IsCapability (strip rule.capability) c known;
            exec = exec;
            http = http;
            file_write = file_write;
          })
    ]

map_result-eq-ok :
    {A B : Type 0} (f : A → B) (r : Result A) (b : B)
    → map_result f r ≡ ok b
    → (a : A) × (r ≡ ok a) × (f a ≡ b)
map_result-eq-ok f (ok a) b e = (a, refl, cc)
map_result-eq-ok f (err x) b e = cc

module _ {A B : Type 0} (f : A → Result B) (P : B → Type 0)
    (h : (a : A) (b : B) → f a ≡ ok b → P b) where
  traverse-All : (xs : List A) (ys : List B) → traverse f xs ≡ ok ys → All P ys
  traverse-All [] ys e = subst (All P) {x = []} (cc) tt
  traverse-All (x ∷ xs) ys e =
      let (y, first, rest) = and_then-eq-ok (f x) _ e in
      let (zs, more, same) = map_result-eq-ok (λ zs. y ∷ zs) (traverse f xs) ys rest in
      subst (All P) same (h x y first, traverse-All xs zs more)

check_denies-both :
    (policy policy' : Policy)
    → check_denies true policy ≡ ok policy'
    → (policy ≡ policy')
      × (denies "file_write" policy.deny ≡ true)
      × (denies "http" policy.deny ≡ true)
unfolding check_denies
check_denies-both policy policy' e = ground arith

-- A policy that passes `validate_policy_rules` in production: every allow rule and every approval rule
-- has a known capability, and one for `exec`, `http` or `file_write` names explicit patterns; and there
-- are deny rules for `file_write` and for `http`.
pub validate_policy_rules-IsExplicit :
    (policy_name : String) (raw : RawPolicy) (policy : Policy)
    → validate_policy_rules true policy_name raw ≡ ok policy
    → All IsExplicit policy.allow
      × All IsExplicit policy.approval
      × (denies "file_write" policy.deny ≡ true)
      × (denies "http" policy.deny ≡ true)
unfolding validate_policy_rules
validate_policy_rules-IsExplicit policy_name raw policy e =
    let (allowed, e₁, r₁) = and_then-eq-ok (traverse _ (rules_of raw.allow)) _ e in
    let (approvals, e₂, r₂) = and_then-eq-ok (traverse _ (rules_of raw.approval)) _ r₁ in
    let (denied, e₃, r₃) = and_then-eq-ok (traverse _ (rules_of raw.deny)) _ r₂ in
    let (same, write, http) =
      check_denies-both
        (record { name = policy_name; allow = allowed; approval = approvals; deny = denied }) policy
        r₃ in
    let explicit_allow =
      traverse-All (validate_rule true policy_name ListName.allow) IsExplicit
        (λ a b. validate_rule-IsExplicit policy_name ListName.allow a b refl) (rules_of raw.allow)
        allowed e₁ in
    let explicit_approval =
      traverse-All (validate_rule true policy_name ListName.approval) IsExplicit
        (λ a b. validate_rule-IsExplicit policy_name ListName.approval a b refl)
        (rules_of raw.approval) approvals e₂ in
    subst
      (λ (p : Policy).
        All IsExplicit p.allow
        × All IsExplicit p.approval
        × (denies "file_write" p.deny ≡ true)
        × (denies "http" p.deny ≡ true))
      same (explicit_allow, explicit_approval, write, http)
